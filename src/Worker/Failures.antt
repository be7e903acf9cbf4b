-- ===== src/Worker/Failures.antt =====
-- What an error text of aria2 means, and the size that a response announces (src/tod-dl.py).
use tod_dl.Controller.{OsError, Headers}
use tod_dl.Worker.{System}
use Prim.Native.Char.{code}
use tod_dl.Base.{
  ℕ, String, Bool, true, false, not, ◌||◌, Option, none, some, List, [], ◌∷◌, str_eq, ◌==◌,
  if◌then◌else◌,
}

-- text.startswith(prefix), and what follows it
unfoldable pub after_prefix : String → String → Option String
after_prefix String.[] text = some text
after_prefix (String.◌∷◌ c prefix) String.[] = none
after_prefix (String.◌∷◌ c prefix) (String.◌∷◌ d text) =
    let rest = after_prefix prefix text in if code c == code d then rest else none

-- part in text
unfoldable pub occurs : String → String → Bool
unfolding after_prefix
occurs part String.[] = str_eq part ""
occurs part (String.◌∷◌ c text) =
    let rest = occurs part text in
    elim (after_prefix part (String.◌∷◌ c text)) [ none ↦ rest | some _ ↦ true ]

unfoldable pub occurs_any : List String → String → Bool
unfolding occurs
occurs_any [] text = false
occurs_any (part ∷ parts) text = occurs part text || occurs_any parts text

module _ (sys : System) where
  -- `\b` behind a digit: the text ends, or no word character follows
  unfoldable pub ends_word : Option String → Bool
  ends_word none = false
  ends_word (some String.[]) = true
  ends_word (some (String.◌∷◌ c text)) = not (sys.is_word (code c))

  -- re.search(part + r"\b", text)
  unfoldable pub occurs_word : String → String → Bool
  unfolding after_prefix ends_word
  occurs_word part String.[] = false
  occurs_word part (String.◌∷◌ c text) =
      ends_word (after_prefix part (String.◌∷◌ c text)) || occurs_word part text

  unfoldable pub is_connectivity_failure : String → Bool
  unfolding occurs_any
  is_connectivity_failure error =
      occurs_any
        ("SOCKS" ∷ "NAME RESOLUTION" ∷ "FAILED TO CONNECT TO THE HOST" ∷ "CONNECTION REFUSED"
          ∷ "NO ROUTE TO HOST" ∷ "CONNECTION TIMED OUT" ∷ [])
        (sys.upper error)

  unfoldable pub is_incomplete_body_failure : String → Bool
  unfolding occurs
  is_incomplete_body_failure error = occurs "GOT EOF FROM THE SERVER" (sys.upper error)

  unfoldable pub is_unavailable_failure : String → Bool
  unfolding occurs occurs_word
  is_unavailable_failure error =
      let text = sys.upper error in
      occurs "RESOURCE NOT FOUND" text
      || occurs_word "STATUS=404" text
      || occurs_word "STATUS=410" text

  unfoldable pub is_access_denied_failure : String → Bool
  unfolding occurs occurs_word
  is_access_denied_failure error =
      let text = sys.upper error in
      occurs "AUTHORIZATION FAILED" text
      || occurs_word "STATUS=401" text
      || occurs_word "STATUS=403" text

  unfoldable pub is_disk_full_failure : String → Bool
  unfolding occurs
  is_disk_full_failure error = occurs "NO SPACE LEFT ON DEVICE" (sys.upper error)

  -- isinstance(length, str) and length.isdecimal(), and int(length)
  unfoldable pub size_by_status : Bool → (String → Option ℕ) → Option String → Option ℕ
  size_by_status false read text = none
  size_by_status true read none = none
  size_by_status true read (some text) = read text

  -- `range_total` is the number of a Content-Range that the regular expression matches.
  unfoldable pub expected_size_from_response : Headers → Option ℕ
  unfolding size_by_status
  expected_size_from_response response =
      let status : ℕ = elim response.http_status [ none ↦ 0 | some n ↦ n ] in
      elim (size_by_status (status == 200) sys.decimal_of response.content_length) [
        | some size ↦ some size
        | none ↦ size_by_status (status == 206) sys.range_total response.content_range
      ]

-- "ENAMETOOLONG" if the errno says so
unfoldable pub review_code_for_error : OsError → Option String
review_code_for_error error = if error.is_name_too_long then some "ENAMETOOLONG" else none
