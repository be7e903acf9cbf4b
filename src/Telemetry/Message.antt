-- ===== src/Telemetry/Message.antt =====
-- `sanitize_message` of src/download_telemetry.py, over the characters of a text.
use Prim.Native.Char.{code}
use Prim.Native.String.{[], ◌∷◌}
use tod_dl.Base.{
  ℕ, zero, suc, String, Bool, ◌&&◌, ◌||◌, not, leb, str_eq, ◌==◌, ◌<>◌, if◌then◌else◌,
}
use mathlib.Core.List.{List}

abbrev pub max_message : ℕ
max_message = 512

-- the white space of `str.split()`
unfoldable pub is_space : ℕ → Bool
is_space c =
    (leb 9 c && leb c 13)
    || (leb 28 c && leb c 32)
    || c == 0x85
    || c == 0xa0
    || c == 0x1680
    || (leb 0x2000 c && leb c 0x200a)
    || c == 0x2028
    || c == 0x2029
    || c == 0x202f
    || c == 0x205f
    || c == 0x3000

-- message.replace("\x1b", "?")
unfoldable pub replace_escape : String → String
replace_escape [] = []
replace_escape (c ∷ s) = if code c == 27 then "?" <> replace_escape s else c ∷ replace_escape s

-- str.split(), with the characters of the word that is being read
unfoldable pub split_words : String → String → List String
split_words word [] = if str_eq word "" then List.[] else List.◌∷◌ word List.[]
split_words word (c ∷ s) =
    let rest = split_words (if is_space (code c) then "" else word <> (c ∷ [])) s in
    if is_space (code c) && not (str_eq word "") then List.◌∷◌ word rest else rest

-- " ".join(words)
unfoldable pub join_words : List String → String
join_words List.[] = ""
join_words (List.◌∷◌ w List.[]) = w
join_words (List.◌∷◌ w (List.◌∷◌ v ws)) = w <> " " <> join_words (List.◌∷◌ v ws)

-- text[:n]
unfoldable pub take_text : ℕ → String → String
take_text zero s = []
take_text (suc n) [] = []
take_text (suc n) (c ∷ s) = c ∷ take_text n s

unfoldable pub sanitize_message : String → String
unfolding replace_escape split_words join_words take_text is_space
sanitize_message message =
    take_text max_message (join_words (split_words "" (replace_escape message)))
