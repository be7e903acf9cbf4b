-- ===== src/Provenance.antt =====
-- The signed, append-only record of a run: src/provenance.py and src/verify_provenance.py. What they
-- share: the libraries that they call, the canonical bytes of a value, and relative paths.
pub mod Schema
pub mod Writer
pub mod Events
pub mod Verifier
pub mod Lines
pub mod Loaded
pub mod Chain
pub mod Verified
pub mod Signed
pub mod Recorded
pub mod Written
pub mod Whole
pub mod Accepted
pub mod Log
pub mod Returns
pub mod Sound
pub mod Closed
use tod_dl.Json.{Json}
use tod_dl.Json.Equal.{eq_json, has_float}
use tod_dl.Base.{
  ℤ, ℕ, ◌+◌, String, Bool, true, false, ◌||◌, Option, none, some, List, [], ◌∷◌, ◌++◌, str_eq, any,
  all, contains, if◌then◌else◌,
}

-- What `json.loads` finds, or `str(exc)` of the ValueError that leaves it.
pub data Parsed (A : Type 0) : Type 0 where
  value : A → Parsed A
  invalid : String → Parsed A

-- What stands outside the code. `B` are the bytes of a line or a file. `dumps` is `json.dumps` with
-- sorted keys and no spaces; `parse` is what `json.loads` reads before its `object_pairs_hook`, each
-- dictionary with its pairs as the text has them. `search` is `re.search`, `is_hex_digest` is
-- `HEX_DIGEST.fullmatch`. `float_eq` and `float_below` compare
-- a float. `fingerprint` is the hash of a raw key. `credentials` says whether `urlsplit` finds a user name or a password, if it
-- does not raise. `parts`, `is_absolute` and `as_posix` are those of `PurePosixPath`. `signature` is
-- `private_key.sign`, then `urlsafe_b64encode` without padding; `decode_fault` is what
-- `urlsafe_b64decode` raises for a signature, and `signature_fault` what `key.verify` raises for a key,
-- a signature and the signed bytes.
pub record Library (B : Type 0) : Type 0 where
  pub dumps : Json → B
  pub parse : B → Parsed Json
  pub float_eq : String → Json → Bool
  pub float_below : String → ℤ → Bool
  pub sha256_hex : B → String
  pub fingerprint : String → String
  pub repr : Json → String
  pub text_length : String → ℕ
  pub search : String → String → Bool
  pub is_hex_digest : String → Bool
  pub credentials : String → Option Bool
  pub is_absolute : String → Bool
  pub parts : String → List String
  pub as_posix : String → String
  pub signature : B → String
  pub decode_fault : String → Option String
  pub signature_fault : String → String → B → Option String

-- a == b
abbrev pub same : {B : Type 0} → Library B → Json → Json → Bool
same lib a b = eq_json lib.float_eq a b

-- canonical_json, unless it raises. Texts here are of Unicode scalar values, which `encode` takes: a
-- text with a lone surrogate is not in the model.
unfoldable pub canonical_json : {B : Type 0} → Library B → Json → Option B
canonical_json lib v = if has_float v then none else some (lib.dumps v)

-- digest, unless canonical_json raises
unfoldable pub digest : {B : Type 0} → Library B → Json → Option String
unfolding canonical_json
digest lib v = elim (canonical_json lib v) [
  | none ↦ none
  | some bytes ↦ some (lib.sha256_hex bytes)
]

unfoldable pub is_unsafe_part : String → Bool
is_unsafe_part part = str_eq part "" || str_eq part "." || str_eq part ".."

unfoldable pub is_empty : List String → Bool
is_empty [] = true
is_empty (x ∷ xs) = false

-- relative_text, unless it raises
unfoldable pub relative_text : {B : Type 0} → Library B → String → Option String
unfolding is_unsafe_part is_empty
relative_text lib path =
    if lib.is_absolute path || is_empty (lib.parts path) || any is_unsafe_part (lib.parts path)
    then none
    else some (lib.as_posix path)

-- if bad: errors.append(message)
unfoldable pub report : Bool → String → List String
report true message = message ∷ []
report false message = []

-- every text of the one list stands in the other
unfoldable pub is_subset : List String → List String → Bool
is_subset xs ys = all (λ x. contains x ys) xs

-- errors.append and errors.extend, one after another
unfoldable pub concat : List (List String) → List String
concat [] = []
concat (xs ∷ more) = xs ++ concat more
