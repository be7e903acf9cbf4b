-- ===== src/Base/Lists.antt =====
-- Lists filtered, searched and counted by Boolean tests, and dictionaries with text keys.
use Prim.Native.Nat.{ℕ, suc}
use Prim.Native.String.{String}
use mathlib.Core.Path.{◌≡◌, refl}
use mathlib.Core.Bool.{Bool, true, false, ◌&&◌, ◌||◌}
use mathlib.Core.List.{List, [], ◌∷◌}
use mathlib.Core.Option.{Option, none, some}
use native.Mathlib.Omega.{arith}
use text.Mathlib.Text.{◌==◌ as str_eq}
use text.Mathlib.TextEquality.{eq_iff}
use tod_dl.Base.Tests.{if◌then◌else◌, if_elim}

module _ {ℓ} {A : Type ℓ} where
  abbrev pub length : List A → ℕ
  length [] = 0
  length (x ∷ xs) = suc (length xs)

  unfoldable pub filter : (A → Bool) → List A → List A
  filter p [] = []
  filter p (x ∷ xs) = let rest = filter p xs in if p x then x ∷ rest else rest

  -- the library's `find?`, over a Boolean test
  unfoldable pub find? : (A → Bool) → List A → Option A
  find? p [] = none
  find? p (x ∷ xs) = if p x then some x else find? p xs

  unfoldable pub any : (A → Bool) → List A → Bool
  any p [] = false
  any p (x ∷ xs) = p x || any p xs

  unfoldable pub all : (A → Bool) → List A → Bool
  all p [] = true
  all p (x ∷ xs) = p x && all p xs

  -- A predicate by recursion computes to tuples, which the tactics read and build.
  abbrev pub All {κ} : (A → Type κ) → List A → Type κ
  All P [] = Unit
  All P (x ∷ xs) = P x × All P xs

-- What holds of all holds of the ones that pass.
pub All-filter {ℓ κ} :
    {A : Type ℓ} (P : A → Type κ) (q : A → Bool) (xs : List A) → All P xs → All P (filter q xs)
unfolding filter
All-filter P q [] h = h
All-filter P q (x ∷ xs) h =
    if_elim (All P) (q x) _ _ (λ _. (h.0, All-filter P q xs h.1)) (λ _. All-filter P q xs h.1)

-- `x in xs` for texts
unfoldable pub contains : String → List String → Bool
contains s [] = false
contains s (x ∷ xs) = str_eq s x || contains s xs

-- no text stands in the list twice
unfoldable pub distinct : List String → Bool
unfolding contains
distinct [] = true
distinct (x ∷ xs) = elim (contains x xs) [ true ↦ false | false ↦ distinct xs ]

-- A dictionary whose keys are texts, in the order in which they were first set.
module _ {ℓ} {V : Type ℓ} where
  unfoldable pub lookup : String → List (String × V) → Option V
  lookup key [] = none
  lookup key (entry ∷ dict) = if str_eq entry.0 key then some entry.1 else lookup key dict

  -- d[key] = value: a key that is there keeps its place
  unfoldable pub insert : String → V → List (String × V) → List (String × V)
  insert key value [] = (key, value) ∷ []
  insert key value (entry ∷ dict) =
      let rest = insert key value dict in
      if str_eq entry.0 key then (key, value) ∷ dict else entry ∷ rest

  -- d.pop(key, None)
  unfoldable pub erase : String → List (String × V) → List (String × V)
  erase key [] = []
  erase key (entry ∷ dict) =
      let rest = erase key dict in if str_eq entry.0 key then rest else entry ∷ rest

  pub lookup-insert :
      (key asked : String) (value : V) (dict : List (String × V))
      → lookup asked (insert key value dict)
        ≡ (if str_eq key asked then some value else lookup asked dict)
  unfolding insert lookup
  lookup-insert key asked value [] = refl
  lookup-insert key asked value (entry ∷ dict) = ground (
    lookup-insert key asked value dict,
    eq_iff entry.0 asked,
    eq_iff entry.0 key,
    eq_iff key asked,
    arith,
  )

  pub lookup-erase :
      (key asked : String) (dict : List (String × V))
      → lookup asked (erase key dict) ≡ (if str_eq key asked then none else lookup asked dict)
  unfolding erase lookup
  lookup-erase key asked [] = ground arith
  lookup-erase key asked (entry ∷ dict) = ground (
    lookup-erase key asked dict,
    eq_iff entry.0 asked,
    eq_iff entry.0 key,
    eq_iff key asked,
    arith,
  )
