-- ===== src/Base/Order.antt =====
-- The order of texts by code points is total: what a dictionary with sorted keys rests on.
use Prim.Native.Nat.{ℕ, Ordering, compare as compare_ℕ}
use Prim.Native.String.compare
use Prim.Native.Char.{code}
use Prim.Native.String.{String, [], ◌∷◌, then}
use mathlib.Core.Bool.{true, false}
use mathlib.Core.Path.{◌≡◌}
use native.Mathlib.Omega.{arith}
use text.Mathlib.Text.{is_lt, is_eq, ◌==◌ as str_eq}
use tod_dl.Base.Text.{str_lt}

-- What the first characters and the rests say together, for three texts.
then_trans :
    (a b c : ℕ) (o p q : Ordering)
    → (is_lt o ≡ true → is_lt p ≡ true → is_lt q ≡ true)
    → is_lt (then (compare_ℕ a b) o) ≡ true
    → is_lt (then (compare_ℕ b c) p) ≡ true
    → is_lt (then (compare_ℕ a c) q) ≡ true
then_trans a b c o p q step h k = ground arith

then_total :
    (a b : ℕ) (o p : Ordering)
    → (is_lt o ≡ false → is_eq o ≡ false → is_lt p ≡ true)
    → is_lt (then (compare_ℕ a b) o) ≡ false
    → is_eq (then (compare_ℕ a b) o) ≡ false
    → is_lt (then (compare_ℕ b a) p) ≡ true
then_total a b o p step h k = ground arith

then_asymm :
    (a b : ℕ) (o p : Ordering)
    → (is_lt o ≡ true → (is_lt p ≡ false) × (is_eq p ≡ false))
    → is_lt (then (compare_ℕ a b) o) ≡ true
    → (is_lt (then (compare_ℕ b a) p) ≡ false) × (is_eq (then (compare_ℕ b a) p) ≡ false)
then_asymm a b o p step h = (ground arith, ground arith)

pub str_lt_trans : (r s t : String) → str_lt r s ≡ true → str_lt s t ≡ true → str_lt r t ≡ true
unfolding str_lt
str_lt_trans [] [] t h k = k
str_lt_trans [] (d ∷ s) [] h k = ground (arith, compare.cons-nil d s)
str_lt_trans [] s (e ∷ t) h k = ground (arith, compare.nil-cons e t)
str_lt_trans (c ∷ r) [] t h k = ground (arith, compare.cons-nil c r)
str_lt_trans (c ∷ r) (d ∷ s) [] h k = ground (arith, compare.cons-nil d s)
str_lt_trans (c ∷ r) (d ∷ s) (e ∷ t) h k = rw (compare.cons-cons c e r t) (
    then_trans (code c) (code d) (code e) _ _ _ (str_lt_trans r s t)
      (rw (← compare.cons-cons c d r s) h) (rw (← compare.cons-cons d e s t) k))

pub str_lt_total : (s t : String) → str_lt s t ≡ false → str_eq s t ≡ false → str_lt t s ≡ true
unfolding str_lt
str_lt_total [] [] h k = ground (arith, compare.nil-nil)
str_lt_total [] (d ∷ t) h k = ground (arith, compare.nil-cons d t)
str_lt_total (c ∷ s) [] h k = ground (arith, compare.nil-cons c s)
str_lt_total (c ∷ s) (d ∷ t) h k = rw (compare.cons-cons d c t s) (
    then_total (code c) (code d) _ _ (str_lt_total s t) (rw (← compare.cons-cons c d s t) h)
      (rw (← compare.cons-cons c d s t) k))

pub str_lt_asymm : (s t : String) → str_lt s t ≡ true → (str_lt t s ≡ false) × (str_eq t s ≡ false)
unfolding str_lt
str_lt_asymm [] [] h = ground (arith, compare.nil-nil)
str_lt_asymm [] (d ∷ t) h =
    (ground (arith, compare.cons-nil d t), ground (arith, compare.cons-nil d t))
str_lt_asymm (c ∷ s) [] h = ground (arith, compare.cons-nil c s)
str_lt_asymm (c ∷ s) (d ∷ t) h =
    rw (compare.cons-cons d c t s)
      (then_asymm (code c) (code d) _ _ (str_lt_asymm s t) (rw (← compare.cons-cons c d s t) h))
