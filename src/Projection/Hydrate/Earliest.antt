-- ===== src/Projection/Hydrate/Earliest.antt =====
-- The retry that a snapshot names.
use tod_dl.Projection.{Projection}
use tod_dl.Projection.Hydrate.{copy, earliest, is_earlier}
use tod_dl.Base.{
  ℕ, ◌≤◌, String, true, false, none, some, List, [], ◌∷◌, ◌++◌, ◌≡◌, refl, ap, ◌⊎◌, inl, inr, arith,
  All, Bool-cases,
}

abbrev Retry : Type 0
Retry = String × (ℕ × String)

All-later :
    (low high : ℕ) (retries : List Retry)
    → low ≤ high
    → All (λ r. high ≤ r.1.0) retries
    → All (λ r. low ≤ r.1.0) retries
All-later low high [] h k = tt
All-later low high (r ∷ retries) h k = (omega (arith, h, k.0), All-later low high retries h k.1)

before_le : (a b : Retry) → is_earlier a b ≡ true → a.1.0 ≤ b.1.0
unfolding is_earlier
before_le a b h = ground arith

not_before_le : (a b : Retry) → is_earlier a b ≡ false → b.1.0 ≤ a.1.0
unfolding is_earlier
not_before_le a b h = ground arith

-- The retry that `min` gives stands among them, and none has an earlier deadline.
abbrev pub IsFirst : List Retry → Retry → Type 0
IsFirst retries r =
    (before : List Retry) × (after : List Retry) × (retries ≡ before ++ r ∷ after)
    × All (λ other. r.1.0 ≤ other.1.0) retries

earliest-IsFirst :
    (retries : List Retry)
    → ((retries ≡ []) × (earliest retries ≡ none))
      ⊎ ((r : Retry) × (earliest retries ≡ some r) × IsFirst retries r)
unfolding earliest
earliest-IsFirst [] = inl (refl, refl)
earliest-IsFirst (x ∷ xs) = elim (earliest-IsFirst xs) [
  | inl (e, n) ↦ inr (x, rw e refl, ([], xs, refl, (omega arith, rw e tt)))
  | inr (r, e, (before, after, split, first)) ↦ elim (Bool-cases (is_earlier r x)) [
    | inl h ↦
        inr (r, cc (e, h), (x ∷ before, after, ap (λ rs. x ∷ rs) split, (before_le r x h, first)))
    | inr h ↦ inr (
      x,
      cc (e, h),
      ([], xs, refl, (omega arith, All-later x.1.0 r.1.0 xs (not_before_le r x h) first)),
    )
  ]
]

-- A snapshot names the deadline and the message of a waiting retry, and no retry has an earlier
-- deadline; it names none exactly where no item waits.
pub copy-IsFirst :
    (p : Projection)
    → ((p.retries ≡ []) × ((copy p).retry_at ≡ none) × ((copy p).retry_error ≡ none))
      ⊎ ((r : Retry) × ((copy p).retry_at ≡ some r.1.0)
          × ((copy p).retry_error ≡ some r.1.1)
          × IsFirst p.retries r)
unfolding copy
copy-IsFirst p = elim (earliest-IsFirst p.retries) [
  | inl (e, n) ↦ inl (e, cc (n), cc (n))
  | inr (r, e, first) ↦ inr (r, cc (e), cc (e), first)
]
