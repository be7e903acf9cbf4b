-- ===== src/Worker/Slots.antt =====
-- The number of the worker that a transfer gets (`reserve_worker_id`, src/tod-dl.py).
use native.Mathlib.Decide.{dec_lt}
use tod_dl.Controller.{Error}
use mathlib.Core.Option.{some-injective}
use mathlib.Core.Path.{subst}
use tod_dl.Worker.{returned, raised, World}
use tod_dl.Worker.{returned, System}
use tod_dl.Worker.Events.{first_free, reserve_worker_id}
use tod_dl.Base.{
  ℕ, zero, suc, ◌+◌, ◌≤◌, ◌<◌, String, Bool, true, false, none, some, List, ◌≡◌, refl, sym, ◌∙◌,
  inl, inr, arith, any, ◌==◌, Bool-cases, Option-cases,
}

-- Whether a transfer has the number.
abbrev pub is_taken : List (String × ℕ) → ℕ → Bool
is_taken used k = any (λ entry. entry.1 == k) used

-- The number is one of the `left` numbers from `from` on, no transfer has it, and every smaller one
-- is taken.
abbrev pub IsFirstFree : ℕ → ℕ → List (String × ℕ) → ℕ → Type 0
IsFirstFree left from used id =
    (from ≤ id)
    × (id < from + left)
    × (is_taken used id ≡ false)
    × ((k : ℕ) → from ≤ k → k < id → is_taken used k ≡ true)

-- All numbers below a bound are taken, if the first is and the others are.
extend :
    (from bound : ℕ) (used : List (String × ℕ))
    → is_taken used from ≡ true
    → ((k : ℕ) → from + 1 ≤ k → k < bound → is_taken used k ≡ true)
    → (k : ℕ) → from ≤ k
    → k < bound
    → is_taken used k ≡ true
extend from bound used e rest k low high = elim (dec_lt from k) [
  | yes h ↦ rest k (omega arith) high
  | no h ↦ subst (λ (n : ℕ). is_taken used n ≡ true) (omega arith) e
]

module _ (sys : System) where
  first_free-taken :
      (left from : ℕ) (used : List (String × ℕ))
      → is_taken used from ≡ true
      → first_free sys (suc left) from used ≡ first_free sys left (from + 1) used
  unfolding first_free
  first_free-taken left from used e = rw (first_free, e) refl

  first_free-open :
      (left from : ℕ) (used : List (String × ℕ))
      → is_taken used from ≡ false
      → first_free sys (suc left) from used ≡ some from
  unfolding first_free
  first_free-open left from used e = rw (first_free, e) refl

  first_free-IsFirstFree :
      (left from : ℕ) (used : List (String × ℕ)) (id : ℕ)
      → first_free sys left from used ≡ some id
      → IsFirstFree left from used id
  unfolding first_free
  first_free-IsFirstFree zero from used id h = cc
  first_free-IsFirstFree (suc left) from used id h = elim (Bool-cases (is_taken used from)) [
    | inl e ↦
        let ih =
          first_free-IsFirstFree left (from + 1) used id
            (sym (first_free-taken left from used e) ∙ h) in
        (omega (arith, ih.0), omega (arith, ih.1), ih.2, extend from id used e ih.3)
    | inr e ↦
        let same = some-injective from id (sym (first_free-open left from used e) ∙ h) in
        (
          omega (arith, same),
          omega (arith, same),
          subst (λ (n : ℕ). is_taken used n ≡ false) same e,
          λ k low high. ground (arith, same),
        )
  ]

  first_free-full :
      (left from : ℕ) (used : List (String × ℕ))
      → first_free sys left from used ≡ none
      → (k : ℕ) → from ≤ k
      → k < from + left
      → is_taken used k ≡ true
  unfolding first_free
  first_free-full zero from used h k low high = ground arith
  first_free-full (suc left) from used h k low high = elim (Bool-cases (is_taken used from)) [
    | inl e ↦
        extend from (from + suc left) used e
          (λ j l g.
            first_free-full left (from + 1) used (sym (first_free-taken left from used e) ∙ h) j l
              (omega arith))
          k low high
    | inr e ↦ cc (first_free-open left from used e)
  ]

  -- The number that a transfer gets is one of 1 to the number of workers, no other transfer has it,
  -- and every smaller number is taken. The method raises only where all the numbers are taken.
  pub reserve_worker_id-IsFirstFree :
      (w : World)
      → ((id : ℕ)
          → (reserve_worker_id sys w).0 ≡ returned id
          → IsFirstFree sys.workers 1 w.worker_ids id)
        × ((error : Error)
            → (reserve_worker_id sys w).0 ≡ raised error
            → (k : ℕ) → 1 ≤ k
            → k ≤ sys.workers
            → is_taken w.worker_ids k ≡ true)
  unfolding reserve_worker_id
  reserve_worker_id-IsFirstFree w =
      elim (Option-cases (first_free sys sys.workers 1 w.worker_ids)) [
        | inl e ↦
            rw (reserve_worker_id, e)
              (
                λ id h. cc,
                λ error h k low high.
                    first_free-full sys.workers 1 w.worker_ids e k low (omega arith),
              )
        | inr (n, e) ↦
            rw (reserve_worker_id, e)
              (
                λ id h. first_free-IsFirstFree sys.workers 1 w.worker_ids id (e ∙ cc),
                λ error h k low high. cc,
              )
      ]
