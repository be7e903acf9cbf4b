-- ===== src/Scheduler/Choice.antt =====
-- Which item is chosen, and how long the controller waits when none is.
use tod_dl.Scheduler.{retry_wait, first_retry, next_pending, is_due, is_candidate}
use tod_dl.Manifest.{Db, insert_by, order_by, Row, ranked_rows, selected_rows, queue_rank}
use mathlib.Core.List.{[], ◌∷◌}
use mathlib.Core.Option.{none, some, Option}
use mathlib.Core.Option.{some-injective}
use tod_dl.Base.{
  refl, is_some, ℕ, String, Bool, any, List, filter, find?, ◌≡◌, false, ◌||◌, arith, ◌∙◌, ap, leb,
  ◌&&◌, ◌==◌, sym, if_elim, ltb, true, ◌≤◌, Bool-cases, ◌-◌, inl, inr,
}

any-insert_by :
    (p : Row → Bool) (key : Row → ℕ) (row : Row) (rows : List Row)
    → any p (insert_by key row rows) ≡ (p row || any p rows)
unfolding any insert_by
any-insert_by p key row [] = refl
any-insert_by p key row (r ∷ rows) = ground (arith, any-insert_by p key row rows)

pub any-order_by :
    (p : Row → Bool) (key : Row → ℕ) (rows : List Row) → any p (order_by key rows) ≡ any p rows
unfolding any order_by
any-order_by p key [] = refl
any-order_by p key (row ∷ rows) =
    any-insert_by p key row (order_by key rows) ∙ ap (λ b. p row || b) (any-order_by p key rows)

pub found-any : (p : Row → Bool) (rows : List Row) → is_some (find? p rows) ≡ any p rows
unfolding any find?
found-any p [] = refl
found-any p (row ∷ rows) = ground (arith, found-any p rows)

abbrev is_within : ℕ → Option ℕ → Bool
is_within time none = false
is_within time (some at) = leb at time

-- a wait of no time
abbrev pub is_zero : Option ℕ → Bool
is_zero none = false
is_zero (some seconds) = seconds == 0

waits :
    (time : ℕ) (o : Option ℕ)
    → is_zero (elim o [ none ↦ none | some at ↦ some (at - time) ]) ≡ is_within time o
waits time none = refl
waits time (some at) = ground arith

-- The first retry time of the candidates is not later than now exactly when one of them is due.
first_retry-due :
    (candidate : Row → Bool) (time : ℕ) (rows : List Row)
    → is_within time (first_retry (filter candidate rows))
      ≡ any (λ row. candidate row && leb row.next_retry_at time) rows
unfolding any filter first_retry
first_retry-due candidate time [] = refl
first_retry-due candidate time (row ∷ rows) = ground (arith, first_retry-due candidate time rows)

-- No earlier key stands behind a row.
IsSorted : (Row → ℕ) → List Row → Type 0
IsSorted key [] = Unit
IsSorted key (row ∷ rows) = (any (λ o. ltb (key o) (key row)) rows ≡ false) × IsSorted key rows

any-smaller :
    (key : Row → ℕ) (a b : ℕ) (rows : List Row)
    → a ≤ b
    → any (λ o. ltb (key o) b) rows ≡ false
    → any (λ o. ltb (key o) a) rows ≡ false
unfolding any
any-smaller key a b [] h e = refl
any-smaller key a b (row ∷ rows) h e = ground (arith, any-smaller key a b rows)

insert_by-IsSorted :
    (key : Row → ℕ) (row : Row) (rows : List Row)
    → IsSorted key rows
    → IsSorted key (insert_by key row rows)
unfolding insert_by any IsSorted
insert_by-IsSorted key row [] h = (refl, tt)
insert_by-IsSorted key row (r ∷ rows) h =
    if_elim (IsSorted key) (leb (key row) (key r)) _ _
      (λ e. (ground (arith, h.0, any-smaller key (key row) (key r) rows), h))
      (λ e. (
        any-insert_by (λ o. ltb (key o) (key r)) key row rows ∙ ground (arith, h.0),
        insert_by-IsSorted key row rows h.1,
      ))

order_by-IsSorted : (key : Row → ℕ) (rows : List Row) → IsSorted key (order_by key rows)
unfolding order_by IsSorted
order_by-IsSorted key [] = tt
order_by-IsSorted key (row ∷ rows) =
    insert_by-IsSorted key row (order_by key rows) (order_by-IsSorted key rows)

any-both :
    (p q : Row → Bool) (rows : List Row) → any q rows ≡ false → any (λ o. p o && q o) rows ≡ false
unfolding any
any-both p q [] h = refl
any-both p q (row ∷ rows) h = ground (arith, any-both p q rows)

-- The first row of sorted rows that passes has the least key of those that pass.
found-least :
    (p : Row → Bool) (key : Row → ℕ) (r : Row) (rows : List Row)
    → IsSorted key rows
    → find? p rows ≡ some r
    → (p r ≡ true) × (any (λ o. p o && ltb (key o) (key r)) rows ≡ false)
unfolding any find? IsSorted
found-least p key r [] h e = cc
found-least p key r (row ∷ rows) h e = elim (Bool-cases (p row)) [
  | inl passes ↦
      let same : row ≡ r = some-injective row r (sym (ground (arith, passes)) ∙ e) in
      simp (sym same)
        (passes, (ground (arith, passes, any-both p (λ o. ltb (key o) (key row)) rows h.0)))
  | inr fails ↦
      let found = found-least p key r rows h.1 (ground (arith, e, fails)) in
      (found.0, ground (arith, fails, found.1))
]

module _ (origin : String → String) (run_id : String) (max_attempts time : ℕ) (db : Db) where
  -- The controller waits no time exactly when an item can be chosen now.
  pub retry_wait-pending :
      is_zero (retry_wait origin run_id max_attempts time db)
      ≡ is_some (next_pending origin run_id max_attempts time db)
  unfolding retry_wait next_pending is_due ranked_rows
  retry_wait-pending =
      let candidate = is_candidate origin run_id max_attempts db in
      let rows = selected_rows run_id db in
      waits time (first_retry (filter candidate rows))
      ∙ first_retry-due candidate time rows
      ∙ sym (
          found-any (is_due origin run_id max_attempts time db) (ranked_rows run_id db)
          ∙ any-order_by (is_due origin run_id max_attempts time db) _ rows)

  pub next_pending-IsFirst :
      (row : Row)
      → next_pending origin run_id max_attempts time db ≡ some row
      → (is_due origin run_id max_attempts time db row ≡ true)
        × (any
              (λ other.
                is_due origin run_id max_attempts time db other
                && ltb (queue_rank run_id db other.url) (queue_rank run_id db row.url))
              (selected_rows run_id db)
            ≡ false)
  unfolding next_pending ranked_rows
  next_pending-IsFirst row e =
      let key = λ (r : Row). queue_rank run_id db r.url in
      let rows = selected_rows run_id db in
      let least =
        found-least (is_due origin run_id max_attempts time db) key row (order_by key rows)
          (order_by-IsSorted key rows) e in
      (least.0, sym (any-order_by _ key rows) ∙ least.1)
