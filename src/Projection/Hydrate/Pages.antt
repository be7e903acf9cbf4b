-- ===== src/Projection/Hydrate/Pages.antt =====
-- The pages of `hydrate` hold each row of the run once, and the loop ends.
use tod_dl.Projection.{add_rows, Projection, add_row}
use tod_dl.Projection.Hydrate.{take, next_rank, add_pages, page}
use tod_dl.Manifest.{Row}
use tod_dl.Base.{
  ℕ, zero, suc, ◌+◌, ◌≤◌, String, some, List, [], ◌∷◌, ◌++◌, ◌≡◌, refl, sym, ap, ◌∙◌, ◌⊎◌, inl, inr,
  arith, filter, All, length, leb, leb→le, le→leb, if_elim,
}

unfoldable drop : ℕ → List Row → List Row
drop zero rows = rows
drop (suc n) [] = []
drop (suc n) (row ∷ rows) = drop n rows

take-drop : (n : ℕ) (rows : List Row) → take n rows ++ drop n rows ≡ rows
unfolding take drop
take-drop zero rows = refl
take-drop (suc n) [] = refl
take-drop (suc n) (row ∷ rows) = ap (λ rs. row ∷ rs) (take-drop n rows)

-- Taking off at least one row leaves fewer.
drop-less : (n : ℕ) (row : Row) (rows : List Row) → length (drop (suc n) (row ∷ rows)) ≤ length rows
unfolding drop
drop-less zero row rows = omega arith
drop-less (suc n) row [] = omega arith
drop-less (suc n) row (r ∷ rows) = omega (arith, drop-less n r rows)

Rows-cases :
    (rows : List Row) → (rows ≡ []) ⊎ ((row : Row) × (more : List Row) × (rows ≡ row ∷ more))
Rows-cases [] = inl refl
Rows-cases (row ∷ rows) = inr (row, rows, refl)

add_rows-append :
    (sha256_hex : String → String) (rows more : List Row) (p : Projection)
    → add_rows sha256_hex (rows ++ more) p ≡ add_rows sha256_hex more (add_rows sha256_hex rows p)
unfolding add_rows
add_rows-append sha256_hex [] more p = refl
add_rows-append sha256_hex (row ∷ rows) more p =
    add_rows-append sha256_hex rows more (add_row sha256_hex row p)

module _ (key : Row → ℕ) where
  -- Every rank is greater than that of the rows before it.
  abbrev pub IsIncreasing : List Row → Type 0
  IsIncreasing [] = Unit
  IsIncreasing (row ∷ rows) = All (λ r. key row + 1 ≤ key r) rows × IsIncreasing rows

  -- The rows from a rank on.
  pub from : ℕ → List Row → List Row
  from cursor = filter (λ row. leb cursor (key row))

  pub from_low :
      (cursor : ℕ) (rows : List Row) → All (λ r. cursor ≤ key r) rows → from cursor rows ≡ rows
  unfolding from filter
  from_low cursor [] h = refl
  from_low cursor (row ∷ rows) h = rw (le→leb cursor (key row) h.0, from_low cursor rows h.1) refl

  from-later :
      (cursor : ℕ) (row : Row) (rows : List Row)
      → key row + 1 ≤ cursor
      → from cursor (row ∷ rows) ≡ from cursor rows
  unfolding from filter
  from-later cursor row rows h = ground arith

  from-from :
      (low high : ℕ) (rows : List Row) → low ≤ high → from high (from low rows) ≡ from high rows
  unfolding from filter
  from-from low high [] h = refl
  from-from low high (row ∷ rows) h = ground (arith, from-from low high rows h)

  from-All : (cursor : ℕ) (rows : List Row) → All (λ r. cursor ≤ key r) (from cursor rows)
  unfolding from filter
  from-All cursor [] = tt
  from-All cursor (row ∷ rows) =
      if_elim (λ rs. All (λ r. cursor ≤ key r) rs) (leb cursor (key row)) _ _
        (λ h. (leb→le cursor (key row) h, from-All cursor rows)) (λ _. from-All cursor rows)

  All-from :
      (P : Row → Type 0) (cursor : ℕ) (rows : List Row) → All P rows → All P (from cursor rows)
  unfolding from filter
  All-from P cursor [] h = tt
  All-from P cursor (row ∷ rows) h =
      if_elim (All P) (leb cursor (key row)) _ _ (λ _. (h.0, All-from P cursor rows h.1))
        (λ _. All-from P cursor rows h.1)

  from-IsIncreasing :
      (cursor : ℕ) (rows : List Row) → IsIncreasing rows → IsIncreasing (from cursor rows)
  unfolding from filter
  from-IsIncreasing cursor [] h = tt
  from-IsIncreasing cursor (row ∷ rows) h =
      if_elim IsIncreasing (leb cursor (key row)) _ _
        (λ _.
          (All-from (λ r. key row + 1 ≤ key r) cursor rows h.0, from-IsIncreasing cursor rows h.1))
        (λ _. from-IsIncreasing cursor rows h.1)

  next_rank-grows :
      (n cursor : ℕ) (rows : List Row)
      → All (λ r. cursor ≤ key r) rows
      → IsIncreasing rows
      → cursor ≤ next_rank key cursor (take n rows)
  unfolding next_rank take
  next_rank-grows zero cursor rows h k = omega arith
  next_rank-grows (suc n) cursor [] h k = omega arith
  next_rank-grows (suc n) cursor (row ∷ rows) h k =
      omega (arith, h.0, next_rank-grows n (key row + 1) rows k.0 k.1)

  -- The rows after a page are those of a greater rank than its last.
  from-next :
      (n cursor : ℕ) (rows : List Row)
      → All (λ r. cursor ≤ key r) rows
      → IsIncreasing rows
      → from (next_rank key cursor (take n rows)) rows ≡ drop n rows
  unfolding next_rank take drop from filter
  from-next zero cursor rows h k = from_low cursor rows h
  from-next (suc n) cursor [] h k = refl
  from-next (suc n) cursor (row ∷ rows) h k =
      from-later (next_rank key (key row + 1) (take n rows)) row rows
        (next_rank-grows n (key row + 1) rows k.0 k.1)
      ∙ from-next n (key row + 1) rows k.0 k.1

  module _ (sha256_hex : String → String) (limit : ℕ) where
    -- Enough fuel adds every row from the cursor on, once.
    pub add_pages-rest :
        (fuel cursor : ℕ) (rows : List Row) (p : Projection)
        → IsIncreasing rows
        → length (from cursor rows) + 1 ≤ fuel
        → add_pages sha256_hex key rows (suc limit) fuel cursor p
          ≡ some (add_rows sha256_hex (from cursor rows) p)
    unfolding add_pages add_rows page from take
    add_pages-rest zero cursor rows p k h = absurd (omega arith)
    add_pages-rest (suc fuel) cursor rows p k h =
        let xs = from cursor rows in
        let found = take (suc limit) xs in
        let above = from-All cursor rows in
        let ranked = from-IsIncreasing cursor rows k in
        let next = next_rank key cursor found in
        let left : from next rows ≡ drop (suc limit) xs =
          sym (from-from cursor next rows (next_rank-grows (suc limit) cursor xs above ranked))
          ∙ from-next (suc limit) cursor xs above ranked in
        elim (Rows-cases xs) [
          | inl e ↦ cc (e)
          | inr (row, more, e) ↦
              let fewer : length (from next rows) + 1 ≤ fuel = omega (
                arith,
                ap length left,
                ap (λ rs. length (drop (suc limit) rs)) e,
                ap length e,
                drop-less limit row more,
                h,
              ) in
              let later =
                add_pages-rest fuel next rows (add_rows sha256_hex found p) k fewer
                ∙ ap some (
                    ap (λ rs. add_rows sha256_hex rs (add_rows sha256_hex found p)) left
                    ∙ sym (add_rows-append sha256_hex found (drop (suc limit) xs) p)
                    ∙ ap (λ rs. add_rows sha256_hex rs p) (take-drop (suc limit) xs)) in
              cc (ap (take (suc limit)) e, later)
        ]
