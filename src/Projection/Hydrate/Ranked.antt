-- ===== src/Projection/Hydrate/Ranked.antt =====
-- `hydrate` returns, and its summary is that of the rows of the run.
use tod_dl.Manifest.Selected.{selected-IsKeyed}
use tod_dl.Projection.Sync.Hydrated.{empty_projection, add_rows-InSync}
use tod_dl.Projection.Sync.{InSync}
use tod_dl.Projection.{Projection, add_rows}
use tod_dl.Projection.Hydrate.{count_skipped, last_completion}
use tod_dl.Json.Dict.{ne_sym}
use tod_dl.Projection.Sync.Apply.{NoCollision}
use tod_dl.Manifest.Rows.{IsKeyed}
use tod_dl.Projection.Hydrate.Pages.{IsIncreasing, from, from_low, add_pages-rest}
use tod_dl.Projection.Hydrate.{hydrate, last_completion}
use tod_dl.Manifest.{
  Row, insert_by, order_by, ranked_rows, find_row, Db, queue_rank, selected_rows, revision_of,
}
use tod_dl.Base.{
  ℕ, ◌+◌, ◌≤◌, String, false, none, some, List, [], ◌∷◌, ◌≡◌, refl, ap, ◌∙◌, inl, inr, arith,
  str_eq, filter, find?, All, length, leb, ◌==◌, Bool-cases, if_elim,
}

All-mono :
    {P Q : Row → Type 0}
    → ((row : Row) → P row → Q row)
    → (rows : List Row) → All P rows
    → All Q rows
All-mono f [] h = tt
All-mono f (row ∷ rows) h = (f row h.0, All-mono f rows h.1)

module _ (key : Row → ℕ) where
  -- No two rows have the same rank.
  abbrev pub HasDistinctRanks : List Row → Type 0
  HasDistinctRanks [] = Unit
  HasDistinctRanks (row ∷ rows) = All (λ r. (key r == key row) ≡ false) rows × HasDistinctRanks rows

  All-insert_by :
      (P : Row → Type 0) (row : Row) (rows : List Row)
      → P row
      → All P rows
      → All P (insert_by key row rows)
  unfolding insert_by
  All-insert_by P row [] h k = (h, tt)
  All-insert_by P row (r ∷ rows) h k =
      if_elim (All P) (leb (key row) (key r)) _ _ (λ _. (h, k))
        (λ _. (k.0, All-insert_by P row rows h k.1))

  All-order_by : (P : Row → Type 0) (rows : List Row) → All P rows → All P (order_by key rows)
  unfolding order_by
  All-order_by P [] h = tt
  All-order_by P (row ∷ rows) h =
      All-insert_by P row (order_by key rows) h.0 (All-order_by P rows h.1)

  insert_by-IsIncreasing :
      (row : Row) (rows : List Row)
      → All (λ r. (key r == key row) ≡ false) rows
      → IsIncreasing key rows
      → IsIncreasing key (insert_by key row rows)
  unfolding insert_by
  insert_by-IsIncreasing row [] h k = (tt, tt)
  insert_by-IsIncreasing row (r ∷ rows) h k =
      if_elim (IsIncreasing key) (leb (key row) (key r)) _ _
        (λ e.
          let less : key row + 1 ≤ key r = ground (arith, h.0, e) in
          ((less, All-mono (λ s m. omega (arith, m, less)) rows k.0), k))
        (λ e.
          let less : key r + 1 ≤ key row = ground (arith, h.0, e) in
          (
            All-insert_by (λ s. key r + 1 ≤ key s) row rows less k.0,
            insert_by-IsIncreasing row rows h.1 k.1,
          ))

  order_by-IsIncreasing :
      (rows : List Row) → HasDistinctRanks rows → IsIncreasing key (order_by key rows)
  unfolding order_by
  order_by-IsIncreasing [] h = tt
  order_by-IsIncreasing (row ∷ rows) h =
      insert_by-IsIncreasing row (order_by key rows)
        (All-order_by (λ r. (key r == key row) ≡ false) rows h.0) (order_by-IsIncreasing rows h.1)

  find_row-insert_by :
      (url : String) (row : Row) (rows : List Row)
      → str_eq row.url url ≡ false
      → find_row url rows ≡ none
      → find_row url (insert_by key row rows) ≡ none
  unfolding insert_by find_row find?
  find_row-insert_by url row [] h k = rw h refl
  find_row-insert_by url row (r ∷ rows) h k = ground (arith, find_row-insert_by url row rows h)

  find_row-order_by :
      (url : String) (rows : List Row)
      → find_row url rows ≡ none
      → find_row url (order_by key rows) ≡ none
  unfolding order_by find_row find?
  find_row-order_by url [] h = refl
  find_row-order_by url (row ∷ rows) h = elim (Bool-cases (str_eq row.url url)) [
    | inl e ↦ cc (e, h)
    | inr e ↦
        find_row-insert_by url row (order_by key rows) e (find_row-order_by url rows (rw e at h))
  ]

  insert_by-IsKeyed :
      (row : Row) (rows : List Row)
      → find_row row.url rows ≡ none
      → IsKeyed rows
      → IsKeyed (insert_by key row rows)
  unfolding insert_by find_row find?
  insert_by-IsKeyed row [] h k = (refl, tt)
  insert_by-IsKeyed row (r ∷ rows) h k = elim (Bool-cases (str_eq r.url row.url)) [
    | inl e ↦ cc (e, h)
    | inr e ↦
        if_elim IsKeyed (leb (key row) (key r)) _ _ (λ _. (h, k))
          (λ _. (
            find_row-insert_by r.url row rows (ne_sym r.url row.url e) k.0,
            insert_by-IsKeyed row rows (rw e at h) k.1,
          ))
  ]

  order_by-IsKeyed : (rows : List Row) → IsKeyed rows → IsKeyed (order_by key rows)
  unfolding order_by
  order_by-IsKeyed [] h = tt
  order_by-IsKeyed (row ∷ rows) h =
      insert_by-IsKeyed row (order_by key rows) (find_row-order_by row.url rows h.0)
        (order_by-IsKeyed rows h.1)

zero_below : (key : Row → ℕ) (rows : List Row) → All (λ r. 0 ≤ key r) rows
zero_below key [] = tt
zero_below key (row ∷ rows) = (omega arith, zero_below key rows)

-- `hydrate` returns, whatever the number of its pages, and gives exactly the counts, the byte total and
-- the waiting retries of the run's rows at the revision of the manifest, if no two urls share a row or
-- a hash and no two rows of the run have the same rank.
pub hydrate-InSync :
    (sha256_hex : String → String) (no_collision : NoCollision sha256_hex) (run_id : String)
    (max_attempts : ℕ) (db : Db)
    → IsKeyed db.downloads
    → HasDistinctRanks (λ row. queue_rank run_id db row.url) (selected_rows run_id db)
    → (p : Projection) × (hydrate sha256_hex run_id max_attempts db ≡ some p)
      × InSync sha256_hex p (ranked_rows run_id db)
      × (p.revision ≡ revision_of run_id db)
unfolding hydrate ranked_rows
hydrate-InSync sha256_hex no_collision run_id max_attempts db keyed ranks =
    let key = λ (row : Row). queue_rank run_id db row.url in
    let rows = order_by key (selected_rows run_id db) in
    let empty =
      empty_projection (length (filter (λ item. str_eq item.run_id run_id) db.run_items))
        (count_skipped run_id db) (revision_of run_id db) max_attempts in
    let all_rows : from key 0 rows ≡ rows = from_low key 0 rows (zero_below key rows) in
    let pages =
      add_pages-rest key sha256_hex 999 (length rows + 1) 0 rows empty
        (order_by-IsIncreasing key (selected_rows run_id db) ranks)
        (omega (arith, ap length all_rows))
      ∙ ap (λ rs. some (add_rows sha256_hex rs empty)) all_rows in
    let (synced, revised) =
      add_rows-InSync sha256_hex no_collision
        (length (filter (λ item. str_eq item.run_id run_id) db.run_items)) (count_skipped run_id db)
        (revision_of run_id db) max_attempts rows
        (order_by-IsKeyed key (selected_rows run_id db) (selected-IsKeyed run_id db keyed)) in
    (
      record (add_rows sha256_hex rows empty) { last_completion_at = last_completion run_id db },
      cc (pages),
      record { counted = synced.counted; totalled = synced.totalled; waiting = synced.waiting },
      revised,
    )
