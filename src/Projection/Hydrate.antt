-- ===== src/Projection/Hydrate.antt =====
-- `TelemetryStateProjection.hydrate` and `copy` of src/tod-dl.py: the summary is built from the manifest
-- in pages of rows, and copied for a snapshot.
mod Pages
pub mod Ranked
pub mod Earliest
use tod_dl.Projection.Sync.Hydrated.{empty_projection}
use tod_dl.Projection.{Projection, add_rows}
use tod_dl.Status.{Bucket, Status}
use tod_dl.Manifest.{Db, Row, in_run, ranked_rows, queue_rank, revision_of}
use tod_dl.Base.{
  ℕ, zero, suc, ◌+◌, String, Bool, true, false, not, ◌&&◌, ◌||◌, Option, none, some, List, [], ◌∷◌,
  map, str_eq, filter, contains, length, ltb, leb, ◌==◌, if◌then◌else◌, ℤ, str_lt,
}

-- rows LIMIT n
unfoldable pub take : ℕ → List Row → List Row
take zero rows = []
take (suc n) [] = []
take (suc n) (row ∷ rows) = row ∷ take n rows

-- The cursor of the pages: one more than the rank of the last row, so that -1 is 0.
unfoldable pub next_rank : (Row → ℕ) → ℕ → List Row → ℕ
next_rank key cursor [] = cursor
next_rank key cursor (row ∷ rows) = next_rank key (key row + 1) rows

-- SELECT … AND run_items.queue_rank>? ORDER BY run_items.queue_rank LIMIT n
unfoldable pub page : (Row → ℕ) → List Row → ℕ → ℕ → List Row
unfolding take
page key rows limit cursor = take limit (filter (λ row. leb cursor (key row)) rows)

-- while True: the pages until one is empty; None where the fuel is used up
unfoldable pub add_pages :
    (String → String) → (Row → ℕ) → List Row → ℕ → ℕ → ℕ → Projection → Option Projection
unfolding page next_rank
add_pages sha256_hex key rows limit zero cursor p = none
add_pages sha256_hex key rows limit (suc fuel) cursor p =
    let found = page key rows limit cursor in
    let rest =
      add_pages sha256_hex key rows limit fuel (next_rank key cursor found)
        (add_rows sha256_hex found p) in
    elim found [ [] ↦ some p | row ∷ more ↦ rest ]

-- COUNT(DISTINCT …)
unfoldable pub count_distinct : List String → ℕ
count_distinct [] = 0
count_distinct (x ∷ xs) = let rest = count_distinct xs in if contains x xs then rest else rest + 1

-- the later of two texts, where None is none
unfoldable pub later_text : String → Option String → Option String
later_text s none = some s
later_text s (some t) = if str_lt s t then some t else some s

-- MAX(…)
unfoldable pub latest : List String → Option String
unfolding later_text
latest [] = none
latest (s ∷ more) = later_text s (latest more)

is_finished : Status → Bool
is_finished Status.complete = true
is_finished _ = false

is_existing : Status → Bool
is_existing Status.existing_unverified = true
is_existing _ = false

was_complete : Option Status → Bool
unfolding is_finished
was_complete none = false
was_complete (some status) = is_finished status

module _ (run_id : String) (db : Db) where
  -- the items that were there before the run and are not selected
  unfoldable pub count_skipped : ℕ
  unfolding is_existing count_distinct
  count_skipped = count_distinct (
      map (λ t. t.url)
        (filter
          (λ t.
            str_eq t.run_id run_id
            && is_existing t.to_status
            && not (in_run run_id t.url db.run_items))
          db.transitions))

  -- when an item last became complete
  unfoldable pub last_completion : Option String
  unfolding is_finished was_complete latest
  last_completion = latest (
      map (λ t. t.recorded_at)
        (filter
          (λ t.
            str_eq t.run_id run_id && is_finished t.to_status && not (was_complete t.from_status))
          db.transitions))

abbrev pub page_limit : ℕ
page_limit = 1000

-- hydrate, with as much fuel as the run has rows, and one
unfoldable pub hydrate : (String → String) → String → ℕ → Db → Option Projection
unfolding add_pages count_skipped last_completion
hydrate sha256_hex run_id max_attempts db =
    let rows = ranked_rows run_id db in
    elim (add_pages sha256_hex (λ row. queue_rank run_id db row.url) rows page_limit
      (length rows + 1) 0
      (empty_projection (length (filter (λ item. str_eq item.run_id run_id) db.run_items))
        (count_skipped run_id db) (revision_of run_id db) max_attempts)) [
          | none ↦ none
          | some p ↦ some (record p { last_completion_at = last_completion run_id db })
        ]

-- What a snapshot holds of the summary.
pub record Summary : Type 0 where
  pub selected_count : ℕ
  pub skipped_existing : ℕ
  pub counts : Bucket → ℤ
  pub complete_bytes : ℤ
  pub last_completion_at : Option String
  pub revision : ℕ
  pub retry_at : Option ℕ
  pub retry_error : Option String
  pub retry_count : ℕ

-- (deadline, key, error) < (deadline, key, error); no two keys are equal
unfoldable pub is_earlier : String × (ℕ × String) → String × (ℕ × String) → Bool
is_earlier a b = ltb a.1.0 b.1.0 || (a.1.0 == b.1.0) && str_lt a.0 b.0

-- min(…, default=None)
unfoldable pub earliest : List (String × (ℕ × String)) → Option (String × (ℕ × String))
unfolding is_earlier
earliest [] = none
earliest (retry ∷ retries) = elim (earliest retries) [
  | none ↦ some retry
  | some other ↦ if is_earlier other retry then some other else some retry
]

unfoldable pub copy : Projection → Summary
unfolding earliest
copy p =
    let first_retry = earliest p.retries in
    record {
      selected_count = p.selected_count;
      skipped_existing = p.skipped_existing;
      counts = p.counts;
      complete_bytes = p.complete_bytes;
      last_completion_at = p.last_completion_at;
      revision = p.revision;
      retry_at = elim first_retry [ none ↦ none | some retry ↦ some retry.1.0 ];
      retry_error = elim first_retry [ none ↦ none | some retry ↦ some retry.1.1 ];
      retry_count = length p.retries;
    }
