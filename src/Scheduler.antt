-- ===== src/Scheduler.antt =====
-- The choice of the next item: `access_denied_scope_clause`, `next_pending`, `next_recheck`,
-- `claim_recheck`, `retry_wait`, `reset_retry_now`, `requeue_interrupted_transfers` and
-- `record_source_generation` (src/tod-dl.py).
pub mod Choice
pub mod Rechecks
use tod_dl.Control.Items.{has_code}
use tod_dl.Manifest.{Clock, Db, ranked_rows, selected_rows, update_where, Row, in_run}
use tod_dl.Status.{Status, is_retryable, is_review, is_unavailable, is_interrupted}
use Prim.Native.Char.{code}
use tod_dl.Base.{
  ℕ, String, Bool, List, Option, if◌then◌else◌, is_truthy, any, false, filter, leb, some, str_eq,
  true, find?, none, ◌&&◌, ◌==◌, ltb, map, not, ◌+◌, ◌-◌, ◌||◌, ◌∷◌, [], min,
}

-- LIKE compares the letters of ASCII without their case.
unfoldable pub fold_ascii : ℕ → ℕ
fold_ascii c = if leb 65 c && leb c 90 then c + 32 else c

-- url LIKE prefix || '%', with the prefix escaped
unfoldable pub like_prefix : String → String → Bool
unfolding fold_ascii
like_prefix String.[] url = true
like_prefix (String.◌∷◌ c prefix) String.[] = false
like_prefix (String.◌∷◌ c prefix) (String.◌∷◌ d url) =
    let rest = like_prefix prefix url in fold_ascii (code c) == fold_ascii (code d) && rest

-- MIN(next_retry_at)
unfoldable pub first_retry : List Row → Option ℕ
first_retry [] = none
first_retry (row ∷ rows) = elim (first_retry rows) [
  | none ↦ some row.next_retry_at
  | some at ↦ some (min row.next_retry_at at)
]

-- `origin` is f"{parts.scheme}://{parts.netloc}/" of urlsplit(url).
module _ (origin : String → String) (run_id : String) where
  unfoldable pub is_denied : Row → Bool
  unfolding is_review has_code
  is_denied row = is_review row.status && has_code ("access_denied" ∷ []) row.review_code

  -- NOT LIKE for every prefix of an origin with a denied item
  unfoldable pub is_paused : Db → String → Bool
  unfolding selected_rows like_prefix is_denied
  is_paused db url =
      any (λ row. like_prefix (origin row.url) url) (filter is_denied (selected_rows run_id db))

  -- `max_attempts` 0 means no limit
  unfoldable pub is_candidate : ℕ → Db → Row → Bool
  unfolding is_paused is_retryable
  is_candidate max_attempts db row =
      is_retryable row.status
      && (max_attempts == 0 || ltb row.attempts max_attempts)
      && not (is_paused db row.url)

  unfoldable pub is_due : ℕ → ℕ → Db → Row → Bool
  unfolding is_candidate
  is_due max_attempts time db row = is_candidate max_attempts db row && leb row.next_retry_at time

  unfoldable pub next_pending : ℕ → ℕ → Db → Option Row
  unfolding is_due ranked_rows
  next_pending max_attempts time db = find? (is_due max_attempts time db) (ranked_rows run_id db)

  -- the seconds until an item is due: max(0, at - time.time())
  unfoldable pub retry_wait : ℕ → ℕ → Db → Option ℕ
  unfolding is_candidate first_retry
  retry_wait max_attempts time db =
      elim (first_retry (filter (is_candidate max_attempts db) (selected_rows run_id db))) [
        | none ↦ none
        | some at ↦ some (at - time)
      ]

-- COALESCE(recheck_at, 0)
unfoldable pub coalesce : Option ℕ → ℕ
coalesce none = 0
coalesce (some n) = n

abbrev pub recheck_interval : ℕ
recheck_interval = 86400

unfoldable pub is_recheck_due : ℕ → Row → Bool
unfolding coalesce is_unavailable
is_recheck_due time row =
    is_unavailable row.status && (leb (coalesce row.recheck_at) time || row.early_recheck == 1)

unfoldable pub next_recheck : String → ℕ → Db → Option Row
unfolding is_recheck_due ranked_rows
next_recheck run_id time db = find? (is_recheck_due time) (ranked_rows run_id db)

unfoldable pub claim : Clock → Row → Row
unfolding coalesce
claim clock row = record row {
  early_recheck =
      if row.early_recheck == 1 && ltb clock.time (coalesce row.recheck_at) then 2 else 0;
  recheck_at = some (clock.time + recheck_interval);
  updated_at = clock.stamp;
}

unfoldable pub claim_recheck : Clock → String → Db → Db
unfolding claim update_where
claim_recheck clock url db = record db {
  downloads = update_where (λ row. str_eq row.url url) (claim clock) db.downloads;
}

-- UPDATE … WHERE status IN … AND url IN (SELECT url FROM run_items WHERE run_id=?)
unfoldable pub reset_retry_now : String → Db → Db
unfolding update_where in_run is_retryable
reset_retry_now run_id db = record db {
  downloads =
      update_where (λ row. is_retryable row.status && in_run run_id row.url db.run_items)
        (λ row. record row { next_retry_at = 0 }) db.downloads;
}

unfoldable pub set_interrupted : Clock → Row → Row
set_interrupted clock row = record row {
  status = Status.queued;
  next_retry_at = 0;
  updated_at = clock.stamp;
}

-- The urls whose surviving writers are stopped first, and the database afterwards.
unfoldable pub requeue_interrupted_transfers : Clock → String → Db → List String × Db
unfolding update_where in_run is_interrupted selected_rows set_interrupted
requeue_interrupted_transfers clock run_id db = (
  map (λ row. row.url) (filter (λ row. is_interrupted row.status) (selected_rows run_id db)),
  record db {
    downloads =
        update_where (λ row. is_interrupted row.status && in_run run_id row.url db.run_items)
          (set_interrupted clock) db.downloads;
  },
)

-- both values are known and differ
unfoldable pub differ : Option String → Option String → Bool
unfolding is_truthy
differ none new = false
differ (some stored) none = false
differ (some stored) (some new) =
    is_truthy (some stored) && is_truthy (some new) && not (str_eq stored new)

unfoldable pub note_generation : ℕ → Option String → Row → Row
unfolding differ coalesce is_unavailable
note_generation time new_generation row = record row {
  early_recheck =
      if is_unavailable row.status
        && not (row.early_recheck == 1)
        && differ row.source_generation new_generation
        && ltb time (coalesce row.recheck_at)
      then 1
      else row.early_recheck;
  source_generation = new_generation;
}

-- The url has a row: `import_queues` has just put it there.
unfoldable pub record_source_generation : ℕ → String → Option String → Db → Db
unfolding note_generation update_where
record_source_generation time url new_generation db = record db {
  downloads =
      update_where (λ row. str_eq row.url url) (note_generation time new_generation) db.downloads;
}
