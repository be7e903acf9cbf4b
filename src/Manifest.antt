-- ===== src/Manifest.antt =====
-- The SQLite manifest as a value: the tables of SCHEMA and RUN_SCHEMA in src/tod-dl.py, and the
-- statements that more than one method of `Downloader` executes.
pub mod Rows
pub mod Selected
use tod_dl.Base.{
  ℕ, ◌+◌, String, Bool, ◌&&◌, Option, none, some, List, [], ◌∷◌, ◌++◌, ℤ, str_eq, filter, find?,
  any, contains, lookup, insert, leb, if◌then◌else◌,
}
use tod_dl.Status.{Status}

-- One row of `downloads`. REAL times are whole seconds; NULL is `none`.
pub record Row : Type 0 where
  pub url : String
  pub relative_path : String
  pub storage_path : Option String
  pub staging_path : Option String
  pub inventory_size : Option String
  pub expected_sha256 : Option String
  pub status : Status
  pub attempts : ℕ
  pub bytes : Option ℕ
  pub sha256 : Option String
  pub last_error : Option String
  pub next_retry_at : ℕ
  pub promotion_target : Option String
  pub promotion_intent_at : Option String
  pub cleanup_completed_at : Option String
  pub review_code : Option String
  pub remediation_reason : Option String
  pub remediation_mapping_version : Option String
  pub remediation_outcome : Option String
  pub remediation_started_at : Option String
  pub remediation_completed_at : Option String
  pub priority : ℤ
  pub etag : Option String
  pub last_modified : Option String
  pub staging_generation : Option ℕ
  pub recheck_at : Option ℕ
  pub source_generation : Option String
  pub early_recheck : ℕ
  pub updated_at : String

-- run_items
pub record RunItem : Type 0 where
  pub run_id : String
  pub url : String
  pub queue_rank : ℕ

-- download_transitions; the rows of control actions have the states `other "control"`
pub record Transition : Type 0 where
  pub url : String
  pub run_id : String
  pub from_status : Option Status
  pub to_status : Status
  pub detail : Option String
  pub recorded_at : String

-- control_requests
pub record ControlRequest : Type 0 where
  pub request_id : String
  pub run_id : String
  pub session_id : String
  pub action : String
  pub outcome : String
  pub reason : String
  pub state_revision : ℕ
  pub recorded_at : String

-- tor_renewals; the column `action` has one value
pub record Renewal : Type 0 where
  pub request_id : String
  pub run_id : String
  pub session_id : String
  pub requested_at : String
  pub interval_seconds : ℕ
  pub previous_success_at : Option ℕ
  pub outcome : String
  pub failure_reason : Option String
  pub successful_at : Option ℕ
  pub next_eligible_at : Option ℕ

pub record Db : Type 0 where
  pub downloads : List Row
  pub run_items : List RunItem
  pub transitions : List Transition
  pub control_requests : List ControlRequest
  pub tor_renewals : List Renewal
  pub revisions : List (String × ℕ)

-- A reading of the clock: `time.time()` in whole seconds, and the text of `now()`.
pub record Clock : Type 0 where
  pub time : ℕ
  pub stamp : String

module _ (run_id url : String) where
  names_item : RunItem → Bool
  names_item item = str_eq item.run_id run_id && str_eq item.url url

  -- url IN (SELECT url FROM run_items WHERE run_id=?)
  unfoldable pub in_run : List RunItem → Bool
  unfolding names_item
  in_run = any names_item

-- FROM downloads JOIN run_items ON run_items.url=downloads.url WHERE run_items.run_id=?
unfoldable pub selected_rows : String → Db → List Row
selected_rows run_id db = filter (λ row. in_run run_id row.url db.run_items) db.downloads

-- SELECT … FROM downloads WHERE url=?
unfoldable pub find_row : String → List Row → Option Row
find_row url = find? (λ row. str_eq row.url url)

-- UPDATE downloads SET … WHERE …
unfoldable pub update_where : (Row → Bool) → (Row → Row) → List Row → List Row
update_where test set [] = []
update_where test set (row ∷ rows) =
    (if test row then set row else row) ∷ update_where test set rows

-- UPDATE downloads SET … WHERE url IN (…)
unfoldable pub update_urls : List String → (Row → Row) → List Row → List Row
unfolding update_where
update_urls urls = update_where (λ row. contains row.url urls)

-- SELECT revision FROM telemetry_revisions WHERE run_id=?, 0 where there is none
unfoldable pub revision_of : String → Db → ℕ
revision_of run_id db = elim (lookup run_id db.revisions) [ none ↦ 0 | some n ↦ n ]

-- advance_telemetry_revision: the database and the revision that it returns
unfoldable pub advance_revision : String → Db → Db × ℕ
unfolding revision_of
advance_revision run_id db =
    let next = revision_of run_id db + 1 in
    (record db { revisions = insert run_id next db.revisions }, next)

-- SELECT outcome, reason, state_revision FROM control_requests WHERE request_id=?
unfoldable pub find_request : String → Db → Option ControlRequest
find_request id db = find? (λ request. str_eq request.request_id id) db.control_requests

-- INSERT INTO download_transitions
unfoldable pub log_transition : Transition → Db → Db
log_transition t db = record db { transitions = db.transitions ++ t ∷ [] }

-- INSERT INTO control_requests
unfoldable pub log_request : ControlRequest → Db → Db
log_request r db = record db { control_requests = db.control_requests ++ r ∷ [] }

module _ (run_id : String) (db : Db) where
  -- run_items.queue_rank of a joined row; (run_id, url) is the primary key
  unfoldable pub queue_rank : String → ℕ
  unfolding names_item
  queue_rank url = elim (find? (names_item run_id url) db.run_items) [
    | none ↦ 0
    | some item ↦ item.queue_rank
  ]

-- ORDER BY: insertion by a key
unfoldable pub insert_by : (Row → ℕ) → Row → List Row → List Row
insert_by key row [] = row ∷ []
insert_by key row (r ∷ rows) =
    let rest = insert_by key row rows in if leb (key row) (key r) then row ∷ r ∷ rows else r ∷ rest

unfoldable pub order_by : (Row → ℕ) → List Row → List Row
unfolding insert_by
order_by key [] = []
order_by key (row ∷ rows) = insert_by key row (order_by key rows)

-- selected_rows … ORDER BY run_items.queue_rank
unfoldable pub ranked_rows : String → Db → List Row
unfolding selected_rows queue_rank order_by
ranked_rows run_id db = order_by (λ row. queue_rank run_id db row.url) (selected_rows run_id db)
