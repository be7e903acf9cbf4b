-- ===== src/Controller.antt =====
-- `Downloader` of src/tod-dl.py: the controller's state, and the methods through which every
-- durable state change of an item goes.
pub mod Consistent
pub mod Changes
pub mod Revised
pub mod Effect
pub mod Steps
use tod_dl.Base.{
  ℕ, String, Bool, true, false, ◌&&◌, not, Option, none, some, List, [], ◌∷◌, ◌++◌, ◌<>◌,
  if◌then◌else◌,
}
use tod_dl.Status.{Status}
use tod_dl.Manifest.{Row, Db, Clock, find_row, update_urls, advance_revision, log_transition}
use tod_dl.Telemetry.{Call, request_publish, tell}
use tod_dl.Projection.{Projection, Item, item_of, apply, set_revision}

-- {"available": …, "compared": …, "value": …}; `unavailable` has no value and was not compared.
pub data Check : Type 0 where
  unavailable : Check
  available : Bool → String → Check

-- A "finalized" event, but for its times.
pub record Finalized : Type 0 where
  pub source_url : String
  pub logical_relative_path : String
  pub final_relative_path : String
  pub byte_count : ℕ
  pub sha256 : String
  pub expected_size : Check
  pub expected_checksum : Check
  pub etag : Check
  pub last_modified : Check

-- What a response of the source says, as far as the code uses it.
pub record Headers : Type 0 where
  pub http_status : Option ℕ
  pub content_length : Option String
  pub content_range : Option String
  pub etag : Option String
  pub last_modified : Option String

-- Evidence that the controller writes through `ProvenanceWriter.event`: the attempt of a url with
-- its number and outcome, and the candidate of a staging file with its hash and the reason.
pub data Evidence : Type 0 where
  local_failure : String → String → Evidence
  attempt_finished : String → ℕ → String → Headers → Evidence
  finalized : Finalized → Evidence
  candidate_created : String → String → Option String → Option String → String → Evidence

-- `str(exc)` of an OSError, and whether its errno is ENAMETOOLONG.
pub record OsError : Type 0 where
  pub message : String
  pub is_name_too_long : Bool

-- An exception that leaves a method.
pub data Error : Type 0 where
  runtime_error : String → Error
  os_error : OsError → Error
  value_error : String → Error

-- `records` is the provenance record of this run, if it is open; `record_store_works` says
-- whether a write to it succeeds. `active` maps the url of an admitted transfer to its staging file.
pub record Controller : Type 0 where
  pub run_id : String
  pub max_attempts : ℕ
  pub tor_newnym_interval : ℕ
  pub db : Db
  pub projection : Option Projection
  pub telemetry : Option (List Call)
  pub records : Option (List Evidence)
  pub record_store_works : Bool
  pub active : List (String × String)
  pub next_newnym_at : ℕ
  pub stop_requested : Bool
  pub drain_requested : Bool
  pub admission_paused : Bool
  pub control_wake : Bool
  pub local_failure_code : Option String

unfoldable pub is_complete : Status → Bool
is_complete Status.complete = true
is_complete _ = false

-- self.telemetry.… under `if self.telemetry`
unfoldable pub notify : Call → Controller → Controller
unfolding tell
notify call c = record c { telemetry = tell call c.telemetry }

-- A method's exception, beside the state that it leaves.
unfoldable pub provenance_event : Evidence → Controller → Controller × Option Error
provenance_event event c = elim c.records [
  | none ↦ (c, none)
  | some events ↦
      if c.record_store_works then (record c { records = some (events ++ event ∷ []) }, none) else (
        record c { stop_requested = true; local_failure_code = some "record_write" },
        some (runtime_error "local provenance failure"),
      )
]

-- The exception of the record store is swallowed.
unfoldable pub record_local_failure : String → String → Controller → Controller
unfolding provenance_event
record_local_failure code detail c =
    (provenance_event (local_failure code detail) (record c { local_failure_code = some code })).0

module _ (sha256_hex : String → String) where
  -- The projection has an entry for every bucket, so its `apply` raises nothing.
  unfoldable pub apply_projection_change : Item → Item → ℕ → Option String → Controller → Controller
  unfolding notify
  apply_projection_change old new revision completion_at c = elim c.projection [
    | none ↦ c
    | some p ↦
        notify request_publish
          (record c { projection = some (apply sha256_hex old new revision completion_at p) })
  ]

  -- for … in changed_rows: the postimage is the preimage with some entries given anew
  unfoldable pub apply_changes : (Item → Item) → ℕ → List Row → Controller → Controller
  unfolding apply_projection_change item_of
  apply_changes change revision [] c = c
  apply_changes change revision (row ∷ rows) c =
      apply_changes change revision rows
        (apply_projection_change (item_of row) (change (item_of row)) revision none c)

  -- The body of `transition` once the row is read: one transaction, then the projection.
  -- `fields` is the assignment of the further columns.
  unfoldable pub commit_transition :
      Clock → String → Status → Option String → (Row → Row) → Row → Controller → Controller
  unfolding apply_projection_change advance_revision log_transition update_urls is_complete item_of
  commit_transition clock url to_status detail fields row c =
      let set = λ (r : Row). fields (record r { status = to_status; updated_at = clock.stamp }) in
      let updated = record (c.db) { downloads = update_urls (url ∷ []) set c.db.downloads } in
      let logged =
        log_transition
          (record {
            url = url;
            run_id = c.run_id;
            from_status = some row.status;
            to_status = to_status;
            detail = detail;
            recorded_at = clock.stamp;
          })
          updated in
      let (db, revision) = advance_revision c.run_id logged in
      let new_row = set row in
      apply_projection_change (item_of row) (item_of new_row) revision
        (if not (is_complete row.status) && is_complete new_row.status
          then some clock.stamp
          else none)
        (record c { db = db })

  -- `durable` is none where the statements and the commit succeed. After an sqlite3.Error it is the
  -- database that a later start will find, which the code does not know.
  unfoldable pub transition :
      Option Db
      → Clock
      → String
      → Status
      → Option String
      → (Row → Row)
      → Controller
      → Controller × Option Error
  unfolding commit_transition record_local_failure find_row
  transition (some found_later) clock url to_status detail fields c = (
    record_local_failure "database_write" "SQLite write or commit failed"
        (record c { db = found_later; stop_requested = true }),
    some (runtime_error "local SQLite failure"),
  )
  transition none clock url to_status detail fields c = elim (find_row url c.db.downloads) [
    | none ↦ (c, some (runtime_error ("missing download row: " <> url)))
    | some row ↦ (commit_transition clock url to_status detail fields row c, none)
  ]

-- if self.projection: self.projection.set_revision(revision)
unfoldable pub set_projection_revision : ℕ → Controller → Controller
unfolding set_revision
set_projection_revision revision c = elim c.projection [
  | none ↦ c
  | some p ↦ record c { projection = some (set_revision revision p) }
]
