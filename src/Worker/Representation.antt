-- ===== src/Worker/Representation.antt =====
-- Whether the remote file is still the one that was partly fetched: `probe_representation`,
-- `check_representation`, `classify_representation`, `enter_representation_review` and
-- `recheck_unavailable` (src/tod-dl.py).
use tod_dl.Controller.{transition}
use tod_dl.Worker.Events.{move_candidate, candidate_event, clear_transfer_telemetry}
use tod_dl.Files.{size_of, Node}
use tod_dl.Status.{Status}
use tod_dl.Manifest.{Clock, Row}
use tod_dl.Worker.{◌>>=◌, ◌>>◌, System, Step, call, pure, node_at, or_text}
use tod_dl.Base.{
  ℕ, String, Bool, true, false, not, ◌&&◌, ◌||◌, Option, none, some, str_eq, ◌==◌, if◌then◌else◌,
  is_truthy,
}

-- The answer to a HEAD request, and what the code keeps of it.
pub record Probe : Type 0 where
  pub status : ℕ
  pub etag : Option String
  pub last_modified : Option String

-- probe_representation: only 200 and 206 count
unfoldable pub observed_of : Option Probe → Option Probe
observed_of none = none
observed_of (some probe) = if probe.status == 200 || probe.status == 206 then some probe else none

unfoldable pub same_text : Option String → Option String → Bool
same_text (some a) (some b) = str_eq a b
same_text none none = true
same_text _ _ = false

unfoldable pub classify_representation : Option String → Option String → Probe → String
unfolding is_truthy same_text
classify_representation recorded_etag recorded_last_modified observed =
    if is_truthy recorded_etag && is_truthy observed.etag && same_text recorded_etag observed.etag
    then "confirmed_unchanged"
    else if is_truthy recorded_etag && is_truthy observed.etag
    then "changed"
    else if not (is_truthy recorded_etag)
        && is_truthy recorded_last_modified
        && is_truthy observed.last_modified
        && not (same_text recorded_last_modified observed.last_modified)
    then "changed"
    else "unconfirmed"

unfoldable pub check_representation :
    Option Probe → Option String → Option String → String × Option Probe
unfolding classify_representation observed_of
check_representation head recorded_etag recorded_last_modified = elim (observed_of head) [
  | none ↦ ("unconfirmed", none)
  | some observed ↦
      (classify_representation recorded_etag recorded_last_modified observed, some observed)
]

-- observed.get("etag"), of the observation that may be empty
unfoldable pub etag_of : Option Probe → Option String
etag_of none = none
etag_of (some probe) = probe.etag

unfoldable pub last_modified_of : Option Probe → Option String
last_modified_of none = none
last_modified_of (some probe) = probe.last_modified

-- value is None
unfoldable pub is_none : Option ℕ → Bool
is_none none = true
is_none (some n) = false

module _ (sys : System) (clock : Clock) (url : String) where
  -- self.transition(db, url, …)
  abbrev pub change : Status → Option String → (Row → Row) → Step Unit
  change status detail fields = call (transition sys.sha256_hex none clock url status detail fields)

  unfoldable pub enter_representation_review : String → String → Option Probe → Step Unit
  enter_representation_review staging decision observed = do
    let changed = str_eq decision "changed"
    let cause =
        if changed then "changed_remote_representation" else "no_reliable_version_protection"
    let detail =
        if changed
        then "changed remote representation detected on resume"
        else "no reliable version protection or expected checksum on resume"
    candidate ← move_candidate sys staging
    candidate_event sys url staging (some candidate) none cause
    change Status.review_required (some detail) (λ row. record row {
      bytes = none;
      last_error = some detail;
      review_code = some cause;
      etag = etag_of observed;
      last_modified = last_modified_of observed;
      recheck_at = none;
    })
    clear_transfer_telemetry url

  -- back to the queue
  unfoldable pub recheck_available : String → Step String
  recheck_available detail = do
    change Status.queued (some detail) (λ row. record row { next_retry_at = 0; recheck_at = none })
    pure "recheck_available"

  -- row["staging_path"], or where the url is staged
  abbrev pub staging_of : Option String → String
  staging_of text = or_text text (sys.staging_path url)

  unfoldable pub resume_recheck : Row → String → Option Node → Probe → Step String
  resume_recheck row staging node observed =
      let decision = classify_representation row.etag row.last_modified observed in
      if is_none row.staging_generation || size_of node == 0
      then recheck_available "recheck: available again; admitted as fresh work"
      else if is_truthy row.expected_sha256
      then recheck_available "recheck: available again; expected checksum protects the resume"
      else if not (str_eq decision "confirmed_unchanged")
      then enter_representation_review staging decision (some observed) >> pure "recheck_review"
      else recheck_available "recheck: available again; representation confirmed unchanged"

  -- `row` is what `next_recheck` chose, and `head` the answer to the HEAD request.
  unfoldable pub recheck_unavailable : Row → Option Probe → Step String
  recheck_unavailable row head = elim (observed_of head) [
    | none ↦ pure "still_unavailable"
    | some observed ↦ node_at (staging_of row.staging_path) >>= λ node.
        resume_recheck row (staging_of row.staging_path) node observed
  ]
