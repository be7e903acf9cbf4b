-- ===== src/Tests.antt =====
-- A small run, and the theorems at it: the hash is the identity, which no two urls share.
pub mod Records
mod Calls
mod Schedule
mod Transfers
use tod_dl.Projection.Sync.Apply.{apply-InSync}
use tod_dl.Control.Items.{control_exclude_item, item_action}
use tod_dl.Control.Advertised.{control_state-agrees}
use tod_dl.Control.Consistency.{HasDistinctIds}
use tod_dl.Control.Replay.{IsFaulty, IsIllFormed, control_action-replay, RepeatsRecord}
use tod_dl.Control.Requests.{identified, given, once, reject}
use tod_dl.Control.Flags.{decide_pause, decide_drain, decide_checkpoint, decide_resume}
use tod_dl.Control.Recorded.{IsRecorded, control_action-once, control_action-IsRecorded}
use tod_dl.Control.Consistent.{control_action-IsConsistent}
use tod_dl.Projection.Sync.{InSync}
use tod_dl.Control.Actions.{control_action, control_state}
use tod_dl.Controller.Effect.{Committed, transition-Committed}
use tod_dl.Controller.Steps.{transition-IsConsistent}
use tod_dl.Control.{Request}
use tod_dl.Projection.Sync.Hydrated.{empty_projection, add_rows-InSync}
use tod_dl.Manifest.Rows.{IsKeyed}
use tod_dl.Controller.Consistent.{IsConsistent, Summarises}
use tod_dl.Controller.{Controller, transition, runtime_error}
use tod_dl.Projection.{Projection, add_rows, apply, item_of}
use tod_dl.Status.{Status}
use tod_dl.Manifest.{
  Clock, Db, find_row, revision_of, Row, selected_rows, in_run, ControlRequest, find_request,
  update_where, queue_rank,
}
use mathlib.Core.Option.{some-injective}
use tod_dl.Json.{get, Json, Fields, Items, id_list, text_of, texts, get_field, is_text}
use tod_dl.Base.{
  refl, String, List, find?, lookup, some, sym, ◌∷◌, [], none, pos, true, any, false, filter, ◌≡◌,
  ◌⊎◌, distinct, contains, ◌&&◌, not, ◌||◌, str_eq, is_some,
}

abbrev pub clock : Clock
clock = record { time = 1000; stamp = "2026-07-01T00:00:00Z" }

abbrev pub row_of : String → Status → Row
row_of url status = record {
  url = url;
  relative_path = "a/b";
  storage_path = none;
  staging_path = none;
  inventory_size = none;
  expected_sha256 = none;
  status = status;
  attempts = 0;
  bytes = some 7;
  sha256 = none;
  last_error = none;
  next_retry_at = 0;
  promotion_target = none;
  promotion_intent_at = none;
  cleanup_completed_at = none;
  review_code = none;
  remediation_reason = none;
  remediation_mapping_version = none;
  remediation_outcome = none;
  remediation_started_at = none;
  remediation_completed_at = none;
  priority = pos 0;
  etag = none;
  last_modified = none;
  staging_generation = some 0;
  recheck_at = none;
  source_generation = none;
  early_recheck = 0;
  updated_at = "2026-06-30T00:00:00Z";
}

abbrev pub rows : List Row
rows = row_of "http://x.onion/a" Status.queued ∷ row_of "http://x.onion/b" Status.complete ∷ []

abbrev pub db : Db
db = record {
  downloads = rows;
  run_items =
      record { run_id = "run"; url = "http://x.onion/a"; queue_rank = 0 }
      ∷ record { run_id = "run"; url = "http://x.onion/b"; queue_rank = 1 }
      ∷ [];
  transitions = [];
  control_requests = [];
  tor_renewals = [];
  revisions = ("run", 4) ∷ [];
}

abbrev pub hash : String → String
hash s = s

pub rows-IsKeyed : IsKeyed rows
unfolding find_row find?
rows-IsKeyed = (refl, (refl, tt))

abbrev pub summary : Projection
summary = add_rows hash rows (empty_projection 2 0 4 5)

abbrev pub controller : Controller
controller = record {
  run_id = "run";
  max_attempts = 5;
  tor_newnym_interval = 600;
  db = db;
  projection = some summary;
  telemetry = some [];
  records = some [];
  record_store_works = true;
  active = [];
  next_newnym_at = 0;
  stop_requested = false;
  drain_requested = false;
  admission_paused = false;
  control_wake = false;
  local_failure_code = none;
}

summary-Summarises : Summarises hash summary "run" db
unfolding revision_of lookup selected_rows in_run any filter
summary-Summarises =
    let synced = add_rows-InSync hash (λ a b h. h) 2 0 4 5 rows rows-IsKeyed in
    record { in_sync = synced.0; revised = synced.1 }

controller-IsConsistent : IsConsistent hash controller
controller-IsConsistent = record {
  keyed = rows-IsKeyed;
  synced = λ p e. simp (sym (some-injective summary p e)) summary-Summarises;
}

abbrev later : Clock
later = record { time = 2000; stamp = "2026-07-01T00:20:00Z" }

-- The first item is excluded.
abbrev request : Request
request = record {
  request_id = Json.str "r1";
  session_id = Json.str "s1";
  action = Json.str "exclude_item";
  parameters = Json.obj (
      Fields.field "item_ids" (Json.arr (Items.cons (Json.str "http://x.onion/a") Items.nil))
        Fields.end);
}

abbrev fail : Row → Row
fail row = record row { attempts = 1; last_error = some "timeout" }

transition-IsConsistent_example :
    IsConsistent hash
      (transition hash none clock "http://x.onion/a" Status.failed
        (some "timeout")
        fail
        controller).0
unfolding in_run any
transition-IsConsistent_example =
    transition-IsConsistent hash (λ a b h. h) clock "http://x.onion/a" Status.failed
      (some "timeout") fail (λ r. refl) controller controller-IsConsistent refl

transition-Committed_example :
    ((transition hash none clock "http://x.onion/a" Status.failed
        (some "timeout")
        fail
        controller).1
      ≡ none)
    × Committed hash clock "http://x.onion/a" Status.failed
        (some "timeout")
        fail
        (λ r. refl)
        controller
        (row_of "http://x.onion/a" Status.queued)
        (transition hash none clock "http://x.onion/a" Status.failed
          (some "timeout")
          fail
          controller).0
unfolding find_row find?
transition-Committed_example =
    transition-Committed hash clock "http://x.onion/a" Status.failed (some "timeout") fail
      (λ r. refl) controller (row_of "http://x.onion/a" Status.queued) refl

request-HasDistinctIds : HasDistinctIds request
unfolding id_list texts get get_field distinct contains
request-HasDistinctIds ids e = simp (sym (some-injective ("http://x.onion/a" ∷ []) ids e)) refl

control_action-IsConsistent_example :
    IsConsistent hash (control_action hash clock none request controller).0
control_action-IsConsistent_example =
    control_action-IsConsistent hash (λ a b h. h) clock none request controller
      request-HasDistinctIds controller-IsConsistent

abbrev recorded : ControlRequest
recorded = record {
  request_id = "r1";
  run_id = "run";
  session_id = "s1";
  action = "exclude_item";
  outcome = "completed";
  reason = "excluded 1 of 1 requested item(s)";
  state_revision = 5;
  recorded_at = "2026-07-01T00:00:00Z";
}

abbrev answered_before : Controller
answered_before = record controller { db = record db { control_requests = recorded ∷ [] } }

control_action-replay_example :
    ((control_action hash later none request answered_before).0 ≡ answered_before)
    × (RepeatsRecord recorded (control_action hash later none request answered_before).1
        ⊎ (IsFaulty (control_action hash later none request answered_before).1
            × IsIllFormed request))
unfolding text_of find_request find?
control_action-replay_example =
    control_action-replay hash later none request answered_before "r1" recorded refl refl

control_action-IsRecorded_example :
    IsRecorded "r1" (control_action hash clock none request controller)
    ⊎ (((control_action hash clock none request controller).0 ≡ controller)
        × IsFaulty (control_action hash clock none request controller).1)
unfolding text_of
control_action-IsRecorded_example =
    control_action-IsRecorded hash clock none request controller "r1" refl

request-excluded : (control_action hash clock none request controller).1.outcome ≡ "completed"
unfolding control_action is_text control_exclude_item identified given once item_action find_request
    find? text_of id_list texts get get_field reject
request-excluded = refl

control_action-once_example :
    (control_action hash later none request (control_action hash clock none request controller).0).0
    ≡ (control_action hash clock none request controller).0
unfolding text_of
control_action-once_example =
    control_action-once hash clock later none none request controller "r1" refl
      (λ faulty. cc (request-excluded, faulty.0))

control_state-agrees_example :
    (lookup "pause_admission" (control_state controller).actions
      ≡ some (decide_pause controller).done)
    × (lookup "drain_and_stop" (control_state controller).actions
        ≡ some (decide_drain controller).done)
    × (lookup "checkpoint_stop" (control_state controller).actions
        ≡ some (decide_checkpoint controller).done)
    × (lookup "resume_admission" (control_state controller).actions
        ≡ some (
            (decide_resume controller).done
            && not (controller.stop_requested || controller.drain_requested)))
control_state-agrees_example = control_state-agrees controller

add_rows-InSync_example :
    InSync hash (add_rows hash rows (empty_projection 2 0 4 5)) rows
    × ((add_rows hash rows (empty_projection 2 0 4 5)).revision ≡ 4)
add_rows-InSync_example = add_rows-InSync hash (λ a b h. h) 2 0 4 5 rows rows-IsKeyed

apply-InSync_example :
    InSync hash
      (apply hash
        (item_of (row_of "http://x.onion/a" Status.queued))
        (item_of (fail (row_of "http://x.onion/a" Status.queued)))
        5
        none
        summary)
      (update_where (λ row. str_eq row.url "http://x.onion/a") fail rows)
unfolding find_row find?
apply-InSync_example =
    apply-InSync hash (λ a b h. h) summary fail (λ r. refl) "http://x.onion/a" rows
      (row_of "http://x.onion/a" Status.queued) 5 none rows-IsKeyed refl
      (add_rows-InSync hash (λ a b h. h) 2 0 4 5 rows rows-IsKeyed).0
