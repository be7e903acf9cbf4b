-- ===== src/Tests/Schedule.antt =====
-- The theorems on the schedule, the restart, the Tor circuits and the server, at the small run.
use tod_dl.Projection.Hydrate.Earliest.{IsFirst, copy-IsFirst}
use tod_dl.Projection.Hydrate.Ranked.{hydrate-InSync}
use tod_dl.Projection.Sync.{InSync}
use tod_dl.Projection.Hydrate.{copy, hydrate}
use tod_dl.Projection.{Projection, add_rows}
use tod_dl.Tests.{summary, clock, row_of, db, hash, rows-IsKeyed, controller}
use tod_dl.Control.Rows.{item_action-row}
use tod_dl.Control.Items.Selection.{is_accepted}
use tod_dl.Control.Newnym.{
  begin_newnym, finish_newnym, request_newnym, find_renewal, limited, send_newnym, last_success,
}
use tod_dl.Control.Newnym.Spacing.{KeepsSpacing, request_newnym-KeepsSpacing}
use tod_dl.Server.Confirmations.{Confirmed, confirm_fields-twice, confirm_fields-Confirmed}
use tod_dl.Server.{answered, Prepared, Server, confirm_fields, run_prepared, finish, is_outcome}
use tod_dl.Scheduler.Rechecks.{
  record_source_generation-twice, requeue_interrupted_transfers-restarts, claim_recheck-waits,
}
use tod_dl.Scheduler.{
  is_recheck_due, next_pending, record_source_generation, requeue_interrupted_transfers, retry_wait,
  claim_recheck, is_due, is_candidate, is_paused, is_denied, differ, set_interrupted,
}
use tod_dl.Scheduler.Choice.{is_zero, retry_wait-pending, next_pending-IsFirst}
use tod_dl.Control.Items.{item_action, set_excluded, check_excludable, of_requested}
use tod_dl.Control.Requests.{identified, given, once, reject, Response, record_request}
use tod_dl.Control.Flags.{decide_pause, control_pause_admission, conclude}
use tod_dl.Control.Actions.{control_action}
use tod_dl.Controller.{Controller}
use tod_dl.Status.{Status, is_interrupted, is_retryable}
use tod_dl.Manifest.{
  Db, update_where, find_row, revision_of, selected_rows, in_run, find_request, ranked_rows,
  order_by, insert_by, queue_rank, advance_revision,
}
use tod_dl.Json.{Json, Fields, text_of, get_field, is_text}
use tod_dl.Base.{
  refl, String, find?, lookup, some, ◌∷◌, [], none, true, any, false, filter, ◌≡◌, contains, ◌&&◌,
  str_eq, is_some, arith, ltb, if◌then◌else◌, ◌⊎◌, ℕ, inl,
}

abbrev origin : String → String
origin url = "http://x.onion/"

abbrev crashed : Db
crashed = record db { downloads = row_of "http://x.onion/a" Status.active ∷ [] }

retry_wait-pending_example :
    is_zero (retry_wait origin "run" 5 1000 db) ≡ is_some (next_pending origin "run" 5 1000 db)
retry_wait-pending_example = retry_wait-pending origin "run" 5 1000 db

next_pending-IsFirst_example :
    (is_due origin "run" 5 1000 db (row_of "http://x.onion/a" Status.queued) ≡ true)
    × (any
          (λ other.
            is_due origin "run" 5 1000 db other
            && ltb (queue_rank "run" db other.url) (queue_rank "run" db "http://x.onion/a"))
          (selected_rows "run" db)
        ≡ false)
unfolding next_pending find? ranked_rows selected_rows in_run any is_due is_candidate is_paused
    is_denied filter order_by insert_by queue_rank is_retryable
next_pending-IsFirst_example =
    next_pending-IsFirst origin "run" 5 1000 db (row_of "http://x.onion/a" Status.queued) refl

-- An item that is not there, with its source generation.
abbrev lost : Db
lost = record db {
  downloads =
      record (row_of "http://x.onion/a" Status.unavailable) {
        source_generation = some "g1";
        early_recheck = 1;
      }
      ∷ [];
}

claim_recheck-waits_example :
    any
      (λ row. str_eq row.url "http://x.onion/a" && is_recheck_due 2000 row)
      (ranked_rows "run" (
        record_source_generation 1500 "http://x.onion/a"
          (some "g1")
          (claim_recheck clock "http://x.onion/a" lost)))
    ≡ false
unfolding any differ
claim_recheck-waits_example =
    claim_recheck-waits clock "http://x.onion/a" "run" (some "g1") 2000 1500 lost (omega arith) refl

requeue_interrupted_transfers-restarts_example :
    let x = requeue_interrupted_transfers clock "run" crashed in
    (find_row "http://x.onion/a" x.1.downloads
      ≡ some (record (row_of "http://x.onion/a" Status.active) {
        status = Status.queued;
        next_retry_at = 0;
        updated_at = clock.stamp;
      }))
    × (contains "http://x.onion/a" x.0 ≡ true)
    × (is_some (next_pending origin "run" 0 1000 x.1) ≡ true)
unfolding find_row find? in_run any is_paused selected_rows filter is_denied
    requeue_interrupted_transfers is_interrupted update_where set_interrupted
requeue_interrupted_transfers-restarts_example =
    requeue_interrupted_transfers-restarts origin clock "run" "http://x.onion/a" 1000 crashed
      (row_of "http://x.onion/a" Status.active) refl refl (inl refl) refl

record_source_generation-twice_example :
    record_source_generation 2000 "http://x.onion/a"
      (some "g2")
      (record_source_generation 1000 "http://x.onion/a" (some "g2") db)
    ≡ record_source_generation 1000 "http://x.onion/a" (some "g2") db
record_source_generation-twice_example =
    record_source_generation-twice 1000 2000 "http://x.onion/a" (some "g2") db

-- The controller behind the control server, and a confirmation to pause admission.
abbrev handler : String → String → Fields → Controller → Controller × Response
handler request_id action fields = control_action hash clock none (record {
  request_id = Json.str request_id;
  session_id = Json.str "s1";
  action = Json.str action;
  parameters = Json.obj fields;
})

abbrev server : Server Controller
server = record {
  confirmations =
      (
        "n1",
        record {
          action = "pause_admission";
          expires_at = 60;
          item_ids = none;
          priority = none;
          cooldown_s = none;
        },
      )
      ∷ [];
  completed = [];
  controller = controller;
}

abbrev confirming : Fields
confirming =
    Fields.field "nonce" (Json.str "n1")
      (Fields.field "confirmation" (Json.str "pause_admission") Fields.end)

abbrev paused : Response
paused = record {
  outcome = "completed";
  reason = "admission paused; active transfers continue";
  state_revision = some 5;
  items = none;
}

server-paused :
    (confirm_fields handler 30 "pause_admission" "r2" confirming server).1 ≡ answered paused
unfolding confirm_fields lookup run_prepared finish is_outcome contains get_field text_of is_text
    control_action control_pause_admission identified given once find_request find? reject conclude
    decide_pause record_request advance_revision revision_of
server-paused = refl

confirm_fields-Confirmed_example :
    (nonce : String) × (prepared : Prepared) × Confirmed handler 30 "pause_admission" "r2"
      confirming server nonce prepared
    × (lookup nonce
          (confirm_fields handler 30 "pause_admission" "r2" confirming server).0.confirmations
        ≡ none)
unfolding lookup
confirm_fields-Confirmed_example =
    confirm_fields-Confirmed handler 30 "pause_admission" "r2" confirming server paused refl
      server-paused

confirm_fields-twice_example :
    confirm_fields handler 90 "exclude_item" "r2" Fields.end
      (confirm_fields handler 30 "pause_admission" "r2" confirming server).0
    ≡ ((confirm_fields handler 30 "pause_admission" "r2" confirming server).0, answered paused)
confirm_fields-twice_example =
    confirm_fields-twice handler 30 "pause_admission" "r2" confirming server paused 90
      "exclude_item" Fields.end server-paused

request_newnym-KeepsSpacing_example :
    KeepsSpacing clock none "r3" "s1" controller
      (finish_newnym clock none "r3" "s1"
        (begin_newnym clock none "r3" "s1" controller).1
        (begin_newnym clock none "r3" "s1" controller).0).0
request_newnym-KeepsSpacing_example =
    request_newnym-KeepsSpacing clock none "r3" "s1" controller
      (begin_newnym clock none "r3" "s1" controller).0 refl

-- A second call passes the check while the first one waits for Tor.
overlapping-pass :
    (begin_newnym clock none "r4" "s2" (begin_newnym clock none "r3" "s1" controller).0).1 ≡ none
unfolding begin_newnym find_renewal find? limited last_success
overlapping-pass = refl

-- The first renewal is sent.
request_newnym-sends : (request_newnym clock none "r3" "s1" controller).1.outcome ≡ "completed"
unfolding request_newnym begin_newnym finish_newnym find_renewal find? limited send_newnym
    last_success
request_newnym-sends = refl

item_action-row_example :
    find_row "http://x.onion/a"
      (item_action hash clock "r1" "s1" "exclude_item"
        ("http://x.onion/a" ∷ [])
        check_excludable
        "excluded"
        (set_excluded clock)
        (λ item. record item { status = Status.excluded })
        (of_requested "excluded")
        "exclude item accepted"
        controller).0.db.downloads
    ≡ some (
        if contains (hash "http://x.onion/a") ("http://x.onion/a" ∷ [])
          && is_accepted check_excludable (row_of "http://x.onion/a" Status.queued)
        then set_excluded clock (row_of "http://x.onion/a" Status.queued)
        else row_of "http://x.onion/a" Status.queued)
unfolding in_run any find_row find? set_excluded
item_action-row_example =
    item_action-row hash (λ a b h. h) clock "r1" "s1" "exclude_item" ("http://x.onion/a" ∷ [])
      check_excludable "excluded" (set_excluded clock)
      (λ item. record item { status = Status.excluded }) (of_requested "excluded")
      "exclude item accepted" controller "http://x.onion/a"
      (row_of "http://x.onion/a" Status.queued) (λ r. refl) rows-IsKeyed refl refl

hydrate-InSync_example :
    (p : Projection) × (hydrate hash "run" 5 db ≡ some p)
    × InSync hash p (ranked_rows "run" db)
    × (p.revision ≡ revision_of "run" db)
unfolding selected_rows in_run any filter queue_rank find?
hydrate-InSync_example =
    hydrate-InSync hash (λ a b h. h) "run" 5 db rows-IsKeyed ((refl, tt), (tt, tt))

abbrev waiting_summary : Projection
waiting_summary = add_rows hash (row_of "http://x.onion/c" Status.retry_wait ∷ []) summary

copy-IsFirst_example :
    ((waiting_summary.retries ≡ [])
      × ((copy waiting_summary).retry_at ≡ none)
      × ((copy waiting_summary).retry_error ≡ none))
    ⊎ ((r : String × (ℕ × String)) × ((copy waiting_summary).retry_at ≡ some r.1.0)
        × ((copy waiting_summary).retry_error ≡ some r.1.1)
        × IsFirst waiting_summary.retries r)
copy-IsFirst_example = copy-IsFirst waiting_summary
