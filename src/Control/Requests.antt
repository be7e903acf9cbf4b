-- ===== src/Control/Requests.antt =====
-- What the action methods share: the answer, its replay, and the rows that they leave in the manifest.
use tod_dl.Json.{Json, text_of}
use tod_dl.Manifest.{
  ControlRequest, Clock, find_request, log_request, log_transition, advance_revision,
}
use tod_dl.Status.{Status}
use tod_dl.Controller.{Controller}
use tod_dl.Base.{ℕ, String, Option, none, some, List}

-- The answer to a request. `items` is the outcome of each requested item.
pub record Response : Type 0 where
  pub outcome : String
  pub reason : String
  pub state_revision : Option ℕ
  pub items : Option (List (String × String))

unfoldable pub reject : String → Response
reject reason = record {
  outcome = "rejected";
  reason = reason;
  state_revision = none;
  items = none;
}

-- `existing`: the recorded outcome, reason and revision
unfoldable pub replay : ControlRequest → Response
replay r = record {
  outcome = r.outcome;
  reason = r.reason;
  state_revision = some r.state_revision;
  items = none;
}

-- A body that needs a value, and the answer where there is none.
unfoldable pub given {ℓ} :
    {A : Type ℓ}
    → Option A
    → Controller × Response
    → (A → Controller × Response)
    → Controller × Response
given none answer body = answer
given (some a) answer body = body a

-- Both identifiers have to be texts.
unfoldable pub identified :
    Json → Json → Controller → (String → String → Controller × Response) → Controller × Response
unfolding given text_of reject
identified request_id session_id c body =
    given (text_of request_id) (c, reject "invalid control request")
      λ id.
        given (text_of session_id) (c, reject "invalid control request") λ session. body id session

-- A request that is recorded is answered from the record.
unfoldable pub once : String → Controller → Controller × Response → Controller × Response
unfolding given find_request replay
once id c fresh = given (find_request id c.db) fresh λ existing. (c, replay existing)

-- The revision is advanced and the request recorded.
unfoldable pub record_request :
    Clock → String → String → String → String → String → Controller → Controller × ℕ
unfolding advance_revision log_request
record_request clock id session action outcome reason c =
    let (db, revision) = advance_revision c.run_id c.db in
    (
      record c {
        db =
            log_request
              (record {
                request_id = id;
                run_id = c.run_id;
                session_id = session;
                action = action;
                outcome = outcome;
                reason = reason;
                state_revision = revision;
                recorded_at = clock.stamp;
              })
              db;
      },
      revision,
    )

-- The audit row of an item action, then its request.
unfoldable pub record_control :
    Clock → String → String → String → String → Controller → Controller × ℕ
unfolding record_request log_transition
record_control clock id session action reason c =
    record_request clock id session action "completed" reason (record c {
      db =
          log_transition
            (record {
              url = "__control__";
              run_id = c.run_id;
              from_status = some (Status.other "control");
              to_status = Status.other "control";
              detail = some reason;
              recorded_at = clock.stamp;
            })
            c.db;
    })
