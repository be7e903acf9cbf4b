-- ===== src/Control/Flags.antt =====
-- The actions on the run: `control_renew_tor_circuits`, `control_pause_admission`,
-- `control_resume_admission`, `control_drain_and_stop` and `control_checkpoint_stop` (src/tod-dl.py).
use tod_dl.Control.{Request}
use tod_dl.Control.Newnym.{request_newnym}
use tod_dl.Control.Requests.{Response, identified, once, record_request}
use tod_dl.Manifest.{Clock}
use tod_dl.Telemetry.{Call}
use tod_dl.Controller.{Controller, set_projection_revision, notify}
use tod_dl.Base.{String, Bool, true, false, not, ◌||◌, Option, none, some, if◌then◌else◌}

-- What an action decides under the lock: whether it is done, why, and the flags after it.
pub record Decision : Type 0 where
  pub done : Bool
  pub reason : String
  pub after : Controller

unfoldable pub refused : String → Controller → Decision
refused reason c = record { done = false; reason = reason; after = c }

unfoldable pub decide_pause : Controller → Decision
unfolding refused
decide_pause c =
    if c.stop_requested || c.drain_requested
    then refused "admission cannot be paused while the run is stopping" c
    else if c.admission_paused
    then refused "admission is already paused" c
    else record {
      done = true;
      reason = "admission paused; active transfers continue";
      after = record c { admission_paused = true };
    }

unfoldable pub decide_resume : Controller → Decision
unfolding refused
decide_resume c = if not c.admission_paused then refused "admission is not paused" c else record {
  done = true;
  reason = "admission resumed for the selected run";
  after = record c { admission_paused = false };
}

unfoldable pub decide_drain : Controller → Decision
unfolding refused
decide_drain c =
    if c.stop_requested || c.drain_requested
    then refused "the run is already stopping" c
    else record {
      done = true;
      reason = "draining active transfers to durable states; admission stopped";
      after = record c { drain_requested = true; admission_paused = false };
    }

unfoldable pub decide_checkpoint : Controller → Decision
unfolding refused
decide_checkpoint c = if c.stop_requested then refused "the run is already stopping" c else record {
  done = true;
  reason = "checkpoint requested; terminating active transfers safely";
  after = record c { stop_requested = true };
}

-- The decision is recorded, the projection gets the revision, and a completed action goes on with
-- `announce`.
unfoldable pub conclude :
    Clock → String → String → String → Decision → (Controller → Controller) → Controller × Response
unfolding record_request set_projection_revision
conclude clock id session action decision announce =
    let outcome = if decision.done then "completed" else "rejected" in
    let (recorded, revision) =
      record_request clock id session action outcome decision.reason decision.after in
    let synced = set_projection_revision revision recorded in
    (
      if decision.done then announce synced else synced,
      record {
        outcome = outcome;
        reason = decision.reason;
        state_revision = some revision;
        items = none;
      },
    )

unfoldable pub wake : Controller → Controller
wake c = record c { control_wake = true }

unfoldable pub tell_control : String → Controller → Controller
unfolding notify
tell_control reason = notify (Call.event "info" "control" reason)

unfoldable pub tell_stopping : String → Controller → Controller
unfolding notify
tell_stopping reason = notify (Call.set_lifecycle "stopping" reason)

unfoldable pub control_pause_admission : Clock → Request → Controller → Controller × Response
unfolding decide_pause conclude tell_control
control_pause_admission clock request c =
    identified request.request_id request.session_id c λ id session. once id c (
      let decision = decide_pause c in
      conclude clock id session "pause_admission" decision (tell_control decision.reason))

unfoldable pub control_resume_admission : Clock → Request → Controller → Controller × Response
unfolding decide_resume conclude tell_control wake
control_resume_admission clock request c =
    identified request.request_id request.session_id c λ id session. once id c (
      let decision = decide_resume c in
      conclude clock id session "resume_admission" decision
        (λ synced. wake (tell_control decision.reason synced)))

unfoldable pub control_drain_and_stop : Clock → Request → Controller → Controller × Response
unfolding decide_drain conclude tell_control tell_stopping wake
control_drain_and_stop clock request c =
    identified request.request_id request.session_id c λ id session. once id c (
      let decision = decide_drain c in
      conclude clock id session "drain_and_stop" decision (λ synced. wake (
        tell_control decision.reason
          (tell_stopping "drain and stop requested by operator" synced))))

unfoldable pub control_checkpoint_stop : Clock → Request → Controller → Controller × Response
unfolding decide_checkpoint conclude tell_control tell_stopping wake
control_checkpoint_stop clock request c =
    identified request.request_id request.session_id c λ id session. once id c (
      let decision = decide_checkpoint c in
      conclude clock id session "checkpoint_stop" decision (λ synced. wake (
        tell_control decision.reason
          (tell_stopping "checkpoint and stop requested by operator" synced))))

-- INSERT OR IGNORE: `once` has found no such request, so that nothing is ignored
unfoldable pub renew : Clock → Option String → String → String → Controller → Controller × Response
unfolding request_newnym record_request set_projection_revision notify
renew clock tor_error id session c =
    let (renewed, result) = request_newnym clock tor_error id session c in
    let (recorded, revision) =
      record_request clock id session "renew_tor_circuits" result.outcome result.reason renewed in
    (
      notify Call.request_publish (set_projection_revision revision recorded),
      record {
        outcome = result.outcome;
        reason = result.reason;
        state_revision = none;
        items = none;
      },
    )

unfoldable pub control_renew_tor_circuits :
    Clock → Option String → Request → Controller → Controller × Response
unfolding renew
control_renew_tor_circuits clock tor_error request c =
    identified request.request_id request.session_id c
      λ id session. once id c (renew clock tor_error id session c)
