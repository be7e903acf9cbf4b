-- ===== src/Control/Actions.antt =====
-- `control_action` and `control_state` (src/tod-dl.py).
use tod_dl.Base.{
  ℕ, String, Bool, true, not, ◌&&◌, Option, none, some, List, [], ◌∷◌, length, ltb, if◌then◌else◌,
}
use tod_dl.Json.{is_text}
use tod_dl.Manifest.{Clock}
use tod_dl.Control.{Request}
use tod_dl.Control.Requests.{Response, reject}
use tod_dl.Controller.{Controller}
use tod_dl.Control.Items.{
  control_retry_now, control_exclude_item, control_resume_new_generation,
  control_retry_access_denied, control_set_item_priority, control_set_retry_cooldown,
}
use tod_dl.Control.Flags.{
  control_renew_tor_circuits, control_pause_admission, control_resume_admission,
  control_drain_and_stop, control_checkpoint_stop,
}

-- `tor_error` is what the Tor control port answers if it is asked.
unfoldable pub control_action :
    (String → String) → Clock → Option String → Request → Controller → Controller × Response
unfolding reject
control_action sha256_hex clock tor_error request c =
    if is_text "retry_now" request.action
    then control_retry_now sha256_hex clock request c
    else if is_text "exclude_item" request.action
    then control_exclude_item sha256_hex clock request c
    else if is_text "resume_new_generation" request.action
    then control_resume_new_generation sha256_hex clock request c
    else if is_text "retry_access_denied" request.action
    then control_retry_access_denied sha256_hex clock request c
    else if is_text "set_item_priority" request.action
    then control_set_item_priority sha256_hex clock request c
    else if is_text "set_retry_cooldown" request.action
    then control_set_retry_cooldown sha256_hex clock request c
    else if is_text "renew_tor_circuits" request.action
    then control_renew_tor_circuits clock tor_error request c
    else if is_text "pause_admission" request.action
    then control_pause_admission clock request c
    else if is_text "resume_admission" request.action
    then control_resume_admission clock request c
    else if is_text "drain_and_stop" request.action
    then control_drain_and_stop clock request c
    else if is_text "checkpoint_stop" request.action
    then control_checkpoint_stop clock request c
    else (c, reject "action is unavailable")

-- What `control_state` tells the monitor.
pub record ControlState : Type 0 where
  pub state_revision : ℕ
  pub lifecycle : String
  pub active_workers : ℕ
  pub actions : List (String × Bool)

-- In `actions` true stands for "available" and false for "unavailable".
unfoldable pub control_state : Controller → ControlState
control_state c =
    let stopping = c.stop_requested in
    let draining = c.drain_requested in
    let paused = c.admission_paused in
    record {
      state_revision = elim c.projection [ none ↦ 0 | some p ↦ p.revision ];
      lifecycle = if stopping then "stopping" else "running";
      active_workers = length c.active;
      actions =
          ("get_control_state", true)
          ∷ ("retry_now", true)
          ∷ ("exclude_item", true)
          ∷ ("retry_access_denied", true)
          ∷ ("set_item_priority", true)
          ∷ ("set_retry_cooldown", true)
          ∷ ("renew_tor_circuits", ltb 0 c.tor_newnym_interval && not stopping)
          ∷ ("pause_admission", not stopping && not draining && not paused)
          ∷ ("resume_admission", not stopping && not draining && paused)
          ∷ ("drain_and_stop", not stopping && not draining)
          ∷ ("checkpoint_stop", not stopping)
          ∷ [];
    }
