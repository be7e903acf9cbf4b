-- ===== src/Control.antt =====
-- The controller's confirmed actions (`control_action` and the methods that it calls, src/tod-dl.py).
pub mod Requests
pub mod Keeps
pub mod Consistency
pub mod Rows
pub mod Replay
pub mod Advertised
pub mod Recorded
pub mod Consistent
pub mod Commit
pub mod Newnym
pub mod Flags
pub mod Actions
pub mod Items
use tod_dl.Json.{Json}

-- A request as the control server hands it over; a key that is missing is `null`.
pub record Request : Type 0 where
  pub request_id : Json
  pub session_id : Json
  pub action : Json
  pub parameters : Json
