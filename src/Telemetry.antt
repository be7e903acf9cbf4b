-- ===== src/Telemetry.antt =====
-- The telemetry sidecar (src/download_telemetry.py): the calls that the controller makes of its
-- publisher, and the sanitizing of their texts.
pub mod Message
use tod_dl.Base.{ℕ, String, Option, none, some, List, [], ◌∷◌, ◌++◌}

-- What the controller calls on `TelemetryPublisher`, in order. `item_event` is `event` with the url
-- and the worker that it is about.
pub data Call : Type 0 where
  event : String → String → String → Call
  set_lifecycle : String → String → Call
  request_publish : Call
  item_event : String → String → String → String → ℕ → Call
  set_active : String → ℕ → ℕ → String → Call
  update_phase : String → String → Call
  set_validation : String → ℕ → ℕ → Call
  clear_validation clear_active : String → Call

-- `if self.telemetry: self.telemetry.…`
unfoldable pub tell : Call → Option (List Call) → Option (List Call)
tell call none = none
tell call (some calls) = some (calls ++ call ∷ [])
