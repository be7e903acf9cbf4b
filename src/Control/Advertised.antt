-- ===== src/Control/Advertised.antt =====
-- What `control_state` advertises, beside what the actions then decide.
use tod_dl.Control.Flags.{decide_pause, decide_drain, decide_checkpoint, decide_resume, refused}
use tod_dl.Control.Actions.{control_state}
use tod_dl.Controller.{Controller}
use tod_dl.Base.{lookup, ◌≡◌, some, arith, ◌&&◌, not, ◌||◌}

module _ (c : Controller) where
  -- Pausing, draining and the checkpoint stop are advertised exactly when they would be done, and
  -- resuming exactly when it would be done and the run neither stops nor drains.
  pub control_state-agrees :
      (lookup "pause_admission" (control_state c).actions ≡ some (decide_pause c).done)
      × (lookup "drain_and_stop" (control_state c).actions ≡ some (decide_drain c).done)
      × (lookup "checkpoint_stop" (control_state c).actions ≡ some (decide_checkpoint c).done)
      × (lookup "resume_admission" (control_state c).actions
          ≡ some ((decide_resume c).done && not (c.stop_requested || c.drain_requested)))
  unfolding control_state lookup decide_pause decide_drain decide_checkpoint decide_resume refused
  control_state-agrees = (ground arith, ground arith, ground arith, ground arith)
