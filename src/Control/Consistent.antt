-- ===== src/Control/Consistent.antt =====
-- The actions on the run, and with them all of `control_action`, keep the controller consistent.
use tod_dl.Control.Actions.{control_action}
use tod_dl.Control.Consistency.{
  HasDistinctIds, retry_now-IsConsistent, exclude-IsConsistent, resume_new_generation-IsConsistent,
  retry_access_denied-IsConsistent, set_item_priority-IsConsistent, set_retry_cooldown-IsConsistent,
}
use tod_dl.Projection.Sync.Apply.{NoCollision}
use tod_dl.Control.Keeps.{identified-keeps, once-keeps, control_action-keeps}
use tod_dl.Control.{Request}
use tod_dl.Control.Newnym.{begin_newnym, finish_newnym, request_newnym, send_newnym}
use tod_dl.Control.Flags.{
  conclude, decide_pause, tell_control, tell_stopping, wake, Decision, refused, decide_checkpoint,
  decide_drain, decide_resume, renew, control_checkpoint_stop, control_drain_and_stop,
  control_pause_admission, control_renew_tor_circuits, control_resume_admission,
}
use tod_dl.Manifest.Rows.{update_urls-nil}
use tod_dl.Controller.Revised.{set_revision-IsConsistent, notify-IsConsistent}
use tod_dl.Control.Commit.{record_request-Recorded}
use tod_dl.Control.Requests.{Response, record_request}
use tod_dl.Controller.Consistent.{IsConsistent}
use tod_dl.Manifest.{Clock, revision_of}
use tod_dl.Controller.{Controller, set_projection_revision}
use tod_dl.Base.{
  refl, String, ◌≡◌, [], ◌∙◌, sym, ap, if◌then◌else◌, if_elim, ◌||◌, Option, not, arith,
}

-- The flags and the renewals are no part of what the summary is about.
record SameRun (c c' : Controller) : Type 0 where
  same_run : c'.run_id ≡ c.run_id
  same_items : c'.db.run_items ≡ c.db.run_items
  same_rows : c'.db.downloads ≡ c.db.downloads
  same_projection : c'.projection ≡ c.projection

module _ (sha256_hex : String → String) (clock : Clock) (c : Controller)
    (h : IsConsistent sha256_hex c) where
  abbrev AnswersWell : Controller × Response → Type 0
  AnswersWell r = IsConsistent sha256_hex r.0

  record_request-IsConsistent :
      (id session action outcome reason : String) (c' : Controller)
      → SameRun c c'
      → let r = record_request clock id session action outcome reason c' in
        IsConsistent sha256_hex (set_projection_revision r.1 r.0)
  record_request-IsConsistent id session action outcome reason c' same =
      let r = record_request-Recorded clock id session action outcome reason c' in
      set_revision-IsConsistent sha256_hex c _ [] (λ row. row) _ (λ row. refl) h
        (r.same_run ∙ same.same_run) (r.same_items ∙ same.same_items)
        (r.same_rows ∙ same.same_rows ∙ sym (update_urls-nil (λ row. row) c.db.downloads))
        (ap (λ run. revision_of run (record_request clock id session action outcome reason c').0.db)
            (sym same.same_run)
          ∙ r.at)
        (r.same_projection ∙ same.same_projection) (λ p i. rw update_urls-nil i)

  wake-IsConsistent :
      (c' : Controller) → IsConsistent sha256_hex c' → IsConsistent sha256_hex (wake c')
  unfolding wake
  wake-IsConsistent c' k = record { keyed = k.keyed; synced = k.synced }

  tell_control-IsConsistent :
      (reason : String) (c' : Controller)
      → IsConsistent sha256_hex c'
      → IsConsistent sha256_hex (tell_control reason c')
  unfolding tell_control
  tell_control-IsConsistent reason c' k = notify-IsConsistent sha256_hex _ c' k

  tell_stopping-IsConsistent :
      (reason : String) (c' : Controller)
      → IsConsistent sha256_hex c'
      → IsConsistent sha256_hex (tell_stopping reason c')
  unfolding tell_stopping
  tell_stopping-IsConsistent reason c' k = notify-IsConsistent sha256_hex _ c' k

  conclude-IsConsistent :
      (id session action : String) (decision : Decision) (announce : Controller → Controller)
      → SameRun c decision.after
      → ((c' : Controller) → IsConsistent sha256_hex c' → IsConsistent sha256_hex (announce c'))
      → AnswersWell (conclude clock id session action decision announce)
  unfolding conclude
  conclude-IsConsistent id session action decision announce same keeps =
      let outcome = if decision.done then "completed" else "rejected" in
      let done =
        record_request-IsConsistent id session action outcome decision.reason decision.after same in
      if_elim (IsConsistent sha256_hex) decision.done _ _ (λ _. keeps _ done) (λ _. done)

  abbrev SameAfter : Decision → Type 0
  SameAfter decision = SameRun c decision.after

  itself : SameRun c c
  itself = record { same_run = refl; same_items = refl; same_rows = refl; same_projection = refl }

  decide_pause-SameRun : SameAfter (decide_pause c)
  unfolding decide_pause refused
  decide_pause-SameRun =
      if_elim SameAfter (c.stop_requested || c.drain_requested) _ _ (λ _. itself)
        λ _.
          if_elim SameAfter c.admission_paused _ _ (λ _. itself)
            λ _. record {
              same_run = refl;
              same_items = refl;
              same_rows = refl;
              same_projection = refl;
            }

  decide_resume-SameRun : SameAfter (decide_resume c)
  unfolding decide_resume refused
  decide_resume-SameRun =
      if_elim SameAfter (not c.admission_paused) _ _ (λ _. itself)
        λ _. record { same_run = refl; same_items = refl; same_rows = refl; same_projection = refl }

  decide_drain-SameRun : SameAfter (decide_drain c)
  unfolding decide_drain refused
  decide_drain-SameRun =
      if_elim SameAfter (c.stop_requested || c.drain_requested) _ _ (λ _. itself)
        λ _. record { same_run = refl; same_items = refl; same_rows = refl; same_projection = refl }

  decide_checkpoint-SameRun : SameAfter (decide_checkpoint c)
  unfolding decide_checkpoint refused
  decide_checkpoint-SameRun =
      if_elim SameAfter c.stop_requested _ _ (λ _. itself)
        λ _. record { same_run = refl; same_items = refl; same_rows = refl; same_projection = refl }

  request_newnym-SameRun :
      (tor_error : Option String) (id session : String)
      → SameRun c (request_newnym clock tor_error id session c).0
  unfolding request_newnym begin_newnym finish_newnym send_newnym
  request_newnym-SameRun tor_error id session = record {
    same_run = ground arith;
    same_items = ground arith;
    same_rows = ground arith;
    same_projection = ground arith;
  }

  renew-IsConsistent :
      (tor_error : Option String) (id session : String)
      → AnswersWell (renew clock tor_error id session c)
  unfolding renew
  renew-IsConsistent tor_error id session =
      notify-IsConsistent sha256_hex _ _ (
        record_request-IsConsistent id session _ _ _ _
          (request_newnym-SameRun tor_error id session))

  module _ (request : Request) where
    renew_tor_circuits-IsConsistent :
        (tor_error : Option String)
        → AnswersWell (control_renew_tor_circuits clock tor_error request c)
    unfolding control_renew_tor_circuits
    renew_tor_circuits-IsConsistent tor_error =
        identified-keeps AnswersWell _ _ c _ (λ e. h)
          λ id session _.
            once-keeps AnswersWell id c _ (λ _ _. h) λ _. renew-IsConsistent tor_error id session

    pause_admission-IsConsistent : AnswersWell (control_pause_admission clock request c)
    unfolding control_pause_admission
    pause_admission-IsConsistent =
        identified-keeps AnswersWell _ _ c _ (λ e. h)
          λ id session _.
            once-keeps AnswersWell id c _ (λ _ _. h)
              λ _.
                conclude-IsConsistent id session _ (decide_pause c) _ decide_pause-SameRun
                  (tell_control-IsConsistent _)

    resume_admission-IsConsistent : AnswersWell (control_resume_admission clock request c)
    unfolding control_resume_admission
    resume_admission-IsConsistent =
        identified-keeps AnswersWell _ _ c _ (λ e. h)
          λ id session _.
            once-keeps AnswersWell id c _ (λ _ _. h)
              λ _.
                conclude-IsConsistent id session "resume_admission" (decide_resume c)
                  (λ synced. wake (tell_control (decide_resume c).reason synced))
                  decide_resume-SameRun
                  (λ c' k. wake-IsConsistent _ (tell_control-IsConsistent _ c' k))

    drain_and_stop-IsConsistent : AnswersWell (control_drain_and_stop clock request c)
    unfolding control_drain_and_stop
    drain_and_stop-IsConsistent =
        identified-keeps AnswersWell _ _ c _ (λ e. h)
          λ id session _.
            once-keeps AnswersWell id c _ (λ _ _. h)
              λ _.
                conclude-IsConsistent id session "drain_and_stop" (decide_drain c)
                  (λ synced. wake (
                    tell_control (decide_drain c).reason
                      (tell_stopping "drain and stop requested by operator" synced)))
                  decide_drain-SameRun
                  (λ c' k.
                    wake-IsConsistent _
                      (tell_control-IsConsistent _ _ (tell_stopping-IsConsistent _ c' k)))

    checkpoint_stop-IsConsistent : AnswersWell (control_checkpoint_stop clock request c)
    unfolding control_checkpoint_stop
    checkpoint_stop-IsConsistent =
        identified-keeps AnswersWell _ _ c _ (λ e. h)
          λ id session _.
            once-keeps AnswersWell id c _ (λ _ _. h)
              λ _.
                conclude-IsConsistent id session "checkpoint_stop" (decide_checkpoint c)
                  (λ synced. wake (
                    tell_control (decide_checkpoint c).reason
                      (tell_stopping "checkpoint and stop requested by operator" synced)))
                  decide_checkpoint-SameRun
                  (λ c' k.
                    wake-IsConsistent _
                      (tell_control-IsConsistent _ _ (tell_stopping-IsConsistent _ c' k)))

-- Whatever the request, its answer leaves the monitor's summary in step with the manifest, if no
-- item is requested twice and no two urls share a hash.
pub control_action-IsConsistent :
    (sha256_hex : String → String)
    → NoCollision sha256_hex
    → (clock : Clock) (tor_error : Option String) (request : Request) (c : Controller)
    → HasDistinctIds request
    → IsConsistent sha256_hex c
    → IsConsistent sha256_hex (control_action sha256_hex clock tor_error request c).0
control_action-IsConsistent sha256_hex no_collision clock tor_error request c d h =
    control_action-keeps (λ r. IsConsistent sha256_hex r.0) sha256_hex clock tor_error request c
      (retry_now-IsConsistent sha256_hex no_collision clock request c h)
      (exclude-IsConsistent sha256_hex no_collision clock request c h d)
      (resume_new_generation-IsConsistent sha256_hex no_collision clock request c h d)
      (retry_access_denied-IsConsistent sha256_hex no_collision clock request c h d)
      (set_item_priority-IsConsistent sha256_hex no_collision clock request c h)
      (set_retry_cooldown-IsConsistent sha256_hex no_collision clock request c h d)
      (renew_tor_circuits-IsConsistent sha256_hex clock c h request tor_error)
      (pause_admission-IsConsistent sha256_hex clock c h request)
      (resume_admission-IsConsistent sha256_hex clock c h request)
      (drain_and_stop-IsConsistent sha256_hex clock c h request)
      (checkpoint_stop-IsConsistent sha256_hex clock c h request) h
