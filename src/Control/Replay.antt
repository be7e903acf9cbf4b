-- ===== src/Control/Replay.antt =====
-- A request is carried out at most once: what `control_action` can answer, and what stands in the
-- record of requests afterwards.
use tod_dl.Control.Actions.{control_action}
use tod_dl.Control.Flags.{
  control_renew_tor_circuits, control_pause_admission, control_resume_admission,
  control_drain_and_stop, control_checkpoint_stop, decide_pause, decide_resume, decide_drain,
  decide_checkpoint, refused, tell_control, tell_stopping, wake, renew, Decision, conclude,
}
use tod_dl.Control.Keeps.{
  identified-keeps, given-keeps, once-keeps, control_action-chooses, action_names,
}
use tod_dl.Control.Items.{
  control_exclude_item, control_resume_new_generation, control_retry_access_denied,
  control_set_item_priority, control_set_retry_cooldown, control_retry_now, item_action, prioritize,
  retry_items, is_null, bad_ids,
}
use tod_dl.Json.{get, text_of, id_list, is_text, int_between}
use tod_dl.Controller.{Controller, notify}
use tod_dl.Control.{Request}
use tod_dl.Manifest.{Clock, ControlRequest, find_request, Row}
use tod_dl.Control.Requests.{Response, reject, replay, identified, given, once}
use mathlib.Core.Option.{Option, none, some}
use tod_dl.Projection.{Item}
use tod_dl.Base.{
  any, [], ◌∷◌, true, false, pos, negsuc, refl, String, ◌≡◌, List, ℕ, ℤ, arith, if_elim, ◌⊎◌, inr,
  inl,
}

-- Nothing is recorded: the request itself is at fault.
abbrev pub IsFaulty : Response → Type 0
IsFaulty answer = (answer.outcome ≡ "rejected") × (answer.state_revision ≡ none)

-- The recorded outcome, reason and revision, without the outcomes of the items.
abbrev pub RepeatsRecord : ControlRequest → Response → Type 0
RepeatsRecord r answer =
    (answer.outcome ≡ r.outcome)
    × (answer.reason ≡ r.reason)
    × (answer.state_revision ≡ some r.state_revision)

-- The actions that take a list of items.
abbrev list_actions : List String
list_actions =
    "exclude_item" ∷ "resume_new_generation" ∷ "retry_access_denied" ∷ "set_item_priority"
    ∷ "set_retry_cooldown" ∷ []

-- What is wrong with a request, apart from its identifier.
pub data IsIllFormed (request : Request) : Type 0 where
  no_session : text_of request.session_id ≡ none → IsIllFormed request
  unknown_action :
      any (λ name. is_text name request.action) action_names ≡ false → IsIllFormed request
  no_list :
      any (λ name. is_text name request.action) list_actions ≡ true
      → id_list (get "item_ids" request.parameters) ≡ none
      → IsIllFormed request
  no_list_or_null :
      is_text "retry_now" request.action ≡ true
      → is_null (get "item_ids" request.parameters) ≡ false
      → id_list (get "item_ids" request.parameters) ≡ none
      → IsIllFormed request
  no_priority :
      is_text "set_item_priority" request.action ≡ true
      → int_between (negsuc 4) (pos 5) (get "priority" request.parameters) ≡ none
      → IsIllFormed request
  no_cooldown :
      is_text "set_retry_cooldown" request.action ≡ true
      → int_between (pos 0) (pos 3600) (get "cooldown_s" request.parameters) ≡ none
      → IsIllFormed request

module _ (sha256_hex : String → String) (clock : Clock) (tor_error : Option String)
    (request : Request) (c : Controller) (P : Controller × Response → Type 0) where
  -- A body that is run for the identifier of a request that is not recorded.
  abbrev pub IsFresh : (String → String → Controller × Response) → Type 0
  IsFresh body =
      (id session : String)
      → text_of request.request_id ≡ some id
      → find_request id c.db ≡ none
      → P (body id session)

  -- The identifier, or something else of the request, is at fault.
  abbrev pub HasFault : Type 0
  HasFault = (text_of request.request_id ≡ none) ⊎ IsIllFormed request

  module _ (faulty : (reason : String) → HasFault → P (c, reject reason))
      (replayed : (id : String) (r : ControlRequest)
        → text_of request.request_id ≡ some id
        → find_request id c.db ≡ some r
        → P (c, replay r)) where
    unidentified :
        (text_of request.request_id ≡ none) ⊎ (text_of request.session_id ≡ none)
        → P (c, reject "invalid control request")
    unidentified (inl e) = faulty "invalid control request" (inl e)
    unidentified (inr e) = faulty "invalid control request" (inr (no_session e))

    guarded :
        (body : String → String → Controller × Response)
        → IsFresh body
        → P (
            identified request.request_id request.session_id c
              λ id session. once id c (body id session))
    guarded body fresh =
        identified-keeps P _ _ c _ unidentified
          λ id session e. once-keeps P id c _ (λ r. replayed id r e) (fresh id session e)

    guarded_by :
        {A : Type 0} (o : Option A) (reason : String)
        (body : A → String → String → Controller × Response)
        → (o ≡ none → IsIllFormed request)
        → ((a : A) → IsFresh (body a))
        → P (
            identified request.request_id request.session_id c
              λ id session. given o (c, reject reason) λ a. once id c (body a id session))
    guarded_by o reason body wrong fresh = identified-keeps P _ _ c _ unidentified λ id session e.
        given-keeps P o _ _ (λ f. faulty reason (inr (wrong f)))
          λ a _. once-keeps P id c _ (λ r. replayed id r e) (fresh a id session e)

    guarded_by_both :
        {A B : Type 0} (o : Option A) (q : Option B) (reason other : String)
        (body : A → B → String → String → Controller × Response)
        → (o ≡ none → IsIllFormed request)
        → (q ≡ none → IsIllFormed request)
        → ((a : A) (b : B) → IsFresh (body a b))
        → P (
            identified request.request_id request.session_id c λ id session.
              given o
                (c, reject reason)
                λ a. given q (c, reject other) λ b. once id c (body a b id session))
    guarded_by_both o q reason other body wrong wrong_too fresh =
        identified-keeps P _ _ c _ unidentified λ id session e.
          given-keeps P o _ _ (λ f. faulty reason (inr (wrong f)))
            λ a _.
              given-keeps P q _ _ (λ f. faulty other (inr (wrong_too f)))
                λ b _. once-keeps P id c _ (λ r. replayed id r e) (fresh a b id session e)

    -- Every answer is a fault, a replay, or that of a body run for a request that is not recorded.
    pub control_action-answers :
        ((action : String) (ids : List String) (check : Row → Option String) (accepted : String)
            (set : Row → Row) (change : Item → Item) (reason_of : ℕ → ℕ → String) (message : String)
          → IsFresh λ id session.
            item_action sha256_hex clock id session action ids check accepted set change reason_of
              message c)
        → ((ids : List String) (priority : ℤ)
            → IsFresh λ id session. prioritize sha256_hex clock id session ids priority c)
        → ((ids : Option (List String))
            → IsFresh λ id session. retry_items sha256_hex clock id session ids c)
        → (IsFresh λ id session. renew clock tor_error id session c)
        → ((action : String) (decision : Decision) (announce : Controller → Controller)
            → decision.after.db ≡ c.db
            → ((c' : Controller) → (announce c').db ≡ c'.db)
            → IsFresh λ id session. conclude clock id session action decision announce)
        → P (control_action sha256_hex clock tor_error request c)
    unfolding control_exclude_item control_resume_new_generation control_retry_access_denied
        control_set_item_priority control_set_retry_cooldown control_retry_now
        control_renew_tor_circuits control_pause_admission control_resume_admission
        control_drain_and_stop control_checkpoint_stop decide_pause decide_resume decide_drain
        decide_checkpoint refused tell_control tell_stopping wake notify
    control_action-answers on_items on_priority on_retry on_renewal on_decision =
        control_action-chooses P sha256_hex clock tor_error request c
          (λ named. identified-keeps P _ _ c _ unidentified λ id session e.
            if_elim P (is_null (get "item_ids" request.parameters)) _ _
              (λ _. once-keeps P id c _ (λ r. replayed id r e) (on_retry none id session e))
              (λ some_list.
                given-keeps P (id_list (get "item_ids" request.parameters)) _ _
                  (λ f. faulty bad_ids (inr (no_list_or_null named some_list f)))
                  λ ids _.
                    once-keeps P id c _ (λ r. replayed id r e) (on_retry (some ids) id session e)))
          (λ e.
            guarded_by _ _ _ (no_list (unfold any in ground (arith, e)))
              λ ids. on_items _ ids _ _ _ _ _ _)
          (λ e.
            guarded_by _ _ _ (no_list (unfold any in ground (arith, e)))
              λ ids. on_items _ ids _ _ _ _ _ _)
          (λ e.
            guarded_by _ _ _ (no_list (unfold any in ground (arith, e)))
              λ ids. on_items _ ids _ _ _ _ _ _)
          (λ e.
            guarded_by_both _ _ _ _ _ (no_list (unfold any in ground (arith, e))) (no_priority e)
              on_priority)
          (λ e.
            guarded_by_both _ _ _ _ _ (no_list (unfold any in ground (arith, e))) (no_cooldown e)
              λ ids cooldown_s. on_items _ ids _ _ _ _ _ _)
          (λ _. guarded _ on_renewal)
          (λ _. guarded _ (
            on_decision "pause_admission" (decide_pause c) (tell_control (decide_pause c).reason)
              (ground arith) (λ c'. refl)))
          (λ _. guarded _ (
            on_decision "resume_admission" (decide_resume c)
              (λ synced. wake (tell_control (decide_resume c).reason synced)) (ground arith)
              (λ c'. refl)))
          (λ _. guarded _ (
            on_decision "drain_and_stop" (decide_drain c)
              (λ synced. wake (
                tell_control (decide_drain c).reason
                  (tell_stopping "drain and stop requested by operator" synced)))
              (ground arith) (λ c'. refl)))
          (λ _. guarded _ (
            on_decision "checkpoint_stop" (decide_checkpoint c)
              (λ synced. wake (
                tell_control (decide_checkpoint c).reason
                  (tell_stopping "checkpoint and stop requested by operator" synced)))
              (ground arith) (λ c'. refl)))
          (λ unknown. faulty "action is unavailable" (inr (unknown_action unknown)))

module _ (sha256_hex : String → String) (clock : Clock) (tor_error : Option String)
    (request : Request) (c : Controller) where
  -- A request that is recorded changes nothing. It is answered with the recorded outcome, reason and
  -- revision, unless it is rejected for a fault that it has: no session, an action that does not
  -- exist, or parameters that are not what the action takes.
  pub control_action-replay :
      (id : String) (r : ControlRequest)
      → text_of request.request_id ≡ some id
      → find_request id c.db ≡ some r
      → let x = control_action sha256_hex clock tor_error request c in
        (x.0 ≡ c) × (RepeatsRecord r x.1 ⊎ (IsFaulty x.1 × IsIllFormed request))
  control_action-replay id r is recorded =
      control_action-answers sha256_hex clock tor_error request c
        (λ x. (x.0 ≡ c) × (RepeatsRecord r x.1 ⊎ (IsFaulty x.1 × IsIllFormed request)))
        (λ reason fault. (refl, inr (unfold reject in (refl, refl), at_fault fault)))
        (λ other q e found. (refl, inl (repeats q (cc (is, recorded, e, found)))))
        (λ _ _ _ _ _ _ _ _ other _ e found. cc (is, recorded, e, found))
        (λ _ _ other _ e found. cc (is, recorded, e, found))
        (λ _ other _ e found. cc (is, recorded, e, found))
        (λ other _ e found. cc (is, recorded, e, found))
        (λ _ _ _ _ _ other _ e found. cc (is, recorded, e, found))
    where
      repeats : (q : ControlRequest) → q ≡ r → RepeatsRecord r (replay q)
      repeats q e = unfold replay in rw e (refl, refl, refl)

      at_fault : (text_of request.request_id ≡ none) ⊎ IsIllFormed request → IsIllFormed request
      at_fault (inl e) = cc (is, e)
      at_fault (inr ill) = ill
