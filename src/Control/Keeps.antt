-- ===== src/Control/Keeps.antt =====
-- What holds of every answer that a handler can give holds of the handler's answer.
use tod_dl.Control.Flags.{
  control_renew_tor_circuits, control_pause_admission, control_resume_admission,
  control_drain_and_stop, control_checkpoint_stop,
}
use tod_dl.Control.Items.{
  control_retry_now, control_exclude_item, control_resume_new_generation,
  control_retry_access_denied, control_set_item_priority, control_set_retry_cooldown,
}
use tod_dl.Control.{Request}
use tod_dl.Manifest.{Clock, ControlRequest, find_request}
use tod_dl.Json.{Json, text_of, is_text}
use tod_dl.Control.Actions.{control_action}
use tod_dl.Control.Requests.{Response, given, identified, once, reject, replay}
use tod_dl.Controller.{Controller}
use tod_dl.Base.{
  refl, true, false, String, Option, ◌≡◌, some, none, Option-cases, inl, inr, if_elim, any, List,
  [], ◌∷◌, ◌⊎◌,
}

-- The actions that `control_action` knows.
abbrev pub action_names : List String
action_names =
    "retry_now" ∷ "exclude_item" ∷ "resume_new_generation" ∷ "retry_access_denied"
    ∷ "set_item_priority" ∷ "set_retry_cooldown" ∷ "renew_tor_circuits" ∷ "pause_admission"
    ∷ "resume_admission" ∷ "drain_and_stop" ∷ "checkpoint_stop" ∷ []

-- `P` speaks of the controller afterwards and of the answer.
module _ (P : Controller × Response → Type 0) where
  pub given-keeps :
      {A : Type 0} (o : Option A) (answer : Controller × Response)
      (body : A → Controller × Response)
      → (o ≡ none → P answer)
      → ((a : A) → o ≡ some a → P (body a))
      → P (given o answer body)
  unfolding given
  given-keeps none answer body h k = h refl
  given-keeps (some a) answer body h k = k a refl

  pub identified-keeps :
      (a b : Json) (c : Controller) (body : String → String → Controller × Response)
      → ((text_of a ≡ none) ⊎ (text_of b ≡ none) → P (c, reject "invalid control request"))
      → ((id session : String) → text_of a ≡ some id → P (body id session))
      → P (identified a b c body)
  unfolding identified
  identified-keeps a b c body h k =
      given-keeps (text_of a) _ _ (λ e. h (inl e))
        (λ id e. given-keeps (text_of b) _ (body id) (λ f. h (inr f)) (λ session _. k id session e))

  pub once-keeps :
      (id : String) (c : Controller) (fresh : Controller × Response)
      → ((r : ControlRequest) → find_request id c.db ≡ some r → P (c, replay r))
      → (find_request id c.db ≡ none → P fresh)
      → P (once id c fresh)
  unfolding once
  once-keeps id c fresh h k = elim (Option-cases (find_request id c.db)) [
    | inl e ↦ rw e (k e)
    | inr (r, e) ↦ rw e (h r e)
  ]

  -- The handlers that `control_action` chooses from, by the name of the action.
  pub control_action-chooses :
      (sha256_hex : String → String) (clock : Clock) (tor_error : Option String) (request : Request)
      (c : Controller)
      → let named = λ (name : String). is_text name request.action ≡ true in
        let other = λ (name : String). is_text name request.action ≡ false in
        (named "retry_now" → P (control_retry_now sha256_hex clock request c))
        → (named "exclude_item" → P (control_exclude_item sha256_hex clock request c))
        → (named "resume_new_generation"
            → P (control_resume_new_generation sha256_hex clock request c))
        → (named "retry_access_denied" → P (control_retry_access_denied sha256_hex clock request c))
        → (named "set_item_priority" → P (control_set_item_priority sha256_hex clock request c))
        → (named "set_retry_cooldown" → P (control_set_retry_cooldown sha256_hex clock request c))
        → (named "renew_tor_circuits" → P (control_renew_tor_circuits clock tor_error request c))
        → (named "pause_admission" → P (control_pause_admission clock request c))
        → (named "resume_admission" → P (control_resume_admission clock request c))
        → (named "drain_and_stop" → P (control_drain_and_stop clock request c))
        → (named "checkpoint_stop" → P (control_checkpoint_stop clock request c))
        → (any (λ name. is_text name request.action) action_names ≡ false
            → P (c, reject "action is unavailable"))
        → P (control_action sha256_hex clock tor_error request c)
  unfolding control_action any
  control_action-chooses sha256_hex clock tor_error request c a1 a2 a3 a4 a5 a6 a7 a8 a9 a10 a11
        a12 =
      if_elim P _ _ _ a1 λ e1. if_elim P _ _ _ a2 λ e2. if_elim P _ _ _ a3 λ e3.
        if_elim P _ _ _ a4 λ e4. if_elim P _ _ _ a5 λ e5. if_elim P _ _ _ a6 λ e6.
          if_elim P _ _ _ a7 λ e7. if_elim P _ _ _ a8 λ e8. if_elim P _ _ _ a9 λ e9.
            if_elim P _ _ _ a10 λ e10.
              if_elim P _ _ _ a11
                λ e11. a12 (rw (e1, e2, e3, e4, e5, e6, e7, e8, e9, e10, e11) refl)

  -- The same, whatever the action is named.
  pub control_action-keeps :
      (sha256_hex : String → String) (clock : Clock) (tor_error : Option String) (request : Request)
      (c : Controller)
      → P (control_retry_now sha256_hex clock request c)
      → P (control_exclude_item sha256_hex clock request c)
      → P (control_resume_new_generation sha256_hex clock request c)
      → P (control_retry_access_denied sha256_hex clock request c)
      → P (control_set_item_priority sha256_hex clock request c)
      → P (control_set_retry_cooldown sha256_hex clock request c)
      → P (control_renew_tor_circuits clock tor_error request c)
      → P (control_pause_admission clock request c)
      → P (control_resume_admission clock request c)
      → P (control_drain_and_stop clock request c)
      → P (control_checkpoint_stop clock request c)
      → P (c, reject "action is unavailable")
      → P (control_action sha256_hex clock tor_error request c)
  control_action-keeps sha256_hex clock tor_error request c a1 a2 a3 a4 a5 a6 a7 a8 a9 a10 a11 a12 =
      control_action-chooses sha256_hex clock tor_error request c (λ e. a1) (λ e. a2) (λ e. a3)
        (λ e. a4) (λ e. a5) (λ e. a6) (λ e. a7) (λ e. a8) (λ e. a9) (λ e. a10) (λ e. a11) (λ e. a12)
