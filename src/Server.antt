-- ===== src/Server.antt =====
-- The confirmations of the control server: `_prepare_confirmation` and `_confirmed_action` of
-- `ControlServer` (src/controller.py).
pub mod Confirmations
use tod_dl.Control.Requests.{Response}
use tod_dl.Json.{Fields, get_field, id_list, Json, int_between, items_of, text_of, is_text}
use tod_dl.Base.{
  true, false, ℕ, String, Bool, List, Option, contains, if◌then◌else◌, some, ℤ, ◌∷◌, [], none,
  str_eq, ◌||◌, decimal, ◌&&◌, length, not, negsuc, ◌<>◌, pos, insert, ◌+◌, lookup, erase, leb,
}

-- What a method returns, or the exception that leaves it.
pub data Reply (A : Type 0) : Type 0 where
  answered : A → Reply A
  control_error : String → Reply A
  type_error : Reply A

-- The tuple that waits under a nonce.
pub record Prepared : Type 0 where
  pub action : String
  pub expires_at : ℕ
  pub item_ids : Option (List String)
  pub priority : Option ℤ
  pub cooldown_s : Option ℤ

-- The "confirmation" of the answer.
pub record Confirmation : Type 0 where
  pub nonce : String
  pub action : String
  pub expires_in_s : ℕ
  pub scope : String

-- `confirmations` and `completed` of the server, and the state of the controller behind it.
pub record Server (S : Type 0) : Type 0 where
  pub confirmations : List (String × Prepared)
  pub completed : List (String × Response)
  pub controller : S

abbrev item_actions : List String
item_actions =
    "exclude_item" ∷ "resume_new_generation" ∷ "retry_access_denied" ∷ "set_item_priority"
    ∷ "set_retry_cooldown" ∷ []

abbrev admission_actions : List String
admission_actions =
    "pause_admission" ∷ "resume_admission" ∷ "drain_and_stop" ∷ "checkpoint_stop" ∷ []

unfoldable pub is_action : String → Bool
is_action action =
    contains action item_actions
    || contains action admission_actions
    || str_eq action "retry_now"
    || str_eq action "renew_tor_circuits"

-- key in parameters
unfoldable pub has_key : String → Fields → Bool
has_key key Fields.end = false
has_key key (Fields.field name value fields) = str_eq name key || has_key key fields

-- A value that an action needs, if it needs one, and the text of the error where it is missing.
unfoldable pub needed : {A : Type 0} → Bool → Option A → Option (Option A)
needed false o = some none
needed true none = none
needed true (some a) = some (some a)

unfoldable pub scope_of : String → Option (List String) → String
scope_of action ids =
    if str_eq action "retry_now" || contains action item_actions
    then elim ids [
      | none ↦ "retryable items in the immutable selected run"
      | some listed ↦ decimal (length listed) <> " selected item(s) in the immutable selected run"
    ]
    else if contains action admission_actions
    then "the immutable selected run's admission and active transfers"
    else "future Tor streams only"

-- {**parameters, key: value} where there is a value
unfoldable pub with_entry : {A : Type 0} → String → (A → Json) → Option A → Fields → Fields
with_entry key json none fields = fields
with_entry key json (some value) fields = Fields.field key (json value) fields

unfoldable pub is_outcome : String → Bool
is_outcome outcome = contains outcome ("completed" ∷ "rejected" ∷ "failed" ∷ [])

module _ {S : Type 0} where
  -- The checks of the parameters, each with the exception that it raises, then the new nonce.
  unfoldable pub prepare_action :
      String → ℕ → String → Fields → Server S → Server S × Reply Confirmation
  unfolding is_action has_key needed scope_of id_list int_between get_field
  prepare_action nonce time action fields server =
      let wants_ids =
        contains action item_actions || (str_eq action "retry_now" && has_key "item_ids" fields) in
      if not (is_action action)
      then (server, control_error "action is unavailable")
      else elim (needed wants_ids (id_list (get_field "item_ids" fields))) [
        | none ↦ (server, control_error "item_ids must be a non-empty list of strings")
        | some ids ↦
            elim (needed (str_eq action "set_item_priority")
              (int_between (negsuc 4) (pos 5) (get_field "priority" fields))) [
                | none ↦ (server, control_error "priority must be an integer between -5 and 5")
                | some priority ↦
                    elim (needed (str_eq action "set_retry_cooldown")
                      (int_between (pos 0) (pos 3600) (get_field "cooldown_s" fields))) [
                        | none ↦ (
                          server,
                          control_error "cooldown_s must be an integer between 0 and 3600",
                        )
                        | some cooldown_s ↦ (
                          record server {
                            confirmations =
                                insert nonce
                                  (record {
                                    action = action;
                                    expires_at = time + 60;
                                    item_ids = ids;
                                    priority = priority;
                                    cooldown_s = cooldown_s;
                                  })
                                  server.confirmations;
                          },
                          answered (record {
                            nonce = nonce;
                            action = action;
                            expires_in_s = 60;
                            scope = scope_of action ids;
                          }),
                        )
                      ]
              ]
      ]

  -- `nonce` is the token that `secrets` makes and `time` the monotonic clock. A list or an object is
  -- not hashable, so that its test against the set of actions raises a TypeError.
  unfoldable pub prepare_confirmation : String → ℕ → Json → Server S → Server S × Reply Confirmation
  unfolding prepare_action get_field
  prepare_confirmation nonce time (Json.obj fields) server = elim (get_field "action" fields) [
    | Json.str action ↦ prepare_action nonce time action fields server
    | Json.arr items ↦ (server, type_error)
    | Json.obj others ↦ (server, type_error)
    | _ ↦ (server, control_error "action is unavailable")
  ]
  prepare_confirmation nonce time _ server =
      (server, control_error "confirmation parameters must be an object")

  -- The answer is kept under the request's identifier, if it is one.
  unfoldable pub finish : String → String → Response → Server S → Server S × Reply Response
  unfolding is_outcome
  finish action request_id response server =
      if is_outcome response.outcome
      then (
        record server { completed = insert request_id response server.completed },
        answered response,
      )
      else (server, control_error ("controller returned an invalid " <> action <> " outcome"))

  -- `handler request_id action parameters` is the controller's action.
  module _ (handler : String → String → Fields → S → S × Response) where
    unfoldable pub run_prepared :
        String → String → Prepared → Fields → Server S → Server S × Reply Response
    unfolding with_entry finish
    run_prepared action request_id prepared fields server =
        let given = with_entry "cooldown_s" Json.int prepared.cooldown_s (
          with_entry "priority" Json.int prepared.priority
            (with_entry "item_ids" (λ ids. Json.arr (items_of ids)) prepared.item_ids fields)) in
        let (after, response) = handler request_id action given server.controller in
        finish action request_id response (record server { controller = after })

    unfoldable pub confirm_fields :
        ℕ → String → String → Fields → Server S → Server S × Reply Response
    unfolding run_prepared text_of get_field is_text
    confirm_fields time action request_id fields server =
        elim (lookup request_id server.completed) [
          | some response ↦ (server, answered response)
          | none ↦ elim (text_of (get_field "nonce" fields)) [
            | none ↦ (server, control_error (action <> " confirmation is invalid or expired"))
            | some nonce ↦
                let popped = record server { confirmations = erase nonce server.confirmations } in
                elim (lookup nonce server.confirmations) [
                  | none ↦ (popped, control_error (action <> " confirmation is invalid or expired"))
                  | some prepared ↦
                      if str_eq prepared.action action
                        && leb time prepared.expires_at
                        && is_text action (get_field "confirmation" fields)
                      then run_prepared action request_id prepared fields popped
                      else (popped, control_error (action <> " confirmation is invalid or expired"))
                ]
          ]
        ]

    unfoldable pub confirmed_action :
        ℕ → String → String → Json → Server S → Server S × Reply Response
    unfolding confirm_fields
    confirmed_action time action request_id (Json.obj fields) server =
        confirm_fields time action request_id fields server
    confirmed_action time action request_id _ server =
        (server, control_error (action <> " parameters must be an object"))
