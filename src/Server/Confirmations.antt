-- ===== src/Server/Confirmations.antt =====
-- What a confirmed action needs, and what it leaves behind.
use tod_dl.Server.{
  Server, Prepared, confirm_fields, Reply, answered, control_error, run_prepared, finish,
  is_outcome,
}
use tod_dl.Control.Requests.{Response}
use tod_dl.Json.{Fields, text_of, get_field, is_text}
use mathlib.Core.Option.{some, none}
use tod_dl.Base.{
  refl, true, String, ℕ, erase, lookup, ◌≡◌, leb, Option-cases, inr, inl, if_elim, eq_iff, arith,
  lookup-erase, str_eq, ◌&&◌, ◌<>◌, insert, lookup-insert, ◌∙◌,
}

module _ {S : Type 0} (action request_id : String) where
  finish-confirmations :
      (response : Response) (server : Server S)
      → (finish action request_id response server).0.confirmations ≡ server.confirmations
  unfolding finish
  finish-confirmations response server =
      if_elim (λ (x : Server S × Reply Response). x.0.confirmations ≡ server.confirmations)
        (is_outcome response.outcome) _ _ (λ _. refl) (λ _. refl)

  finish-completed :
      (r response : Response) (server : Server S)
      → (finish action request_id response server).1 ≡ answered r
      → lookup request_id (finish action request_id response server).0.completed ≡ some r
  unfolding finish
  finish-completed r response server =
      if_elim
        (λ (x : Server S × Reply Response).
          x.1 ≡ answered r → lookup request_id x.0.completed ≡ some r)
        (is_outcome response.outcome)
        (
          record server { completed = insert request_id response server.completed },
          answered response,
        )
        (server, control_error ("controller returned an invalid " <> action <> " outcome"))
        (λ _ e.
          lookup-insert request_id request_id response server.completed
          ∙ rw ((eq_iff request_id request_id).1 refl) (cc e))
        (λ _ e. cc e)

repeated :
    {S : Type 0} (handler : String → String → Fields → S → S × Response) (time : ℕ)
    (action request_id : String) (fields : Fields) (r : Response) (server : Server S)
    → lookup request_id server.completed ≡ some r
    → confirm_fields handler time action request_id fields server ≡ (server, answered r)
unfolding confirm_fields
repeated handler time action request_id fields r server e = rw (e, confirm_fields) refl

module _ {S : Type 0} (handler : String → String → Fields → S → S × Response) (time : ℕ)
    (action request_id : String) (fields : Fields) (server : Server S) where
  abbrev popped : String → Server S
  popped nonce = record server { confirmations = erase nonce server.confirmations }

  -- The nonce is that of a confirmation of this action which has not expired.
  pub record Confirmed (nonce : String) (prepared : Prepared) : Type 0 where
    pub was_waiting : lookup nonce server.confirmations ≡ some prepared
    pub same_action : prepared.action ≡ action
    pub in_time : leb time prepared.expires_at ≡ true

  confirm-cases :
      (P : Server S × Reply Response → Type 0)
      → ((r : Response) → lookup request_id server.completed ≡ some r → P (server, answered r))
      → ((other : Server S) (reason : String) → P (other, control_error reason))
      → ((nonce : String) (prepared : Prepared)
          → lookup request_id server.completed ≡ none
          → Confirmed nonce prepared
          → P (run_prepared handler action request_id prepared fields (popped nonce)))
      → P (confirm_fields handler time action request_id fields server)
  unfolding lookup confirm_fields
  confirm-cases P replayed fault fresh = elim (Option-cases (lookup request_id server.completed)) [
    | inr (r, e) ↦ rw (e, confirm_fields) (replayed r e)
    | inl e ↦
        rw (e, confirm_fields)
          (elim (Option-cases (text_of (get_field "nonce" fields))) [
            | inl f ↦ rw f (fault _ _)
            | inr (nonce, f) ↦ rw f (elim (Option-cases (lookup nonce server.confirmations)) [
              | inl g ↦ rw g (fault _ _)
              | inr (prepared, g) ↦ rw g (
                  if_elim P
                    (str_eq prepared.action action
                      && leb time prepared.expires_at
                      && is_text action (get_field "confirmation" fields))
                    _
                    (popped nonce, control_error (action <> " confirmation is invalid or expired"))
                    (λ test. fresh nonce prepared e (record {
                      was_waiting = g;
                      same_action = (eq_iff prepared.action action).0 (ground (arith, test));
                      in_time = ground (arith, test);
                    }))
                    (λ _. fault (popped nonce) (action <> " confirmation is invalid or expired")))
            ])
          ])
  ]

  used :
      (nonce : String) (prepared : Prepared)
      → lookup nonce
          (run_prepared handler action request_id prepared fields (popped nonce)).0.confirmations
        ≡ none
  unfolding run_prepared
  used nonce prepared =
      rw (finish-confirmations action request_id _ _)
        (ground (arith, eq_iff nonce nonce, lookup-erase nonce nonce server.confirmations))

  -- A fresh answer to a request has used up a confirmation of its action that had not expired.
  pub confirm_fields-Confirmed :
      (r : Response)
      → lookup request_id server.completed ≡ none
      → (confirm_fields handler time action request_id fields server).1 ≡ answered r
      → (nonce : String) × (prepared : Prepared) × Confirmed nonce prepared
        × (lookup nonce
              (confirm_fields handler time action request_id fields server).0.confirmations
            ≡ none)
  confirm_fields-Confirmed r unseen is =
      confirm-cases
        (λ x.
          x.1 ≡ answered r
          → (nonce : String) × (prepared : Prepared) × Confirmed nonce prepared
            × (lookup nonce x.0.confirmations ≡ none))
        (λ q e. cc (unseen, e)) (λ other reason e. cc e)
        (λ nonce prepared _ confirmed _. (nonce, prepared, confirmed, used nonce prepared)) is

  -- A request that was answered gets the same answer again, whatever it says then, and changes
  -- nothing more.
  pub confirm_fields-twice :
      (r : Response) (later : ℕ) (other_action : String) (others : Fields)
      → (confirm_fields handler time action request_id fields server).1 ≡ answered r
      → confirm_fields handler later other_action request_id others
          (confirm_fields handler time action request_id fields server).0
        ≡ ((confirm_fields handler time action request_id fields server).0, answered r)
  confirm_fields-twice r later other_action others is =
      repeated handler later other_action request_id others r _ (
        confirm-cases (λ x. x.1 ≡ answered r → lookup request_id x.0.completed ≡ some r)
          (λ q e f. cc (e, f)) (λ other reason e. cc e)
          (λ nonce prepared _ confirmed e.
            unfold run_prepared in (finish-completed action request_id r _ _ e))
          is)
