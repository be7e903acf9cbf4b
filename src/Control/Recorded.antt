-- ===== src/Control/Recorded.antt =====
-- Every answer that is not a fault is in the record of requests, and its repetition changes nothing.
use tod_dl.Control.Items.Selection.{changed_rows, by_id}
use tod_dl.Control.Replay.{IsFaulty, control_action-answers, control_action-replay}
use tod_dl.Control.Actions.{control_action}
use tod_dl.Json.{text_of}
use tod_dl.Control.{Request}
use tod_dl.Controller.Changes.{db-apply_changes}
use tod_dl.Control.Flags.{conclude, renew, Decision}
use tod_dl.Control.Newnym.{begin_newnym, finish_newnym, request_newnym, send_newnym}
use tod_dl.Manifest.Rows.{urls_of}
use tod_dl.Controller.Revised.{db-set_projection_revision}
use tod_dl.Projection.{Item}
use tod_dl.Control.Items.{
  commit_changes, item_action, prioritize, retry_items, is_empty, check_prioritizable, set_priority,
}
use tod_dl.Control.Requests.{Response, record_control, record_request, reject, replay}
use tod_dl.Manifest.{
  Clock, find_request, ControlRequest, log_transition, log_request, advance_revision, update_urls,
  Row, Db, selected_rows,
}
use tod_dl.Controller.{Controller, notify, set_projection_revision, apply_changes}
use mathlib.Core.Option.{some-injective, Option, none, some}
use tod_dl.Base.{
  refl, String, if_elim, find?, Bool, List, ◌≡◌, true, eq_iff, ◌++◌, ◌∷◌, [], ℤ, arith, ℕ,
  if◌then◌else◌, ◌⊎◌, sym, ◌∙◌, inr, inl,
}

find?-append :
    {A : Type 0} (p : A → Bool) (x : A) (xs : List A)
    → find? p xs ≡ none
    → p x ≡ true
    → find? p (xs ++ x ∷ []) ≡ some x
unfolding find?
find?-append p x [] h e = rw e refl
find?-append p x (y ∷ ys) h e = ground (arith, find?-append p x ys)

-- A request with this outcome and reason stands in the record under the identifier.
abbrev Stands : String → String → String → Db → Type 0
Stands id outcome reason db =
    (r : ControlRequest) × (find_request id db ≡ some r)
    × (r.outcome ≡ outcome)
    × (r.reason ≡ reason)

abbrev pub IsRecorded : String → Controller × Response → Type 0
IsRecorded id x = Stands id x.1.outcome x.1.reason x.0.db

module _ (clock : Clock) (id session action : String) where
  record_request-found :
      (outcome reason : String) (c : Controller)
      → find_request id c.db ≡ none
      → Stands id outcome reason (record_request clock id session action outcome reason c).0.db
  unfolding find_request record_request log_request advance_revision
  record_request-found outcome reason c h =
      (_, find?-append _ _ c.db.control_requests h ((eq_iff id id).1 refl), refl, refl)

  record_control-found :
      (reason : String) (c : Controller)
      → find_request id c.db ≡ none
      → Stands id "completed" reason (record_control clock id session action reason c).0.db
  unfolding record_control record_request log_request advance_revision log_transition find_request
  record_control-found reason c h =
      (_, find?-append _ _ c.db.control_requests h ((eq_iff id id).1 refl), refl, refl)

module _ (sha256_hex : String → String) (clock : Clock) (tor_error : Option String) (c : Controller)
    (id session : String) (h : find_request id c.db ≡ none) where
  set_revision-found :
      (outcome reason : String) (revision : ℕ) (c' : Controller)
      → Stands id outcome reason c'.db
      → Stands id outcome reason (set_projection_revision revision c').db
  set_revision-found outcome reason revision c' s =
      simp ((db-set_projection_revision sha256_hex revision c').0) s

  commit_changes-found :
      (action : String) (set : Row → Row) (change : Item → Item) (reason : String)
      (changed : List Row)
      → Stands id "completed" reason
          (commit_changes sha256_hex clock id session action set change reason changed c).0.db
  unfolding commit_changes update_urls find_request
  commit_changes-found action set change reason changed =
      let updated = record c {
        db = record (c.db) { downloads = update_urls (urls_of changed) set c.db.downloads };
      } in
      let x = record_control clock id session action reason updated in
      let s : Stands id "completed" reason x.0.db =
        record_control-found clock id session action reason updated h in
      let applied = apply_changes sha256_hex change x.1 changed x.0 in
      let t : Stands id "completed" reason applied.db =
        simp ((db-apply_changes sha256_hex change x.1 changed x.0).0) s in
      if_elim (λ (c' : Controller). Stands id "completed" reason c'.db) (is_empty changed) _ _
        (λ _. set_revision-found "completed" reason x.1 applied t) (λ _. t)

  item_action-IsRecorded :
      (action : String) (ids : List String) (check : Row → Option String) (accepted : String)
      (set : Row → Row) (change : Item → Item) (reason_of : ℕ → ℕ → String) (message : String)
      → IsRecorded id (
          item_action sha256_hex clock id session action ids check accepted set change reason_of
            message c)
  unfolding item_action notify
  item_action-IsRecorded action ids check accepted set change reason_of message =
      commit_changes-found action set change _ _

  prioritize-IsRecorded :
      (ids : List String) (priority : ℤ)
      → IsRecorded id (prioritize sha256_hex clock id session ids priority c)
  unfolding prioritize notify find_request
  prioritize-IsRecorded ids priority =
      let changed =
        changed_rows check_prioritizable (by_id sha256_hex (selected_rows c.run_id c.db)) ids in
      let updated = record c {
        db = record (c.db) {
          downloads = update_urls (urls_of changed) (set_priority priority clock) c.db.downloads;
        };
      } in
      set_revision-found "completed" _ _ _
        (record_control-found clock id session "set_item_priority" _ updated h)

  retry_items-IsRecorded :
      (ids : Option (List String)) → IsRecorded id (retry_items sha256_hex clock id session ids c)
  unfolding retry_items notify
  retry_items-IsRecorded ids = commit_changes-found "retry_now" _ _ _ _

  request_newnym-requests :
      (request_newnym clock tor_error id session c).0.db.control_requests ≡ c.db.control_requests
  unfolding request_newnym begin_newnym finish_newnym send_newnym
  request_newnym-requests = ground arith

  renew-IsRecorded : IsRecorded id (renew clock tor_error id session c)
  unfolding renew notify
  renew-IsRecorded =
      let x = request_newnym clock tor_error id session c in
      set_revision-found _ _ _ _ (
        record_request-found clock id session "renew_tor_circuits" x.1.outcome x.1.reason x.0
          (unfold find_request in (rw request_newnym-requests h)))

  conclude-IsRecorded :
      (action : String) (decision : Decision) (announce : Controller → Controller)
      → decision.after.db ≡ c.db
      → ((c' : Controller) → (announce c').db ≡ c'.db)
      → IsRecorded id (conclude clock id session action decision announce)
  unfolding conclude
  conclude-IsRecorded action decision announce same keeps =
      let outcome = if decision.done then "completed" else "rejected" in
      let x = record_request clock id session action outcome decision.reason decision.after in
      let s : Stands id outcome decision.reason x.0.db =
        record_request-found clock id session action outcome decision.reason decision.after
          (rw same h) in
      let synced = set_projection_revision x.1 x.0 in
      let t = set_revision-found outcome decision.reason x.1 x.0 s in
      if_elim (λ (c' : Controller). Stands id outcome decision.reason c'.db) decision.done _ _
        (λ _. simp (keeps synced) t) (λ _. t)

-- An answer that is no fault stands in the record of requests afterwards.
pub control_action-IsRecorded :
    (sha256_hex : String → String) (clock : Clock) (tor_error : Option String) (request : Request)
    (c : Controller) (id : String)
    → text_of request.request_id ≡ some id
    → let x = control_action sha256_hex clock tor_error request c in
      IsRecorded id x ⊎ ((x.0 ≡ c) × IsFaulty x.1)
control_action-IsRecorded sha256_hex clock tor_error request c id is =
    control_action-answers sha256_hex clock tor_error request c
      (λ x. IsRecorded id x ⊎ ((x.0 ≡ c) × IsFaulty x.1))
      (λ reason _. inr (refl, unfold reject in (refl, refl)))
      (λ other r e found. inl (unfold replay in (r, cc (is, e, found), refl, refl)))
      (λ action ids check accepted set change reason_of message other session e found. inl (
        rw (named other e) (
          item_action-IsRecorded sha256_hex clock tor_error c other session found action ids check
            accepted set change reason_of message)))
      (λ ids priority other session e found. inl (
        rw (named other e)
          (prioritize-IsRecorded sha256_hex clock tor_error c other session found ids priority)))
      (λ ids other session e found. inl (
        rw (named other e)
          (retry_items-IsRecorded sha256_hex clock tor_error c other session found ids)))
      (λ other session e found.
        inl
          (rw (named other e) (renew-IsRecorded sha256_hex clock tor_error c other session found)))
      (λ action decision announce same keeps other session e found. inl (
        rw (named other e) (
          conclude-IsRecorded sha256_hex clock tor_error c other session found action decision
            announce same keeps)))
  where
    named : (other : String) → text_of request.request_id ≡ some other → id ≡ other
    named other e = some-injective id other (sym is ∙ e)

-- A request that was answered without a fault changes nothing when it is sent again, at any later
-- time and whatever the Tor control port would say then.
pub control_action-once :
    (sha256_hex : String → String) (clock later : Clock) (tor_error later_error : Option String)
    (request : Request) (c : Controller) (id : String)
    → text_of request.request_id ≡ some id
    → ¬ IsFaulty (control_action sha256_hex clock tor_error request c).1
    → let x = control_action sha256_hex clock tor_error request c in
      (control_action sha256_hex later later_error request x.0).0 ≡ x.0
control_action-once sha256_hex clock later tor_error later_error request c id is sound =
    elim (control_action-IsRecorded sha256_hex clock tor_error request c id is) [
      | inl (r, found, _, _) ↦
          (control_action-replay sha256_hex later later_error request
            (control_action sha256_hex clock tor_error request c).0 id r is found).0
      | inr (same, faulty) ↦ absurd (sound faulty)
    ]
