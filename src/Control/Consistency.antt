-- ===== src/Control/Consistency.antt =====
-- Every control action keeps the controller consistent.
use tod_dl.Control.Keeps.{identified-keeps, given-keeps, once-keeps}
use tod_dl.Status.{is_retryable}
use tod_dl.Control.Flags.{wake}
use tod_dl.Control.Items.Found.{changed-IsKeyed, changed-AreRowsOf}
use tod_dl.Control.Commit.{commit_changes-IsConsistent, record_control-Recorded}
use tod_dl.Controller.Revised.{notify-IsConsistent, set_revision-IsConsistent, same_item-InSync}
use tod_dl.Control.Items.Selection.{changed_rows, by_id}
use tod_dl.Manifest.Selected.{selected-IsKeyed}
use tod_dl.Manifest.Rows.{
  KeepsUrl, urls_of, AreRowsOf, IsKeyed, filter_any-IsKeyed, filter-AreRowsOf,
}
use tod_dl.Projection.{Item, item_of}
use tod_dl.Control.Items.{
  control_exclude_item, control_resume_new_generation, control_retry_access_denied,
  control_set_item_priority, control_set_retry_cooldown, item_action, prioritize, set_excluded,
  set_new_generation, set_priority, set_requeued, set_retry_at, check_prioritizable, of_requested,
  retry_items, wanted_rows, control_retry_now, is_null,
}
use tod_dl.Controller.Consistent.{IsConsistent}
use tod_dl.Projection.Sync.Apply.{NoCollision}
use tod_dl.Control.{Request}
use tod_dl.Json.{id_list, get}
use tod_dl.Manifest.{Clock, Row, update_urls, selected_rows}
use tod_dl.Controller.{Controller}
use tod_dl.Control.Requests.{Response}
use tod_dl.Base.{
  String, Option, none, some, ◌≡◌, refl, List, distinct, true, ℕ, ℤ, ◌<>◌, signed, length, if_elim,
  All-filter, filter, contains,
}

wanted-IsKeyed :
    (sha256_hex : String → String) (ids : Option (List String)) (rows : List Row)
    → IsKeyed rows
    → IsKeyed (wanted_rows sha256_hex ids rows)
unfolding wanted_rows
wanted-IsKeyed sha256_hex none rows k = k
wanted-IsKeyed sha256_hex (some ids) rows k =
    filter_any-IsKeyed (λ row. contains (sha256_hex row.url) ids) rows k

wanted-AreRowsOf :
    (sha256_hex : String → String) (ids : Option (List String)) (table rows : List Row)
    → AreRowsOf table rows
    → AreRowsOf table (wanted_rows sha256_hex ids rows)
unfolding wanted_rows
wanted-AreRowsOf sha256_hex none table rows a = a
wanted-AreRowsOf sha256_hex (some ids) table rows a =
    All-filter _ (λ row. contains (sha256_hex row.url) ids) rows a

-- No item is requested twice.
abbrev pub HasDistinctIds : Request → Type 0
HasDistinctIds request =
    (ids : List String)
    → id_list (get "item_ids" request.parameters) ≡ some ids
    → distinct ids ≡ true

module _ (sha256_hex : String → String) (no_collision : NoCollision sha256_hex) (clock : Clock)
    (request : Request) (c : Controller) (h : IsConsistent sha256_hex c) where
  abbrev AnswersWell : Controller × Response → Type 0
  AnswersWell r = IsConsistent sha256_hex r.0

  item_action-IsConsistent :
      (id session action : String) (ids : List String) (check : Row → Option String)
      (accepted : String) (set : Row → Row) (change : Item → Item) (reason_of : ℕ → ℕ → String)
      (message : String)
      → KeepsUrl set
      → ((r : Row) → change (item_of r) ≡ item_of (set r))
      → distinct ids ≡ true
      → IsConsistent sha256_hex
          (item_action sha256_hex clock id session action ids check accepted set change reason_of
            message c).0
  unfolding item_action
  item_action-IsConsistent id session action ids check accepted set change reason_of message keeps
        agrees d =
      let k = selected-IsKeyed c.run_id c.db h.keyed in
      notify-IsConsistent sha256_hex _ _ (
        commit_changes-IsConsistent clock id session action sha256_hex no_collision set change keeps
          agrees _ c h _
          (changed-IsKeyed sha256_hex no_collision check (selected_rows c.run_id c.db) k ids d)
          (changed-AreRowsOf sha256_hex no_collision check (selected_rows c.run_id c.db) k ids))

  module _ (distinct_ids : HasDistinctIds request) where
    pub exclude-IsConsistent :
        IsConsistent sha256_hex (control_exclude_item sha256_hex clock request c).0
    unfolding control_exclude_item set_excluded item_of
    exclude-IsConsistent =
        identified-keeps AnswersWell _ _ c _ (λ e. h)
          λ id session _.
            given-keeps AnswersWell _ _ _ (λ e. h)
              λ ids e.
                once-keeps AnswersWell id c _ (λ _ _. h)
                  (λ _.
                    item_action-IsConsistent id session _ ids _ _ _ _ _ _ (λ r. refl) (λ r. refl)
                      (distinct_ids ids e))

    pub resume_new_generation-IsConsistent :
        IsConsistent sha256_hex (control_resume_new_generation sha256_hex clock request c).0
    unfolding control_resume_new_generation set_new_generation item_of
    resume_new_generation-IsConsistent =
        identified-keeps AnswersWell _ _ c _ (λ e. h)
          λ id session _.
            given-keeps AnswersWell _ _ _ (λ e. h)
              λ ids e.
                once-keeps AnswersWell id c _ (λ _ _. h)
                  (λ _.
                    item_action-IsConsistent id session _ ids _ _ _ _ _ _ (λ r. refl) (λ r. refl)
                      (distinct_ids ids e))

    pub retry_access_denied-IsConsistent :
        IsConsistent sha256_hex (control_retry_access_denied sha256_hex clock request c).0
    unfolding control_retry_access_denied set_requeued item_of
    retry_access_denied-IsConsistent =
        identified-keeps AnswersWell _ _ c _ (λ e. h)
          λ id session _.
            given-keeps AnswersWell _ _ _ (λ e. h)
              λ ids e.
                once-keeps AnswersWell id c _ (λ _ _. h)
                  (λ _.
                    item_action-IsConsistent id session _ ids _ _ _ _ _ _ (λ r. refl) (λ r. refl)
                      (distinct_ids ids e))

    pub set_retry_cooldown-IsConsistent :
        IsConsistent sha256_hex (control_set_retry_cooldown sha256_hex clock request c).0
    unfolding control_set_retry_cooldown set_retry_at item_of
    set_retry_cooldown-IsConsistent =
        identified-keeps AnswersWell _ _ c _ (λ e. h)
          λ id session _.
            given-keeps AnswersWell _ _ _ (λ e. h)
              λ ids e.
                given-keeps AnswersWell _ _ _ (λ e. h)
                  λ cooldown_s _.
                    once-keeps AnswersWell id c _ (λ _ _. h)
                      (λ _.
                        item_action-IsConsistent id session _ ids _ _ _ _ _ _ (λ r. refl)
                          (λ r. refl) (distinct_ids ids e))

  prioritize-IsConsistent :
      (id session : String) (ids : List String) (priority : ℤ)
      → IsConsistent sha256_hex (prioritize sha256_hex clock id session ids priority c).0
  unfolding prioritize set_priority item_of update_urls
  prioritize-IsConsistent id session ids priority =
      let changed =
        changed_rows check_prioritizable (by_id sha256_hex (selected_rows c.run_id c.db)) ids in
      let set = set_priority priority clock in
      let updated = record c {
        db = record (c.db) { downloads = update_urls (urls_of changed) set c.db.downloads };
      } in
      let reason =
        of_requested ("set priority to " <> signed priority <> " for") (length changed)
          (length ids) in
      let r = record_control-Recorded clock id session "set_item_priority" reason updated in
      notify-IsConsistent sha256_hex _ _ (
        set_revision-IsConsistent sha256_hex c _ (urls_of changed) set _ (λ row. refl) h r.same_run
          r.same_items r.same_rows r.at r.same_projection
          (λ p i. same_item-InSync set (λ row. refl) sha256_hex (λ row. refl) p _ _ i))

  pub set_item_priority-IsConsistent :
      IsConsistent sha256_hex (control_set_item_priority sha256_hex clock request c).0
  unfolding control_set_item_priority
  set_item_priority-IsConsistent =
      identified-keeps AnswersWell _ _ c _ (λ e. h)
        λ id session _.
          given-keeps AnswersWell _ _ _ (λ e. h)
            λ ids e.
              given-keeps AnswersWell _ _ _ (λ e. h)
                λ priority _.
                  once-keeps AnswersWell id c _ (λ _ _. h)
                    (λ _. prioritize-IsConsistent id session ids priority)

  awake : (c' : Controller) → IsConsistent sha256_hex c' → IsConsistent sha256_hex (wake c')
  unfolding wake
  awake c' k = record { keyed = k.keyed; synced = k.synced }

  retry_items-IsConsistent :
      (id session : String) (ids : Option (List String))
      → IsConsistent sha256_hex (retry_items sha256_hex clock id session ids c).0
  unfolding retry_items wake wanted_rows set_retry_at item_of
  retry_items-IsConsistent id session ids =
      let rows = selected_rows c.run_id c.db in
      let k = selected-IsKeyed c.run_id c.db h.keyed in
      let candidates = filter (λ row. is_retryable row.status) rows in
      let keyed = filter_any-IsKeyed (λ row. is_retryable row.status) rows k in
      let found = filter-AreRowsOf (λ row. is_retryable row.status) rows k in
      awake _ (
        notify-IsConsistent sha256_hex _ _ (
          commit_changes-IsConsistent clock id session "retry_now" sha256_hex no_collision
            (set_retry_at 0 clock) _ (λ r. refl) (λ r. refl) _ c h _
            (wanted-IsKeyed sha256_hex ids candidates keyed)
            (wanted-AreRowsOf sha256_hex ids rows candidates found)))

  pub retry_now-IsConsistent :
      IsConsistent sha256_hex (control_retry_now sha256_hex clock request c).0
  unfolding control_retry_now
  retry_now-IsConsistent =
      identified-keeps AnswersWell _ _ c _ (λ e. h)
        λ id session _.
          if_elim AnswersWell (is_null (get "item_ids" request.parameters)) _ _
            (λ _.
              once-keeps AnswersWell id c _ (λ _ _. h)
                (λ _. retry_items-IsConsistent id session none))
            (λ _.
              given-keeps AnswersWell _ _ _ (λ e. h)
                λ ids e.
                  once-keeps AnswersWell id c _ (λ _ _. h)
                    (λ _. retry_items-IsConsistent id session (some ids)))
