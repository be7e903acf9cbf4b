-- ===== src/Controller/Steps.antt =====
-- `transition` keeps the controller consistent, and what it does when the manifest cannot be written.
use tod_dl.Controller.Changes.{db-apply_projection_change, projection-apply_projection_change}
use tod_dl.Status.{Status}
use tod_dl.Projection.{item_of, apply}
use tod_dl.Projection.Sync.Apply.{NoCollision, apply-InSync}
use tod_dl.Manifest.{
  Row, Db, Clock, find_row, in_run, selected_rows, update_where, update_urls, advance_revision,
  log_transition, revision_of,
}
use tod_dl.Manifest.Rows.{KeepsUrl, update_urls-cons, update_urls-nil}
use tod_dl.Manifest.Selected.{selected-IsKeyed, find_row-selected, revision_of-advance}
use tod_dl.Controller.{Controller, commit_transition, is_complete, transition}
use tod_dl.Controller.Consistent.{IsConsistent, parts-IsConsistent}
use tod_dl.Base.{
  String, true, not, ◌&&◌, Option, none, some, List, [], ◌∷◌, ◌≡◌, refl, ap, ◌∙◌, str_eq, contains,
  if◌then◌else◌,
}

-- One key in a list is the test on that key.
pub update_one :
    (set : Row → Row) (keeps : KeepsUrl set) (url : String) (rows : List Row)
    → update_urls (url ∷ []) set rows ≡ update_where (λ row. str_eq row.url url) set rows
update_one set keeps url rows =
    update_urls-cons set keeps url [] rows (unfold contains in refl) ∙ update_urls-nil set _

module _ (sha256_hex : String → String) (no_collision : NoCollision sha256_hex) (clock : Clock)
    (url : String) (to_status : Status) (detail : Option String) (fields : Row → Row)
    (keeps : KeepsUrl fields) (c : Controller) (h : IsConsistent sha256_hex c) where
  abbrev set : Row → Row
  set r = fields (record r { status = to_status; updated_at = clock.stamp })

  set_keeps : KeepsUrl set
  set_keeps r = keeps _

  selected_update :
      update_urls (url ∷ []) set (selected_rows c.run_id c.db)
      ≡ update_where (λ row. str_eq row.url url) set (selected_rows c.run_id c.db)
  selected_update = update_one set set_keeps url _

  -- The transaction of the transition.
  abbrev logged : Row → Db
  logged row =
      log_transition
        (record {
          url = url;
          run_id = c.run_id;
          from_status = some row.status;
          to_status = to_status;
          detail = detail;
          recorded_at = clock.stamp;
        })
        (record (c.db) { downloads = update_urls (url ∷ []) set c.db.downloads })

  abbrev committed : Row → Controller
  committed row = record c { db = (advance_revision c.run_id (logged row)).0 }

  abbrev completion : Row → Option String
  completion row =
      if not (is_complete row.status) && is_complete (set row).status
      then some clock.stamp
      else none

  commit-IsConsistent :
      (row : Row)
      → find_row url c.db.downloads ≡ some row
      → in_run c.run_id url c.db.run_items ≡ true
      → IsConsistent sha256_hex
          (commit_transition sha256_hex clock url to_status detail fields row c)
  unfolding commit_transition log_transition advance_revision
  commit-IsConsistent row found mine =
      parts-IsConsistent sha256_hex c _ (url ∷ []) set _ set_keeps h
        (db-apply_projection_change sha256_hex _ _ _ _ _).1
        (ap (λ (d : Db). d.run_items) (db-apply_projection_change sha256_hex _ _ _ _ _).0)
        (ap (λ (d : Db). d.downloads) (db-apply_projection_change sha256_hex _ _ _ _ _).0)
        (ap (revision_of c.run_id) (db-apply_projection_change sha256_hex _ _ _ _ _).0
          ∙ (revision_of-advance c.run_id (logged row)).0)
        (λ p e.
          let (q, was, is) =
            projection-apply_projection_change sha256_hex (item_of row) (item_of (set row))
              (advance_revision c.run_id (logged row)).1 (completion row) (committed row) p e in
          rw (is, selected_update)
            (
              unfold apply in refl,
              apply-InSync sha256_hex no_collision q set set_keeps url (selected_rows c.run_id c.db)
                  row _ _ (selected-IsKeyed c.run_id c.db h.keyed)
                  (find_row-selected c.run_id c.db url mine ∙ found) (h.synced q was).in_sync,
            ))

  transition-cases :
      (o : Option Row)
      → find_row url c.db.downloads ≡ o
      → in_run c.run_id url c.db.run_items ≡ true
      → IsConsistent sha256_hex (transition sha256_hex none clock url to_status detail fields c).0
  unfolding transition
  transition-cases none e mine = rw (e, transition) h
  transition-cases (some row) e mine = rw (e, transition) (commit-IsConsistent row e mine)

  -- A committed transition of a selected item, to any state and with any further columns, leaves
  -- the counts, the byte total, the waiting retries and the revision of the projection equal to
  -- those of the rows in the manifest. So does one of a row that is missing, which raises.
  pub transition-IsConsistent :
      in_run c.run_id url c.db.run_items ≡ true
      → IsConsistent sha256_hex (transition sha256_hex none clock url to_status detail fields c).0
  transition-IsConsistent = transition-cases (find_row url c.db.downloads) refl
