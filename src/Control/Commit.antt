-- ===== src/Control/Commit.antt =====
-- The transaction that the item actions share keeps the controller consistent.
use mathlib.Core.Option.{some-injective}
use tod_dl.Manifest.{
  Row, Db, Clock, update_urls, selected_rows, revision_of, log_transition, log_request,
  advance_revision,
}
use tod_dl.Manifest.Rows.{KeepsUrl, IsKeyed, AreRowsOf, urls_of, update_urls-nil}
use tod_dl.Manifest.Selected.{revision_of-next, selected-IsKeyed}
use tod_dl.Projection.{Projection, Item, item_of}
use tod_dl.Projection.Sync.{InSync}
use tod_dl.Projection.Sync.Apply.{NoCollision}
use tod_dl.Controller.{Controller, apply_changes}
use tod_dl.Controller.Consistent.{IsConsistent, parts-IsConsistent}
use tod_dl.Controller.Changes.{
  apply_rows, apply_rows-InSync, projection-apply_changes, no_projection-apply_changes,
  db-apply_changes, revision-apply_rows_cons,
}
use tod_dl.Controller.Revised.{set_revision-IsConsistent}
use tod_dl.Control.Requests.{record_control, record_request}
use tod_dl.Control.Items.{commit_changes, is_empty}
use tod_dl.Base.{ℕ, ◌+◌, String, Option, none, some, List, [], ◌∷◌, ◌≡◌, refl, sym, ap, ◌∙◌}

-- The request and its audit row leave the rows of the run alone and advance the revision.
pub record Recorded (c c' : Controller) (revision : ℕ) : Type 0 where
  pub same_run : c'.run_id ≡ c.run_id
  pub same_items : c'.db.run_items ≡ c.db.run_items
  pub same_rows : c'.db.downloads ≡ c.db.downloads
  pub same_projection : c'.projection ≡ c.projection
  pub at : revision_of c.run_id c'.db ≡ revision
  pub next : revision ≡ revision_of c.run_id c.db + 1

module _ (clock : Clock) (id session action : String) where
  pub record_request-Recorded :
      (outcome reason : String) (c : Controller)
      → let r = record_request clock id session action outcome reason c in Recorded c r.0 r.1
  unfolding record_request advance_revision log_request
  record_request-Recorded outcome reason c = record {
    same_run = refl;
    same_items = refl;
    same_rows = refl;
    same_projection = refl;
    at =
        revision_of-next c.run_id c.db
          (record_request clock id session action outcome reason c).0.db refl;
    next = refl;
  }

  pub record_control-Recorded :
      (reason : String) (c : Controller)
      → let r = record_control clock id session action reason c in Recorded c r.0 r.1
  unfolding record_control record_request advance_revision log_request log_transition revision_of
  record_control-Recorded reason c = record {
    same_run = refl;
    same_items = refl;
    same_rows = refl;
    same_projection = refl;
    at = revision_of-next c.run_id c.db (record_control clock id session action reason c).0.db refl;
    next = refl;
  }

  module _ (sha256_hex : String → String) (no_collision : NoCollision sha256_hex) (set : Row → Row)
      (change : Item → Item) (keeps : KeepsUrl set)
      (agrees : (r : Row) → change (item_of r) ≡ item_of (set r)) (reason : String) (c : Controller)
      (h : IsConsistent sha256_hex c) where
    abbrev updated : List Row → Controller
    updated changed = record c {
      db = record (c.db) { downloads = update_urls (urls_of changed) set c.db.downloads };
    }

    -- Nothing is changed: the projection gets the revision.
    commit_none :
        IsConsistent sha256_hex
          (commit_changes sha256_hex clock id session action set change reason [] c).0
    unfolding commit_changes is_empty apply_changes
    commit_none =
        let r = record_control-Recorded reason (updated []) in
        set_revision-IsConsistent sha256_hex c
          (record_control clock id session action reason (updated [])).0 [] set
          (record_control clock id session action reason (updated [])).1 keeps h r.same_run
          r.same_items r.same_rows r.at r.same_projection (λ p i. rw update_urls-nil i)

    -- What the projection of the run is after the loop over the changed rows.
    told :
        (revision : ℕ) (row : Row) (rows : List Row) (c' : Controller) (p : Projection)
        → c'.projection ≡ c.projection
        → IsKeyed (row ∷ rows)
        → AreRowsOf (selected_rows c.run_id c.db) (row ∷ rows)
        → (o : Option Projection) → c.projection ≡ o
        → (apply_changes sha256_hex change revision (row ∷ rows) c').projection ≡ some p
        → (p.revision ≡ revision)
          × InSync sha256_hex p
              (update_urls (urls_of (row ∷ rows)) set (selected_rows c.run_id c.db))
    told revision row rows c' p same k a none e is = cc (
      same,
      e,
      is,
      ap (λ (d : Controller). d.projection)
          (no_projection-apply_changes sha256_hex change revision (row ∷ rows) c' (same ∙ e)),
    )
    told revision row rows c' p same k a (some q) e is =
        let p_is : p ≡ apply_rows sha256_hex change revision (row ∷ rows) q = some-injective p _ (
          sym is
          ∙ projection-apply_changes sha256_hex change revision (row ∷ rows) c' q (same ∙ e)) in
        rw p_is (
          revision-apply_rows_cons sha256_hex change revision row rows q,
          apply_rows-InSync sha256_hex no_collision change set keeps agrees revision (row ∷ rows)
              (selected_rows c.run_id c.db) q (selected-IsKeyed c.run_id c.db h.keyed) k a
              (h.synced q e).in_sync,
        )

    commit_some :
        (row : Row) (rows : List Row)
        → IsKeyed (row ∷ rows)
        → AreRowsOf (selected_rows c.run_id c.db) (row ∷ rows)
        → IsConsistent sha256_hex
            (commit_changes sha256_hex clock id session action set change reason (row ∷ rows) c).0
    unfolding commit_changes is_empty
    commit_some row rows k a =
        let recorded = record_control clock id session action reason (updated (row ∷ rows)) in
        let r = record_control-Recorded reason (updated (row ∷ rows)) in
        let same = db-apply_changes sha256_hex change recorded.1 (row ∷ rows) recorded.0 in
        parts-IsConsistent sha256_hex c
          (apply_changes sha256_hex change recorded.1 (row ∷ rows) recorded.0)
          (urls_of (row ∷ rows)) set recorded.1 keeps h (same.1 ∙ r.same_run)
          (ap (λ (d : Db). d.run_items) same.0 ∙ r.same_items)
          (ap (λ (d : Db). d.downloads) same.0 ∙ r.same_rows)
          (ap (revision_of c.run_id) same.0 ∙ r.at)
          (λ p. told recorded.1 row rows recorded.0 p r.same_projection k a (c.projection) refl)

    -- The changed rows are rows of the run with different keys.
    pub commit_changes-IsConsistent :
        (changed : List Row)
        → IsKeyed changed
        → AreRowsOf (selected_rows c.run_id c.db) changed
        → IsConsistent sha256_hex
            (commit_changes sha256_hex clock id session action set change reason changed c).0
    commit_changes-IsConsistent [] k a = commit_none
    commit_changes-IsConsistent (row ∷ rows) k a = commit_some row rows k a
