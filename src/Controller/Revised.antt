-- ===== src/Controller/Revised.antt =====
-- A recorded action that changes no column of the projection hands it the new revision only.
use tod_dl.Status.{same_bucket, display_bucket, Bucket}
use mathlib.Core.Option.{some-injective}
use tod_dl.Manifest.{Row, Db, update_where, update_urls, selected_rows, revision_of}
use tod_dl.Manifest.Rows.{KeepsUrl}
use tod_dl.Projection.{Projection, Item, item_of, set_revision, or_zero}
use tod_dl.Projection.Sync.{InSync, total, retry_entry, one_if}
use tod_dl.Controller.{Controller, set_projection_revision, notify}
use tod_dl.Controller.Consistent.{IsConsistent, parts-IsConsistent}
use tod_dl.Telemetry.{Call}
use tod_dl.Base.{
  ℕ, String, Bool, Option, none, some, List, [], ◌∷◌, ◌≡◌, refl, sym, ap, ◌∙◌, arith, pos,
  if◌then◌else◌,
}

module _ (set : Row → Row) (same_item : (r : Row) → item_of (set r) ≡ item_of r) where
  total-update_same :
      (weight : Item → ℕ) (test : Row → Bool) (rows : List Row)
      → total (λ row. weight (item_of row)) (update_where test set rows)
        ≡ total (λ row. weight (item_of row)) rows
  unfolding total update_where
  total-update_same weight test [] = refl
  total-update_same weight test (row ∷ rows) =
      ground (arith, ap weight (same_item row), total-update_same weight test rows)

  module _ (sha256_hex : String → String) (keeps : KeepsUrl set) where
    retry_entry-update_same :
        (m : ℕ) (key : String) (test : Row → Bool) (rows : List Row)
        → retry_entry sha256_hex m key (update_where test set rows)
          ≡ retry_entry sha256_hex m key rows
    unfolding retry_entry update_where item_of
    retry_entry-update_same m key test [] = refl
    retry_entry-update_same m key test (row ∷ rows) = ground (
      arith,
      keeps row,
      ap (λ (i : Item). i.status) (same_item row),
      ap (λ (i : Item). i.attempts) (same_item row),
      ap (λ (i : Item). i.next_retry_at) (same_item row),
      ap (λ (i : Item). i.last_error) (same_item row),
      retry_entry-update_same m key test rows,
    )

    -- An update of other columns leaves the summary exact.
    pub same_item-InSync :
        (p : Projection) (test : Row → Bool) (rows : List Row)
        → InSync sha256_hex p rows
        → InSync sha256_hex p (update_where test set rows)
    unfolding item_of
    same_item-InSync p test rows h = record {
      counted = λ b.
          h.counted b
          ∙ ap pos (
              sym (
                total-update_same
                  (λ item.
                    one_if
                      (same_bucket (display_bucket item.status item.attempts p.max_attempts) b))
                  test rows));
      totalled =
          h.totalled
          ∙ ap pos (
              sym (
                total-update_same
                  (λ item.
                    if same_bucket (display_bucket item.status item.attempts p.max_attempts)
                      Bucket.complete
                    then or_zero item.bytes
                    else 0)
                  test rows));
      waiting = λ key. h.waiting key ∙ sym (retry_entry-update_same p.max_attempts key test rows);
    }

pub notify-IsConsistent :
    (sha256_hex : String → String) (call : Call) (c : Controller)
    → IsConsistent sha256_hex c
    → IsConsistent sha256_hex (notify call c)
unfolding notify
notify-IsConsistent sha256_hex call c h = record { keyed = h.keyed; synced = h.synced }

module _ (sha256_hex : String → String) where
  projection-set_projection_revision :
      (revision : ℕ) (c : Controller) (o : Option Projection)
      → c.projection ≡ o
      → (set_projection_revision revision c).projection
        ≡ elim o [ none ↦ none | some q ↦ some (set_revision revision q) ]
  unfolding set_projection_revision set_revision
  projection-set_projection_revision revision c none e = rw e
  projection-set_projection_revision revision c (some q) e = rw e

  pub db-set_projection_revision :
      (revision : ℕ) (c : Controller)
      → ((set_projection_revision revision c).db ≡ c.db)
        × ((set_projection_revision revision c).run_id ≡ c.run_id)
  unfolding set_projection_revision
  db-set_projection_revision revision c = ground arith

  set_revision-InSync :
      (revision : ℕ) (p : Projection) (rows : List Row)
      → InSync sha256_hex p rows
      → InSync sha256_hex (set_revision revision p) rows
  unfolding set_revision
  set_revision-InSync revision p rows h = record {
    counted = h.counted;
    totalled = h.totalled;
    waiting = h.waiting;
  }

  module _ (c c' : Controller) (urls : List String) (set : Row → Row) (revision : ℕ)
      (keeps : KeepsUrl set) (h : IsConsistent sha256_hex c) (same_run : c'.run_id ≡ c.run_id)
      (same_items : c'.db.run_items ≡ c.db.run_items)
      (changed : c'.db.downloads ≡ update_urls urls set c.db.downloads)
      (at : revision_of c.run_id c'.db ≡ revision) (same_projection : c'.projection ≡ c.projection)
      (still : (p : Projection)
        → InSync sha256_hex p (selected_rows c.run_id c.db)
        → InSync sha256_hex p (update_urls urls set (selected_rows c.run_id c.db))) where
    split_projection :
        (o : Option Projection)
        → c'.projection ≡ o
        → (p : Projection) → (set_projection_revision revision c').projection ≡ some p
        → (p.revision ≡ revision)
          × InSync sha256_hex p (update_urls urls set (selected_rows c.run_id c.db))
    split_projection none e p is = cc (projection-set_projection_revision revision c' none e, is)
    split_projection (some q) e p is =
        let p_is : p ≡ set_revision revision q =
          some-injective p _ (sym is ∙ projection-set_projection_revision revision c' (some q) e) in
        rw p_is (
          unfold set_revision in refl,
          set_revision-InSync revision q _ (still q (h.synced q (sym same_projection ∙ e)).in_sync),
        )

    pub set_revision-IsConsistent : IsConsistent sha256_hex (set_projection_revision revision c')
    set_revision-IsConsistent =
        let same = db-set_projection_revision revision c' in
        parts-IsConsistent sha256_hex c (set_projection_revision revision c') urls set revision
          keeps h (same.1 ∙ same_run) (ap (λ (d : Db). d.run_items) same.0 ∙ same_items)
          (ap (λ (d : Db). d.downloads) same.0 ∙ changed) (ap (revision_of c.run_id) same.0 ∙ at)
          (split_projection (c'.projection) refl)
