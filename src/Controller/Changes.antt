-- ===== src/Controller/Changes.antt =====
-- Committed changes keep the controller consistent: one row by `transition`, several by a control
-- action that updates them in one statement and then tells the projection of each.
use tod_dl.Base.{
  ℕ, String, Option, none, some, List, [], ◌∷◌, ◌≡◌, refl, ◌∙◌, arith, Option-cases, inl, ap, inr,
  sym,
}
use tod_dl.Projection.{Projection, Item, item_of, apply}
use tod_dl.Manifest.{Row, update_urls}
use tod_dl.Manifest.Rows.{
  IsKeyed, KeepsUrl, AreRowsOf, urls_of, update_urls-nil, update_urls-cons, contains-find_row,
  update_where-IsKeyed, AreRowsOf-update,
}
use tod_dl.Projection.Sync.{InSync}
use tod_dl.Projection.Sync.Apply.{NoCollision, apply-InSync}
use tod_dl.Controller.{Controller, apply_changes, apply_projection_change}
use mathlib.Core.Option.{some-injective}

module _ (sha256_hex : String → String) where
  -- the loop of `apply_changes` on the projection alone
  unfoldable pub apply_rows : (Item → Item) → ℕ → List Row → Projection → Projection
  apply_rows change revision [] p = p
  apply_rows change revision (row ∷ rows) p =
      apply_rows change revision rows
        (apply sha256_hex (item_of row) (change (item_of row)) revision none p)

  pub projection-apply_changes :
      (change : Item → Item) (revision : ℕ) (rows : List Row) (c : Controller) (p : Projection)
      → c.projection ≡ some p
      → (apply_changes sha256_hex change revision rows c).projection
        ≡ some (apply_rows change revision rows p)
  unfolding apply_changes apply_rows
  projection-apply_changes change revision [] c p h = h
  projection-apply_changes change revision (row ∷ rows) c p h =
      projection-apply_changes change revision rows _ _ (rw h)

  no_projection-apply :
      (old new : Item) (revision : ℕ) (at : Option String) (c : Controller)
      → c.projection ≡ none
      → apply_projection_change sha256_hex old new revision at c ≡ c
  unfolding apply_projection_change
  no_projection-apply old new revision at c h = ground arith

  pub no_projection-apply_changes :
      (change : Item → Item) (revision : ℕ) (rows : List Row) (c : Controller)
      → c.projection ≡ none
      → apply_changes sha256_hex change revision rows c ≡ c
  unfolding apply_changes
  no_projection-apply_changes change revision [] c h = refl
  no_projection-apply_changes change revision (row ∷ rows) c h =
      rw (no_projection-apply _ _ revision none c h)
        (no_projection-apply_changes change revision rows c h)

  pub db-apply_projection_change :
      (old new : Item) (revision : ℕ) (at : Option String) (c : Controller)
      → ((apply_projection_change sha256_hex old new revision at c).db ≡ c.db)
        × ((apply_projection_change sha256_hex old new revision at c).run_id ≡ c.run_id)
  unfolding apply_projection_change
  db-apply_projection_change old new revision at c = ground arith

  -- The projection after one change is the old one with the change applied.
  pub projection-apply_projection_change :
      (old new : Item) (revision : ℕ) (at : Option String) (c : Controller) (p : Projection)
      → (apply_projection_change sha256_hex old new revision at c).projection ≡ some p
      → (q : Projection) × (c.projection ≡ some q) × (p ≡ apply sha256_hex old new revision at q)
  projection-apply_projection_change old new revision at c p h = elim (Option-cases c.projection) [
    | inl e ↦
        cc (
          e,
          h,
          ap (λ (d : Controller). d.projection) (no_projection-apply old new revision at c e),
        )
    | inr (q, e) ↦ (q, e, some-injective p _ (sym h ∙ after q e))
  ]
    where
      after :
          (q : Projection)
          → c.projection ≡ some q
          → (apply_projection_change sha256_hex old new revision at c).projection
            ≡ some (apply sha256_hex old new revision at q)
      after q e = unfold apply_projection_change in rw e

  pub db-apply_changes :
      (change : Item → Item) (revision : ℕ) (rows : List Row) (c : Controller)
      → ((apply_changes sha256_hex change revision rows c).db ≡ c.db)
        × ((apply_changes sha256_hex change revision rows c).run_id ≡ c.run_id)
  unfolding apply_changes
  db-apply_changes change revision [] c = (refl, refl)
  db-apply_changes change revision (row ∷ rows) c =
      let step = db-apply_projection_change (item_of row) (change (item_of row)) revision none c in
      let rest =
        db-apply_changes change revision rows (
          apply_projection_change sha256_hex (item_of row) (change (item_of row)) revision none
            c) in
      (rest.0 ∙ step.0, rest.1 ∙ step.1)

  revision-apply_rows :
      (change : Item → Item) (revision : ℕ) (rows : List Row) (p : Projection)
      → p.revision ≡ revision
      → (apply_rows change revision rows p).revision ≡ revision
  unfolding apply_rows
  revision-apply_rows change revision [] p h = h
  revision-apply_rows change revision (row ∷ rows) p h =
      revision-apply_rows change revision rows _ (unfold apply in refl)

  pub revision-apply_rows_cons :
      (change : Item → Item) (revision : ℕ) (row : Row) (rows : List Row) (p : Projection)
      → (apply_rows change revision (row ∷ rows) p).revision ≡ revision
  unfolding apply_rows
  revision-apply_rows_cons change revision row rows p =
      revision-apply_rows change revision rows _ (unfold apply in refl)

  module _ (no_collision : NoCollision sha256_hex) (change : Item → Item) (set : Row → Row)
      (keeps : KeepsUrl set) (agrees : (r : Row) → change (item_of r) ≡ item_of (set r))
      (revision : ℕ) where
    -- The changed rows are rows of the table with different keys.
    pub apply_rows-InSync :
        (changed table : List Row) (p : Projection)
        → IsKeyed table
        → IsKeyed changed
        → AreRowsOf table changed
        → InSync sha256_hex p table
        → InSync sha256_hex
            (apply_rows change revision changed p)
            (update_urls (urls_of changed) set table)
    unfolding apply_rows
    apply_rows-InSync [] table p k kc a h = rw update_urls-nil h
    apply_rows-InSync (row ∷ rows) table p k kc a h =
        rw
          (
            update_urls-cons set keeps row.url (urls_of rows) table
                (contains-find_row row.url rows kc.0),
            agrees row,
          )
          (apply_rows-InSync rows _ _ (update_where-IsKeyed _ set keeps table k) kc.1
            (AreRowsOf-update set keeps table row.url rows kc.0 a.1)
            (apply-InSync sha256_hex no_collision p set keeps row.url table row revision none k a.0
              h))
