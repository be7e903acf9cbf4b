-- ===== src/Controller/Consistent.antt =====
-- What holds between two steps of the controller: the summary that the monitor shows is the one
-- that a fresh hydration of the manifest would give.
use tod_dl.Manifest.Selected.{selected-of}
use tod_dl.Base.{String, some, ◌≡◌, List, ℕ, ◌∙◌, sym}
use tod_dl.Manifest.{Db, selected_rows, revision_of}
use tod_dl.Manifest.Rows.{IsKeyed, KeepsUrl, update_urls-IsKeyed}
use tod_dl.Projection.{Projection}
use tod_dl.Projection.Sync.{InSync}
use tod_dl.Controller.{Controller, Row, update_urls}

module _ (sha256_hex : String → String) where
  -- `p` summarises the rows of the run, at the revision of the run.
  pub record Summarises (p : Projection) (run_id : String) (db : Db) : Type 0 where
    pub in_sync : InSync sha256_hex p (selected_rows run_id db)
    pub revised : p.revision ≡ revision_of run_id db

  pub record IsConsistent (c : Controller) : Type 0 where
    pub keyed : IsKeyed c.db.downloads
    pub synced : (p : Projection) → c.projection ≡ some p → Summarises p c.run_id c.db

  -- A step that updates rows by their keys and leaves the projection in step with them.
  pub parts-IsConsistent :
      (c c' : Controller) (urls : List String) (set : Row → Row) (revision : ℕ)
      → KeepsUrl set
      → IsConsistent c
      → c'.run_id ≡ c.run_id
      → c'.db.run_items ≡ c.db.run_items
      → c'.db.downloads ≡ update_urls urls set c.db.downloads
      → revision_of c.run_id c'.db ≡ revision
      → ((p : Projection)
          → c'.projection ≡ some p
          → (p.revision ≡ revision)
            × InSync sha256_hex p (update_urls urls set (selected_rows c.run_id c.db)))
      → IsConsistent c'
  parts-IsConsistent c c' urls set revision keeps h same_run same_items changed at sync = record {
    keyed = rw changed (update_urls-IsKeyed urls set keeps c.db.downloads h.keyed);
    synced = λ p e. simp same_run (record {
      in_sync = rw (selected-of c.run_id c.db c'.db urls set keeps same_items changed) (sync p e).1;
      revised = (sync p e).0 ∙ sym at;
    });
  }
