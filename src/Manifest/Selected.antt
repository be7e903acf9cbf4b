-- ===== src/Manifest/Selected.antt =====
-- The rows of a run, and its revision, after the statements that change the manifest.
use text.Mathlib.TextPositions.{eq_refl}
use tod_dl.Manifest.{
  Row, Db, selected_rows, update_urls, in_run, find_row, revision_of, advance_revision,
}
use tod_dl.Manifest.Rows.{IsKeyed, KeepsUrl, filter-update_where, filter-IsKeyed, find_row-filter}
use tod_dl.Base.{◌+◌, String, true, List, ◌≡◌, refl, lookup-insert, insert}

module _ (run_id : String) (db : Db) where
  pub selected-update_urls :
      (urls : List String) (set : Row → Row)
      → KeepsUrl set
      → selected_rows run_id (record db { downloads = update_urls urls set db.downloads })
        ≡ update_urls urls set (selected_rows run_id db)
  unfolding selected_rows update_urls
  selected-update_urls urls set keeps =
      filter-update_where _ set keeps (λ url. in_run run_id url db.run_items) db.downloads

  pub selected-IsKeyed : IsKeyed db.downloads → IsKeyed (selected_rows run_id db)
  unfolding selected_rows
  selected-IsKeyed h = filter-IsKeyed (λ url. in_run run_id url db.run_items) db.downloads h

  pub find_row-selected :
      (url : String)
      → in_run run_id url db.run_items ≡ true
      → find_row url (selected_rows run_id db) ≡ find_row url db.downloads
  unfolding selected_rows
  find_row-selected url h = find_row-filter (λ u. in_run run_id u db.run_items) url db.downloads h

  -- The revision that is returned is the one that is stored, one above the last.
  pub revision_of-advance :
      (revision_of run_id (advance_revision run_id db).0 ≡ (advance_revision run_id db).1)
      × ((advance_revision run_id db).1 ≡ revision_of run_id db + 1)
  unfolding advance_revision
  revision_of-advance = (
    rw (lookup-insert run_id run_id (revision_of run_id db + 1) db.revisions, revision_of)
        (rw eq_refl),
    refl,
  )

-- Only `run_items` and `downloads` say which rows a run has.
pub selected-of :
    (run_id : String) (db db' : Db) (urls : List String) (set : Row → Row)
    → KeepsUrl set
    → db'.run_items ≡ db.run_items
    → db'.downloads ≡ update_urls urls set db.downloads
    → selected_rows run_id db' ≡ update_urls urls set (selected_rows run_id db)
unfolding selected_rows
selected-of run_id db db' urls set keeps same_items changed =
    simp (same_items, changed) (selected-update_urls run_id db urls set keeps)

pub revision_of-next :
    (run_id : String) (db db' : Db)
    → db'.revisions ≡ insert run_id (revision_of run_id db + 1) db.revisions
    → revision_of run_id db' ≡ revision_of run_id db + 1
unfolding revision_of
revision_of-next run_id db db' h =
    rw (h, lookup-insert run_id run_id (revision_of run_id db + 1) db.revisions, revision_of)
      (rw eq_refl)
