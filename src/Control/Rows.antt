-- ===== src/Control/Rows.antt =====
-- What an item action leaves in the rows of the manifest.
use tod_dl.Manifest.Selected.{find_row-selected, selected-IsKeyed}
use tod_dl.Control.Items.Changed.{changed-contains}
use tod_dl.Control.Items.Selection.{is_accepted, changed_rows, by_id}
use tod_dl.Controller.Revised.{db-set_projection_revision}
use tod_dl.Controller.Changes.{db-apply_changes}
use tod_dl.Control.Commit.{record_control-Recorded}
use tod_dl.Control.Requests.{record_control}
use tod_dl.Manifest.Rows.{KeepsUrl, IsKeyed, urls_of, find_row-update_where, find_row-url}
use tod_dl.Projection.Sync.Apply.{NoCollision}
use tod_dl.Projection.{Item}
use tod_dl.Controller.{notify, Controller, apply_changes, set_projection_revision}
use tod_dl.Control.Items.{item_action, commit_changes, is_empty}
use tod_dl.Manifest.{Clock, Row, update_urls, in_run, find_row, selected_rows, Db}
use tod_dl.Base.{
  true, some, String, List, Option, ℕ, ◌≡◌, if◌then◌else◌, contains, ◌&&◌, if_elim, ap, ◌∙◌,
}

module _ (sha256_hex : String → String) (clock : Clock) (id session action : String)
    (set : Row → Row) (change : Item → Item) (reason : String) (changed : List Row)
    (c : Controller) where
  commit_changes-rows :
      (commit_changes sha256_hex clock id session action set change reason changed c).0.db.downloads
      ≡ update_urls (urls_of changed) set c.db.downloads
  unfolding commit_changes
  commit_changes-rows =
      let updated = record c {
        db = record (c.db) { downloads = update_urls (urls_of changed) set c.db.downloads };
      } in
      let x = record_control clock id session action reason updated in
      let r = record_control-Recorded clock id session action reason updated in
      let applied = apply_changes sha256_hex change x.1 changed x.0 in
      let same = (db-apply_changes sha256_hex change x.1 changed x.0).0 in
      let last = (db-set_projection_revision sha256_hex x.1 applied).0 in
      if_elim
        (λ (d : Controller). d.db.downloads ≡ update_urls (urls_of changed) set c.db.downloads)
        (is_empty changed) (set_projection_revision x.1 applied) applied
        (λ _. ap (λ (d : Db). d.downloads) last ∙ ap (λ (d : Db). d.downloads) same ∙ r.same_rows)
        (λ _. ap (λ (d : Db). d.downloads) same ∙ r.same_rows)

-- An item action assigns to the row of a selected item if the item is requested and passes the
-- check, and leaves the row as it is otherwise.
pub item_action-row :
    (sha256_hex : String → String)
    → NoCollision sha256_hex
    → (clock : Clock) (id session action : String) (ids : List String) (check : Row → Option String)
      (accepted : String) (set : Row → Row) (change : Item → Item) (reason_of : ℕ → ℕ → String)
      (message : String) (c : Controller) (url : String) (row : Row)
    → KeepsUrl set
    → IsKeyed c.db.downloads
    → in_run c.run_id url c.db.run_items ≡ true
    → find_row url c.db.downloads ≡ some row
    → find_row url
        (item_action sha256_hex clock id session action ids check accepted set change reason_of
          message c).0.db.downloads
      ≡ some (if contains (sha256_hex url) ids && is_accepted check row then set row else row)
unfolding item_action notify update_urls
item_action-row sha256_hex no_collision clock id session action ids check accepted set change
      reason_of message c url row keeps k selected found =
    let rows = selected_rows c.run_id c.db in
    let changed = changed_rows check (by_id sha256_hex rows) ids in
    let is =
      changed-contains sha256_hex no_collision check rows url row
        (find_row-selected c.run_id c.db url selected ∙ found) ids
        (selected-IsKeyed c.run_id c.db k) in
    ap (find_row url)
      (commit_changes-rows sha256_hex clock id session action set change _ changed c)
    ∙ find_row-update_where (λ r. contains r.url (urls_of changed)) set keeps url c.db.downloads
    ∙ rw found (
        ap (λ b. some (if b then set row else row))
          (ap (λ u. contains u (urls_of changed)) (find_row-url url c.db.downloads row found) ∙ is))
