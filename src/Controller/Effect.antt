-- ===== src/Controller/Effect.antt =====
-- What `transition` writes, and what it does where the manifest cannot be written.
use tod_dl.Manifest.Selected.{revision_of-next}
use tod_dl.Controller.Steps.{update_one}
use tod_dl.Status.{Status}
use tod_dl.Manifest.{
  Row, Db, Clock, find_row, update_urls, log_transition, advance_revision, revision_of,
}
use tod_dl.Manifest.Rows.{KeepsUrl, find_row-update_where, find_row-url, find_row-update_ne}
use tod_dl.Controller.{Controller, transition, commit_transition}
use tod_dl.Controller.Changes.{db-apply_projection_change}
use tod_dl.Base.{
  ◌+◌, String, false, Option, none, some, [], ◌∷◌, ◌++◌, ◌≡◌, refl, ap, ◌∙◌, arith, str_eq, eq_iff,
  contains, if◌then◌else◌, Bool-cases, inl, inr,
}

module _ (sha256_hex : String → String) (clock : Clock) (url : String) (to_status : Status)
    (detail : Option String) (fields : Row → Row) (keeps : KeepsUrl fields) (c : Controller) where
  -- One row changes, all others stay, one audit record is added, and the revision grows by one.
  pub record Committed (row : Row) (c' : Controller) : Type 0 where
    pub rows :
        (other : String)
        → find_row other c'.db.downloads ≡ (
            if str_eq other url
            then some (fields (record row { status = to_status; updated_at = clock.stamp }))
            else find_row other c.db.downloads)
    pub audited :
        c'.db.transitions
        ≡ c.db.transitions
          ++ record {
            url = url;
            run_id = c.run_id;
            from_status = some row.status;
            to_status = to_status;
            detail = detail;
            recorded_at = clock.stamp;
          }
            ∷ []
    pub counted : revision_of c.run_id c'.db ≡ revision_of c.run_id c.db + 1

  abbrev set : Row → Row
  set r = fields (record r { status = to_status; updated_at = clock.stamp })

  set_keeps : KeepsUrl set
  set_keeps r = keeps _

  changed-one :
      (row : Row)
      → find_row url c.db.downloads ≡ some row
      → find_row url (update_urls (url ∷ []) set c.db.downloads) ≡ some (set row)
  unfolding update_urls contains
  changed-one row found =
      find_row-update_where _ set set_keeps url c.db.downloads
      ∙ ground (arith, found, find_row-url url c.db.downloads row found, eq_iff row.url url)

  others-same :
      (other : String)
      → str_eq other url ≡ false
      → find_row other (update_urls (url ∷ []) set c.db.downloads) ≡ find_row other c.db.downloads
  others-same other ne =
      rw (update_one set set_keeps url c.db.downloads)
        (find_row-update_ne set set_keeps url other c.db.downloads ne)

  all-rows :
      (row : Row)
      → find_row url c.db.downloads ≡ some row
      → (other : String)
      → find_row other (update_urls (url ∷ []) set c.db.downloads)
        ≡ (if str_eq other url then some (set row) else find_row other c.db.downloads)
  all-rows row found other = elim (Bool-cases (str_eq other url)) [
    | inl e ↦ rw (e, (eq_iff other url).0 e) (changed-one row found)
    | inr e ↦ rw e (others-same other e)
  ]

  commit-Committed :
      (row : Row)
      → find_row url c.db.downloads ≡ some row
      → Committed row (commit_transition sha256_hex clock url to_status detail fields row c)
  unfolding commit_transition log_transition advance_revision revision_of
  commit-Committed row found =
      let same = (db-apply_projection_change sha256_hex _ _ _ _ _).0 in
      record {
        rows = λ other. ap (λ (d : Db). find_row other d.downloads) same ∙ all-rows row found other;
        audited = ap (λ (d : Db). d.transitions) same;
        counted =
            revision_of-next c.run_id c.db
              (commit_transition sha256_hex clock url to_status detail fields row c).db
              (ap (λ (d : Db). d.revisions) same);
      }

  pub transition-Committed :
      (row : Row)
      → find_row url c.db.downloads ≡ some row
      → ((transition sha256_hex none clock url to_status detail fields c).1 ≡ none)
        × Committed row (transition sha256_hex none clock url to_status detail fields c).0
  unfolding transition
  transition-Committed row found = rw (found, transition) (refl, commit-Committed row found)
