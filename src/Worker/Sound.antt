-- ===== src/Worker/Sound.antt =====
-- The steps of a worker (src/tod-dl.py) that succeed where the row is there and the record store
-- works, and what they leave.
use tod_dl.Worker.Transfer.Promotion.{check_io}
use tod_dl.Controller.Effect.{transition-Committed}
use tod_dl.Worker.Representation.{change}
use tod_dl.Manifest.Rows.{KeepsUrl}
use tod_dl.Status.{Status}
use text.Mathlib.TextPositions.{eq_refl}
use tod_dl.Worker.Events.{evidence, clear_transfer_telemetry, finalized_event}
use tod_dl.Files.{Files}
use tod_dl.Controller.{
  transition, commit_transition, apply_projection_change, provenance_event, Evidence, notify,
  Controller, OsError,
}
use tod_dl.Worker.{Outcome, World, and_then, outcome_of, returned, Step, System}
use tod_dl.Manifest.{Row, find_row, Clock, Db}
use tod_dl.Base.{ℕ, String, Bool, true, Option, none, some, ◌≡◌, refl, ap, ◌∙◌, arith}

-- The row of the url, the files and the failpoint, in a world whose record store works.
pub record Sound (url : String) (row : Row) (files : Files) (point : Option String) (w : World)
    : Type 0 where
  pub found : find_row url w.controller.db.downloads ≡ some row
  pub same_files : w.files ≡ files
  pub same_point : w.failpoint ≡ point
  pub works : w.controller.record_store_works ≡ true

-- The step returns `tt`, and `S` holds afterwards.
abbrev pub Succeeds : Outcome Unit × World → (World → Type 0) → Type 0
Succeeds r S = (r.0 ≡ returned tt) × S r.1

module _ {A B : Type 0} (Q : Outcome B × World → Type 0) where
  pub and_then-returned :
      (o : Outcome A) (a : A) (rest : A → Step B) (w : World)
      → o ≡ returned a
      → Q (rest a w)
      → Q (and_then o rest w)
  unfolding and_then
  and_then-returned o a rest w e q = rw e q

module _ (sha256_hex : String → String) where
  works-transition :
      (clock : Clock) (url : String) (status : Status) (detail : Option String) (fields : Row → Row)
      (c : Controller)
      → (transition sha256_hex none clock url status detail fields c).0.record_store_works
        ≡ c.record_store_works
  unfolding transition commit_transition apply_projection_change notify
  works-transition clock url status detail fields c = ground arith

-- A record store that works takes the event, and nothing else changes.
provenance_event_lem :
    (e : Evidence) (c : Controller)
    → c.record_store_works ≡ true
    → ((provenance_event e c).1 ≡ none)
      × ((provenance_event e c).0.db ≡ c.db)
      × ((provenance_event e c).0.record_store_works ≡ c.record_store_works)
unfolding provenance_event
provenance_event_lem e c h = (ground arith, ground arith, ground arith)

module _ {url : String} {row : Row} {files : Files} {point : Option String} (w : World)
    (s : Sound url row files point w) where
  pub change-Sound :
      (sys : System) (clock : Clock) (status : Status) (detail : Option String) (fields : Row → Row)
      → KeepsUrl fields
      → Succeeds (change sys clock url status detail fields w) (
          Sound url (fields (record row { status = status; updated_at = clock.stamp })) files point)
  unfolding outcome_of
  change-Sound sys clock status detail fields keeps =
      let (fine, done) =
        transition-Committed sys.sha256_hex clock url status detail fields keeps w.controller row
          s.found in
      (
        rw fine refl,
        record {
          found = done.rows url ∙ rw (eq_refl url) refl;
          same_files = s.same_files;
          same_point = s.same_point;
          works =
              works-transition sys.sha256_hex clock url status detail fields w.controller ∙ s.works;
        },
      )

  pub evidence-Sound : (e : Evidence) → Succeeds (evidence e w) (Sound url row files point)
  unfolding outcome_of
  evidence-Sound e =
      let (fine, db, works) = provenance_event_lem e w.controller s.works in
      (
        rw fine refl,
        record {
          found = ap (λ (d : Db). find_row url d.downloads) db ∙ s.found;
          same_files = s.same_files;
          same_point = s.same_point;
          works = works ∙ s.works;
        },
      )

  pub clear-Sound : Succeeds (clear_transfer_telemetry url w) (Sound url row files point)
  unfolding clear_transfer_telemetry and_then notify
  clear-Sound = (
    refl,
    record {
      found = s.found;
      same_files = s.same_files;
      same_point = s.same_point;
      works = s.works;
    },
  )

  pub check_io-Sound :
      (error : Option OsError)
      → error ≡ none
      → Succeeds (check_io error w) (Sound url row files point)
  unfolding check_io
  check_io-Sound error e = rw e (refl, s)

  pub files-Sound : (after : Files) → Sound url row after point (record w { files = after })
  files-Sound after = record {
    found = s.found;
    same_files = refl;
    same_point = s.same_point;
    works = s.works;
  }

-- The evidence of a final file.
pub finalized_event-Sound :
    {url : String} {row : Row} {files : Files} {point : Option String} (w : World)
    → Sound url row files point w
    → (sys : System) (logical stored : String) (byte_count : ℕ) (sha256 : String)
      (expected_sha256 : Option String) (size_compared : Bool)
    → Succeeds
        (finalized_event sys url logical stored byte_count sha256 expected_sha256 size_compared w)
        (Sound url row files point)
unfolding finalized_event and_then
finalized_event-Sound w s sys logical stored byte_count sha256 expected_sha256 size_compared =
    evidence-Sound _
      (record {
        found = s.found;
        same_files = s.same_files;
        same_point = s.same_point;
        works = s.works;
      })
      _
