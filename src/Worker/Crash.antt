-- ===== src/Worker/Crash.antt =====
-- A promotion (`transfer`, src/tod-dl.py) that the process does not survive is finished by the
-- next start.
use tod_dl.Worker.Recovery.Cleanup.{clean_staging-finishes}
use mathlib.Core.Path.{subst}
use tod_dl.Manifest.Rows.{find_row-url}
use tod_dl.Controller.{is_complete}
use tod_dl.Worker.Plain.{is_plain_below-insert}
use tod_dl.Worker.Sound.{Sound, Succeeds}
use tod_dl.Worker.Recovery.Completes.{
  IsFinished, IsIntent, IsQuiet, reconcile_promotion-finishes, CanPromote,
}
use tod_dl.Manifest.{Row, find_row, Db}
use tod_dl.Worker.Transfer.{Engine}
use tod_dl.Worker.Recovery.{
  path_of, Disk, is_promoting, is_safe_staging_path, is_promotable_final_path, reconcile_promotion,
  needs_cleanup, clean_staging, is_plain_below, is_safe_final_path,
}
use tod_dl.Files.{file, Files, is_regular}
use tod_dl.Worker.{
  returned, exited, System, or_text, World, Outcome, and_then, hit_failpoint, Step, is_here,
}
use tod_dl.Status.{Status}
use text.Mathlib.TextPositions.{eq_refl}
use tod_dl.Base.{
  ℕ, String, true, false, Option, none, some, List, ◌≡◌, refl, sym, ◌∙◌, ◌⊎◌, inl, inr, arith,
  str_eq, eq_iff, lookup, insert, lookup-insert, Bool-cases, Option-cases,
}

-- The two ways in which a process leaves the row, and what the next start does with each of them.
pub data IsRecoverable (sys : System) (disk : Disk) (url target staging digest : String)
    (bytes : List ℕ) (w : World) : Type 0 where
  intended :
      (row : Row)
      → find_row url w.controller.db.downloads ≡ some row
      → is_promoting row.status ≡ true
      → Succeeds (reconcile_promotion sys disk row w) (IsFinished url target staging digest bytes)
      → IsRecoverable sys disk url target staging digest bytes w
  committed :
      (row : Row)
      → find_row url w.controller.db.downloads ≡ some row
      → needs_cleanup row ≡ true
      → Succeeds (clean_staging sys disk row w) (IsFinished url target staging digest bytes)
      → IsRecoverable sys disk url target staging digest bytes w

-- What a promotion starts from, in a file system that works.
pub record IsReady (sys : System) (eng : Engine) (disk : Disk) (target staging : String)
    (bytes : List ℕ) (r : Row) (files : Files) : Type 0 where
  pub quiet : IsQuiet disk target staging
  pub flushes : eng.flush_error ≡ none
  pub links : eng.link_error ≡ none
  pub enters : eng.directory_error ≡ none
  pub apart : str_eq staging target ≡ false
  pub named : path_of (some target) ≡ some target
  pub known : str_eq (sys.sha256 bytes) "" ≡ false
  pub staged_at : path_of r.staging_path ≡ some staging
  pub not_cleaned : r.cleanup_completed_at ≡ none
  pub staged : lookup staging files ≡ some (file bytes)
  pub safe : is_safe_staging_path sys staging files ≡ true
  pub free : is_promotable_final_path sys target files ≡ true

path_of-or_text :
    (o : Option String) (text other : String) → path_of o ≡ some text → or_text o other ≡ text
unfolding path_of or_text
path_of-or_text none text other h = cc
path_of-or_text (some value) text other h = elim (Bool-cases (str_eq value "")) [
  | inl e ↦ ground arith
  | inr e ↦ ground arith
]

module _ (sys : System) (eng : Engine) (disk : Disk) (row : Row) (target stored staging : String)
    (worker : ℕ) (bytes : List ℕ) where
  abbrev pub digest : String
  digest = sys.sha256 bytes

  abbrev pub Finished : World → Type 0
  Finished = IsFinished row.url target staging digest bytes

  abbrev pub Recoverable : World → Type 0
  Recoverable = IsRecoverable sys disk row.url target staging digest bytes

  -- It is finished, or the process has ended where the next start can finish it.
  abbrev pub Lands : Outcome String × World → Type 0
  Lands r = ((r.0 ≡ returned "complete") × Finished r.1) ⊎ ((r.0 ≡ exited) × Recoverable r.1)

  pub hit-Lands :
      {A : Type 0} (Q : Outcome A × World → Type 0) (name : String) (rest : Unit → Step A)
      (w : World)
      → Q (exited, w)
      → Q (rest tt w)
      → Q (and_then (hit_failpoint name w).0 rest (hit_failpoint name w).1)
  unfolding and_then hit_failpoint
  hit-Lands Q name rest w gone goes = elim (Bool-cases (is_here name w.failpoint)) [
    | inl e ↦ rw e gone
    | inr e ↦ rw e goes
  ]

  module _ (r : Row) (files : Files) (point : Option String) (n m : ℕ)
      (ready : IsReady sys eng disk target staging bytes r files) where
    -- The row with the intent.
    abbrev pub intent : Row
    intent = record r {
      status = Status.promoting;
      updated_at = eng.clock.stamp;
      sha256 = some digest;
      bytes = some n;
      promotion_target = some target;
      promotion_intent_at = some eng.clock.stamp;
    }

    intent_lem : IsIntent target staging digest intent
    intent_lem = record { targeted = ready.named; staged = ready.staged_at; hashed = refl }

    abbrev pub linked : Files
    linked = insert target (file bytes) files

    -- What the readiness says of the target.
    pub free_parts :
        (is_plain_below sys sys.destination target files ≡ true) × (lookup target files ≡ none)
    unfolding is_promotable_final_path
    free_parts = (
      ground (arith, ready.free),
      elim (Option-cases (lookup target files)) [
        | inl e ↦ e
        | inr (node, e) ↦ ground (arith, ready.free)
      ],
    )

    pub still_staged : lookup staging linked ≡ some (file bytes)
    still_staged = ground (
      arith,
      lookup-insert target staging (file bytes) files,
      eq_iff target staging,
      ready.staged,
      free_parts.1,
    )

    pub still_safe : is_safe_staging_path sys staging linked ≡ true
    unfolding is_safe_staging_path
    still_safe =
        is_plain_below-insert sys sys.incoming staging target bytes files free_parts.1 ready.safe

    pub linked_final : lookup target linked ≡ some (file bytes)
    linked_final = rw (lookup-insert target target (file bytes) files, eq_refl target) refl

    pub linked_safe : is_safe_final_path sys target linked ≡ true
    unfolding is_safe_final_path is_regular
    linked_safe =
        rw
          (
            is_plain_below-insert sys sys.destination target target bytes files free_parts.1
                free_parts.0,
            linked_final,
          )
          refl

    keyed :
        (q : Row) (db : Db)
        → find_row row.url db.downloads ≡ some q
        → q.url ≡ r.url
        → r.url ≡ row.url
    keyed q db found same = sym same ∙ find_row-url row.url db.downloads q found

    abbrev pub Can : Files → Type 0
    Can = CanPromote sys disk target staging bytes ready.quiet ready.apart ready.known intent

    -- The row with the intent, in a world where the target is free or holds the file.
    pub intent-Recoverable :
        (there : Files) (w : World)
        → Sound row.url intent there point w
        → lookup staging there ≡ some (file bytes)
        → is_safe_staging_path sys staging there ≡ true
        → Can there
        → Recoverable w
    unfolding is_promoting
    intent-Recoverable there w s staged safe can =
        let back = sym s.same_files in
        intended intent s.found refl (
          subst
            (λ (url : String).
              Succeeds (reconcile_promotion sys disk intent w)
                (IsFinished url target staging digest bytes))
            (keyed intent w.controller.db s.found refl)
            (reconcile_promotion-finishes sys disk target staging bytes ready.quiet ready.apart
              ready.known intent w
              (subst (λ (url : String). Sound url intent w.files point w)
                (sym (keyed intent w.controller.db s.found refl))
                (record {
                  found = s.found;
                  same_files = refl;
                  same_point = s.same_point;
                  works = s.works;
                }))
              intent_lem (subst (λ (f : Files). lookup staging f ≡ some (file bytes)) back staged)
              (subst (λ (f : Files). is_safe_staging_path sys staging f ≡ true) back safe)
              (subst Can back can)))

    -- Once the link is made.
    pub linked-Recoverable : (w : World) → Sound row.url intent linked point w → Recoverable w
    linked-Recoverable w s =
        intent-Recoverable linked w s still_staged still_safe (inr (linked_safe, linked_final))

    -- The row as the completion leaves it.
    abbrev pub committed_row : Row
    committed_row = record intent {
      status = Status.complete;
      updated_at = eng.clock.stamp;
      bytes = some m;
      sha256 = some digest;
    }

    staging_lem : or_text committed_row.staging_path (sys.staging_path committed_row.url) ≡ staging
    staging_lem = path_of-or_text r.staging_path staging _ ready.staged_at

    pub committed-Recoverable :
        (w : World) → Sound row.url committed_row linked point w → Recoverable w
    unfolding needs_cleanup is_complete is_regular
    committed-Recoverable w s =
        let back = sym s.same_files in
        let same = keyed committed_row w.controller.db s.found refl in
        committed committed_row s.found (rw ready.not_cleaned refl) (
          subst
            (λ (url : String).
              Succeeds (clean_staging sys disk committed_row w)
                (IsFinished url target staging digest bytes))
            same
            (clean_staging-finishes sys disk target staging bytes ready.quiet ready.apart
              committed_row w
              (subst (λ (url : String). Sound url committed_row w.files point w) (sym same)
                (record {
                  found = s.found;
                  same_files = refl;
                  same_point = s.same_point;
                  works = s.works;
                }))
              refl (subst (λ (f : Files). lookup target f ≡ some (file bytes)) back linked_final)
              staging_lem
              (subst (λ (f : Files). is_safe_staging_path sys staging f ≡ true) back still_safe)
              (inl (rw (s.same_files, still_staged) refl))))
