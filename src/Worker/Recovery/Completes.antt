-- ===== src/Worker/Recovery/Completes.antt =====
-- `reconcile_promotions` and `cleanup_completed_staging` (src/tod-dl.py) finish what a promotion left.
use tod_dl.Controller.{OsError}
use tod_dl.Worker.Transfer.Promotion.{check_io}
use tod_dl.Worker.Sound.{
  Succeeds, Sound, change-Sound, files-Sound, finalized_event-Sound, and_then-returned,
  check_io-Sound,
}
use tod_dl.Status.{Status}
use tod_dl.Manifest.{Row, find_row}
use tod_dl.Worker.{System, World, Outcome, or_text}
use tod_dl.Worker.Recovery.{
  Disk, complete_reconciled, path_of, remove_reconciled, finish_matching, relink,
  is_promotable_final_path, resolve, is_safe_final_path, is_safe_staging_path, can_relink, matches,
  reading_error, reconcile_promotion, bytes_at,
}
use tod_dl.Files.{file, Files, size_of, exists, is_file, node_is_file, is_regular, node_bytes}
use tod_dl.Worker.{◌>>◌, returned}
use text.Mathlib.TextPositions.{eq_refl}
use tod_dl.Base.{
  ℕ, String, true, false, not, ◌&&◌, Option, none, some, List, ◌≡◌, refl, ap, ◌∙◌, ◌⊎◌, inl, inr,
  arith, str_eq, lookup, insert, erase, lookup-insert, lookup-erase, if_elim, is_some,
}

-- No operation of the file system fails on these paths.
pub record IsQuiet (disk : Disk) (target staging : String) : Type 0 where
  pub reads : disk.read_error target ≡ none
  pub links : disk.link_error target ≡ none
  pub looks : disk.lstat_error staging ≡ none
  pub flushes : disk.flush_error ≡ none
  pub unlinks : disk.unlink_error staging ≡ none

-- The item is complete, with the hash of the bytes, which are at the target, and the staging file is
-- gone.
pub record IsFinished (url target staging digest : String) (bytes : List ℕ) (w : World)
    : Type 0 where
  pub row : Row
  pub found : find_row url w.controller.db.downloads ≡ some row
  pub complete : row.status ≡ Status.complete
  pub hashed : row.sha256 ≡ some digest
  pub cleaned : is_some row.cleanup_completed_at ≡ true
  pub final : lookup target w.files ≡ some (file bytes)
  pub gone : lookup staging w.files ≡ none

-- The row holds an intent to promote.
pub record IsIntent (target staging digest : String) (row : Row) : Type 0 where
  pub targeted : path_of row.promotion_target ≡ some target
  pub staged : path_of row.staging_path ≡ some staging
  pub hashed : row.sha256 ≡ some digest

module _ (sys : System) (disk : Disk) (target staging : String) (bytes : List ℕ)
    (quiet : IsQuiet disk target staging) (apart : str_eq staging target ≡ false)
    (known : str_eq (sys.sha256 bytes) "" ≡ false) (row : Row) where
  abbrev pub digest : String
  digest = sys.sha256 bytes

  abbrev pub Ends : Outcome Unit × World → Type 0
  Ends r = Succeeds r (IsFinished row.url target staging digest bytes)

  -- The row as `complete_reconciled` leaves it.
  abbrev completed : ℕ → Row → Row
  completed size r = record r {
    status = Status.complete;
    updated_at = disk.clock.stamp;
    bytes = some size;
    sha256 = some digest;
  }

  remove_reconciled-Ends :
      {r : Row} {files : Files} {point : Option String} (w : World)
      → Sound row.url r files point w
      → r.sha256 ≡ some digest
      → lookup target files ≡ some (file bytes)
      → Ends (remove_reconciled sys disk row staging w)
  unfolding remove_reconciled check_io
  remove_reconciled-Ends w s hashed final =
      let (fine, s') =
        change-Sound _ (files-Sound w s (erase staging w.files)) sys disk.clock Status.complete
          (some "reconciled staging cleanup")
          (λ r. record r { cleanup_completed_at = some disk.clock.stamp }) (λ r. refl) in
      rw quiet.unlinks (
        and_then-returned Ends _ tt _ w refl (
          and_then-returned Ends _ tt _ _ refl (
            fine,
            record {
              row = _;
              found = s'.found;
              complete = refl;
              hashed = hashed;
              cleaned = refl;
              final = rw (lookup-erase staging target w.files, apart, s.same_files) final;
              gone = rw (lookup-erase staging staging w.files, eq_refl staging) refl;
            },
          )))

  complete_reconciled-Sound :
      {r : Row} {files : Files} {point : Option String} (w : World)
      → Sound row.url r files point w
      → Succeeds
          (complete_reconciled sys disk row target digest w)
          (Sound row.url (completed (size_of (lookup target w.files)) r) files point)
  unfolding complete_reconciled
  complete_reconciled-Sound {r = r} {files = files} {point = point} w s =
      let Q = λ (o : Outcome Unit × World).
        Succeeds o (Sound row.url (completed (size_of (lookup target w.files)) r) files point) in
      let (fine, s') =
        finalized_event-Sound w s sys row.relative_path
          (or_text row.storage_path (sys.stored_of_final target)) (size_of (lookup target w.files))
          digest row.expected_sha256 false in
      and_then-returned Q _ (size_of (lookup target w.files)) _ w refl (
        and_then-returned Q _ tt _ _ fine (
          change-Sound _ s' sys disk.clock Status.complete (some "reconciled promotion intent")
            (λ r. record r { bytes = some (size_of (lookup target w.files)); sha256 = some digest })
            (λ r. refl)))

  -- The two steps that end a reconciliation, once the target is there.
  finish-Ends :
      {r : Row} {files : Files} {point : Option String} (w : World)
      → Sound row.url r files point w
      → lookup target files ≡ some (file bytes)
      → Ends (
          (complete_reconciled sys disk row target digest >> remove_reconciled sys disk row staging)
            w)
  finish-Ends w s final =
      let (fine, s') = complete_reconciled-Sound w s in
      and_then-returned Ends _ tt _ _ fine (remove_reconciled-Ends _ s' refl final)

  relink-Ends :
      {r : Row} {files : Files} {point : Option String} (w : World)
      → Sound row.url r files point w
      → lookup staging files ≡ some (file bytes)
      → Ends (relink sys disk row target digest staging w)
  unfolding relink
  relink-Ends w s there =
      let after = insert target (file bytes) w.files in
      let (fine, s') = check_io-Sound _ (files-Sound w s after) disk.flush_error quiet.flushes in
      rw (relink, quiet.links)
        (and_then-returned Ends _ (lookup staging w.files) _ w refl (
          rw (ap (lookup staging) s.same_files ∙ there) (
            and_then-returned Ends _ tt _ _ refl (
              and_then-returned Ends _ tt _ _ fine (
                finish-Ends _ s'
                  (rw (lookup-insert target target (file bytes) w.files, eq_refl target) refl))))))

  finish_matching-Ends :
      {r : Row} {files : Files} {point : Option String} (w : World)
      → Sound row.url r files point w
      → path_of row.staging_path ≡ some staging
      → lookup target files ≡ some (file bytes)
      → lookup staging files ≡ some (file bytes)
      → Ends (finish_matching sys disk row target digest w)
  unfolding finish_matching exists is_file node_is_file
  finish_matching-Ends w s staged final there =
      let (fine, s') = complete_reconciled-Sound w s in
      rw staged (
        and_then-returned Ends _ tt _ _ fine (
          and_then-returned Ends _ (some (file bytes)) _ _
            (ap returned (ap (lookup staging) s'.same_files ∙ there))
            (remove_reconciled-Ends _ s' refl final)))

  -- The target is free and the staging file can be linked, or the target holds the file already.
  abbrev pub CanPromote : Files → Type 0
  CanPromote files =
      (is_promotable_final_path sys target files ≡ true)
      ⊎ ((is_safe_final_path sys target files ≡ true) × (lookup target files ≡ some (file bytes)))

  module _ (files : Files) where
    reading_lem : reading_error sys disk target digest files ≡ none
    unfolding reading_error
    reading_lem =
        if_elim (λ (o : Option OsError). o ≡ none)
          (is_safe_final_path sys target files && not (str_eq digest "")) _ _ (λ t. quiet.reads)
          (λ t. refl)

    matches-free :
        is_promotable_final_path sys target files ≡ true
        → matches sys disk target digest files ≡ false
    unfolding is_promotable_final_path matches is_safe_final_path is_regular
    matches-free h = ground arith

    matches-held :
        is_safe_final_path sys target files ≡ true
        → lookup target files ≡ some (file bytes)
        → matches sys disk target digest files ≡ true
    unfolding matches bytes_at node_bytes
    matches-held h final = rw (h, bytes_at, final) (rw (known, eq_refl digest) refl)

    can_relink-free :
        is_promotable_final_path sys target files ≡ true
        → lookup staging files ≡ some (file bytes)
        → is_safe_staging_path sys staging files ≡ true
        → can_relink sys disk target digest staging files ≡ true
    unfolding can_relink is_regular
    can_relink-free h there safe = rw (h, there, known, safe, quiet.looks) refl

  resolve-Ends :
      {r : Row} {point : Option String} (w : World)
      → Sound row.url r w.files point w
      → path_of row.staging_path ≡ some staging
      → lookup staging w.files ≡ some (file bytes)
      → is_safe_staging_path sys staging w.files ≡ true
      → CanPromote w.files
      → Ends (resolve sys disk row target digest w)
  unfolding resolve
  resolve-Ends w s staged there safe (inl free) = and_then-returned Ends _ w.files _ w refl (
      rw
        (
          reading_lem w.files,
          matches-free w.files free,
          staged,
          can_relink-free w.files free there safe,
        )
        (relink-Ends w s there))
  resolve-Ends w s staged there safe (inr (sound, final)) =
      and_then-returned Ends _ w.files _ w refl (
        rw (reading_lem w.files, matches-held w.files sound final)
          (finish_matching-Ends w s staged final there))

  digest_text : row.sha256 ≡ some digest → or_text row.sha256 "" ≡ digest
  unfolding or_text
  digest_text h = ap (λ o. or_text o "") h ∙ rw known refl

  -- A row that holds an intent to promote, with its file still staged below plain directories, and a
  -- target that is free below plain directories or holds that file already, is finished by one pass of
  -- the reconciliation, where the file system and the record store work: it is complete with the hash
  -- of the bytes at the target, and the staging file is gone.
  pub reconcile_promotion-finishes :
      {point : Option String} (w : World)
      → Sound row.url row w.files point w
      → IsIntent target staging digest row
      → lookup staging w.files ≡ some (file bytes)
      → is_safe_staging_path sys staging w.files ≡ true
      → CanPromote w.files
      → Succeeds
          (reconcile_promotion sys disk row w)
          (IsFinished row.url target staging digest bytes)
  unfolding reconcile_promotion
  reconcile_promotion-finishes w s intent there safe can =
      rw (reconcile_promotion, intent.targeted, digest_text intent.hashed)
        (resolve-Ends w s intent.staged there safe can)
