-- ===== src/Worker/Recovery/Cleanup.antt =====
-- `cleanup_completed_staging` (src/tod-dl.py) finishes a completed item whose staging file is left.
use tod_dl.Status.{Status}
use tod_dl.Worker.Sound.{Sound, Succeeds, change-Sound, and_then-returned, files-Sound}
use tod_dl.Manifest.{Row}
use tod_dl.Worker.Recovery.Completes.{IsQuiet, IsFinished}
use tod_dl.Worker.Recovery.{
  Disk, clean_staging, finish_cleanup, remove_staging, is_safe_staging_path,
}
use tod_dl.Worker.{System, World, Outcome, or_text}
use tod_dl.Files.{file, directory, special, link_to, dangling, Files, is_regular, Node}
use text.Mathlib.TextPositions.{eq_refl}
use tod_dl.Base.{
  ℕ, String, true, false, Option, none, some, List, ◌≡◌, refl, ap, ◌∙◌, ◌⊎◌, arith, str_eq, lookup,
  erase, lookup-erase,
}

module _ (sys : System) (disk : Disk) (target staging : String) (bytes : List ℕ)
    (quiet : IsQuiet disk target staging) (apart : str_eq staging target ≡ false) (row : Row)
    {point : Option String} (w : World) (s : Sound row.url row w.files point w)
    (hashed : row.sha256 ≡ some (sys.sha256 bytes))
    (final : lookup target w.files ≡ some (file bytes)) where
  abbrev E : Outcome Unit × World → Type 0
  E r = Succeeds r (IsFinished row.url target staging (sys.sha256 bytes) bytes)

  finish_cleanup-ends :
      (after : Files)
      → lookup target after ≡ some (file bytes)
      → lookup staging after ≡ none
      → E (finish_cleanup sys disk row.url (record w { files = after }))
  unfolding finish_cleanup
  finish_cleanup-ends after kept gone =
      let (fine, s') =
        change-Sound _ (files-Sound w s after) sys disk.clock Status.complete
          (some "reconciled staging cleanup")
          (λ r. record r { cleanup_completed_at = some disk.clock.stamp }) (λ r. refl) in
      (
        fine,
        record {
          row = _;
          found = s'.found;
          complete = refl;
          hashed = hashed;
          cleaned = refl;
          final = ap (lookup target) s'.same_files ∙ kept;
          gone = ap (lookup staging) s'.same_files ∙ gone;
        },
      )

  remove_staging-ends :
      (node : Option Node)
      → lookup staging w.files ≡ node
      → (is_regular node ≡ true) ⊎ (node ≡ none)
      → E (remove_staging sys disk row.url staging node w)
  unfolding remove_staging is_regular
  remove_staging-ends none there can =
      rw (remove_staging, quiet.looks) (finish_cleanup-ends w.files final there)
  remove_staging-ends (some (file b)) there can =
      rw (remove_staging, quiet.looks, quiet.unlinks)
        (and_then-returned E _ tt _ _ refl (
          finish_cleanup-ends (erase staging w.files)
            (rw (lookup-erase staging target w.files, apart) final)
            (rw (lookup-erase staging staging w.files, eq_refl staging) refl)))
  remove_staging-ends (some (directory size)) there can = ground arith
  remove_staging-ends (some (special size)) there can = ground arith
  remove_staging-ends (some (link_to to)) there can = ground arith
  remove_staging-ends (some dangling) there can = ground arith

  -- An item that is complete with the hash of the bytes at its target, whose staging file is a
  -- regular file below plain directories or is gone already, is finished by one pass of the cleanup,
  -- where the file system works: nothing is left at the staging path, and the target stays.
  pub clean_staging-finishes :
      or_text row.staging_path (sys.staging_path row.url) ≡ staging
      → is_safe_staging_path sys staging w.files ≡ true
      → (is_regular (lookup staging w.files) ≡ true) ⊎ (lookup staging w.files ≡ none)
      → Succeeds
          (clean_staging sys disk row w)
          (IsFinished row.url target staging (sys.sha256 bytes) bytes)
  unfolding clean_staging
  clean_staging-finishes named safe can =
      and_then-returned E _ w.files _ w refl
        (rw (named, safe) (remove_staging-ends (lookup staging w.files) refl can))
