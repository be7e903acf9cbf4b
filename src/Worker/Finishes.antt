-- ===== src/Worker/Finishes.antt =====
-- A promotion of `transfer` (src/tod-dl.py) finishes, or the process ends where the next start
-- finishes it.
use tod_dl.Worker.Plain.{ensure_safe_parent-plain}
use tod_dl.Telemetry.{Call}
use mathlib.Core.Path.{subst}
use tod_dl.Status.{Status}
use text.Mathlib.TextPositions.{eq_refl}
use tod_dl.Worker.Representation.{change}
use tod_dl.Worker.Sound.{
  Sound, check_io-Sound, and_then-returned, finalized_event-Sound, clear-Sound, change-Sound,
  files-Sound,
}
use tod_dl.Controller.{notify}
use tod_dl.Worker.Crash.{
  IsReady, intent, Lands, free_parts, committed_row, hit-Lands, linked-Recoverable,
  committed-Recoverable, intent-Recoverable, linked_final,
}
use tod_dl.Manifest.{Row}
use tod_dl.Worker.Recovery.{Disk, is_plain_below}
use tod_dl.Worker.Transfer.{Engine}
use tod_dl.Worker.{
  ◌>>◌, returned, exited, System, Outcome, World, hit_failpoint, is_here, unlink, ◌>>◌, and_then,
  tell_all, handle, pure,
}
use tod_dl.Worker.Transfer.Promotion.{
  promote, record_intent, link_target, complete_promotion, check_io,
}
use tod_dl.Files.{file, Files, size_of}
use tod_dl.Base.{
  ℕ, String, Bool, true, Option, none, some, List, ◌≡◌, refl, sym, ap, ◌∙◌, ◌⊎◌, inl, inr, lookup,
  insert, erase, lookup-erase, Bool-cases,
}

module _ (sys : System) (eng : Engine) (disk : Disk) (row : Row) (target stored staging : String)
    (worker : ℕ) (bytes : List ℕ) (r : Row) (files : Files) (point : Option String)
    (ready : IsReady sys eng disk target staging bytes r files) where
  abbrev L : Outcome String × World → Type 0
  L = Lands sys eng disk row target stored staging worker bytes

  abbrev planned : ℕ → Row
  planned n = intent sys eng disk row target stored staging worker bytes r files point n n ready

  abbrev after : Files
  after = insert target (file bytes) files

  -- The last steps: the staging file goes, and the cleanup is recorded.
  finish-Lands :
      (n m : ℕ) (w : World)
      → Sound row.url
          (committed_row sys eng disk row target stored staging worker bytes r files point n m
            ready)
          after
          point
          w
      → L (
          (do
            unlink staging
            change sys eng.clock row.url Status.complete
                (some "staging cleanup complete")
                (λ r. record r { cleanup_completed_at = some eng.clock.stamp })
            tell_all (Call.item_event "info" "complete" "transfer complete" row.url worker)
            pure "complete")
            w)
  unfolding notify
  finish-Lands n m w s =
      let (fine, s') =
        change-Sound _ (files-Sound w s (erase staging w.files)) sys eng.clock Status.complete
          (some "staging cleanup complete")
          (λ r. record r { cleanup_completed_at = some eng.clock.stamp }) (λ r. refl) in
      and_then-returned L _ tt _ _ refl (
        and_then-returned L _ tt _ _ fine (
          and_then-returned L _ tt _ _ refl (
            inl (
              refl,
              record {
                row = _;
                found = s'.found;
                complete = refl;
                hashed = refl;
                cleaned = refl;
                final =
                    rw (lookup-erase staging target w.files, ready.apart, s.same_files)
                      (linked_final sys eng disk row target stored staging worker bytes r files
                        point n n ready);
                gone = rw (lookup-erase staging staging w.files, eq_refl staging) refl;
              },
            ))))

  complete_promotion-Lands :
      (n : ℕ) (compared : Bool) (w : World)
      → Sound row.url (planned n) after point w
      → L (
          complete_promotion sys eng row target stored staging worker (sys.sha256 bytes) compared w)
  unfolding complete_promotion
  complete_promotion-Lands n compared w s =
      let size = size_of (lookup target w.files) in
      let w1 = (check_io eng.directory_error w).1 in
      let (fine1, s1) = check_io-Sound w s eng.directory_error ready.enters in
      let size = size_of (lookup target w1.files) in
      let (fine2, s2) =
        finalized_event-Sound w1 s1 sys row.relative_path stored size (sys.sha256 bytes)
          row.expected_sha256 compared in
      let (fine3, s3) = clear-Sound _ s2 in
      let (fine4, s4) =
        change-Sound _ s3 sys eng.clock Status.complete none
          (λ r. record r { bytes = some size; sha256 = some (sys.sha256 bytes) }) (λ r. refl) in
      hit-Lands sys eng disk row target stored staging worker bytes L "post_final_file_creation" _ w
        (inr (
          refl,
          linked-Recoverable sys eng disk row target stored staging worker bytes r files point n n
              ready w s,
        ))
        (and_then-returned L _ tt _ _ fine1 (
          and_then-returned L _ size _ _ refl (
            and_then-returned L _ tt _ _ fine2 (
              and_then-returned L _ tt _ _ fine3 (
                and_then-returned L _ tt _ _ fine4 (
                  hit-Lands sys eng disk row target stored staging worker bytes L
                    "post_completion_commit" _ _
                    (inr (
                      refl,
                      committed-Recoverable sys eng disk row target stored staging worker bytes r
                          files point n size ready _ s4,
                    ))
                    (finish-Lands n size _ s4)))))))

  link_target-Lands :
      (n : ℕ) (compared : Bool) (w : World)
      → Sound row.url (planned n) files point w
      → L (link_target sys eng row target stored staging worker (sys.sha256 bytes) compared w)
  unfolding link_target
  link_target-Lands n compared w s =
      let free =
        ap (lookup target) s.same_files
        ∙ (free_parts sys eng disk row target stored staging worker bytes r files point n n
            ready).1 in
      let there = ap (lookup staging) s.same_files ∙ ready.staged in
      and_then-returned L _ none _ _ (ap returned free) (
        and_then-returned L _ (some (file bytes)) _ _ (ap returned there) (
          rw ready.links (
            and_then-returned L _ tt _ _ refl (
              complete_promotion-Lands n compared _ (
                subst
                  (λ (f : Files).
                    Sound row.url (planned n) f point
                      (record w { files = insert target (file bytes) w.files }))
                  (ap (insert target (file bytes)) s.same_files)
                  (files-Sound w s (insert target (file bytes) w.files)))))))

  -- The intent is recorded, and the process may end there.
  abbrev Records : ℕ → Outcome Unit × World → Type 0
  Records n o = ((o.0 ≡ returned tt) ⊎ (o.0 ≡ exited)) × Sound row.url (planned n) files point o.1

  hit-Records :
      (n : ℕ) (name : String) (w : World)
      → Sound row.url (planned n) files point w
      → Records n (hit_failpoint name w)
  unfolding hit_failpoint
  hit-Records n name w s = elim (Bool-cases (is_here name w.failpoint)) [
    | inl e ↦ rw (hit_failpoint, e) (inr refl, s)
    | inr e ↦ rw (hit_failpoint, e) (inl refl, s)
  ]

  -- The size that the intent records.
  abbrev intent_size : World → ℕ
  intent_size w = size_of (lookup staging (check_io eng.flush_error w).1.files)

  record_intent-Records :
      (w : World)
      → Sound row.url r files point w
      → Records
          (intent_size w)
          (record_intent sys eng row target stored staging worker (sys.sha256 bytes) w)
  unfolding record_intent
  record_intent-Records w s =
      let n = intent_size w in
      let Q = Records n in
      let plain =
        subst (λ (f : Files). is_plain_below sys sys.destination target f ≡ true) (sym s.same_files)
          (free_parts sys eng disk row target stored staging worker bytes r files point n n
            ready).0 in
      let (fine1, s1) = check_io-Sound w s eng.flush_error ready.flushes in
      let (fine2, s2) =
        change-Sound _ s1 sys eng.clock Status.promoting none
          (λ r. record r {
            sha256 = some (sys.sha256 bytes);
            bytes = some n;
            promotion_target = some target;
            promotion_intent_at = some eng.clock.stamp;
          })
          (λ r. refl) in
      rw (record_intent, ensure_safe_parent-plain sys w target plain)
        (and_then-returned Q _ tt _ w refl (
          and_then-returned Q _ tt _ _ fine1 (
            and_then-returned Q _ n _ _ refl
              (and_then-returned Q _ tt _ _ fine2 (hit-Records n "post_validation_intent" _ s2)))))

  -- A promotion of a staged file to a free path below plain directories, where the file system and
  -- the record store work, returns "complete" with the item finished. Or the process ends at a
  -- failpoint, and then the row is such that the next start, by the reconciliation of promotions or
  -- by the cleanup of completed items, finishes it: complete with the hash of the bytes at the
  -- target, and nothing at the staging path.
  pub promote-Lands :
      (compared : Bool) (w : World)
      → Sound row.url r files point w
      → Lands sys eng disk row target stored staging worker bytes
          (promote sys eng row target stored staging worker (sys.sha256 bytes) compared w)
  unfolding and_then handle
  promote-Lands compared w s =
      let n = intent_size w in
      let recorded = record_intent-Records w s in
      elim recorded.0 [
        | inl e ↦ unfold promote in rw (promote, e) (link_target-Lands n compared _ recorded.1)
        | inr e ↦
            unfold promote in
            rw (promote, e)
              (inr (
                refl,
                intent-Recoverable sys eng disk row target stored staging worker bytes r files point
                    n n ready files _ recorded.1 ready.staged ready.safe (inl ready.free),
              ))
      ]
