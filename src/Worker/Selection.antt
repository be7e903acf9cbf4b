-- ===== src/Worker/Selection.antt =====
-- The bounded selection of a run: `scope_run`, `reconcile_existing_file`, `dry_run` and
-- `resolved_storage_target` (src/tod-dl.py).
pub mod Chosen
pub mod Bounded
use tod_dl.Worker.Failures.{review_code_for_error}
use tod_dl.Worker.Events.{finalized_event}
use tod_dl.Worker.Representation.{change}
use tod_dl.Files.{Node, exists, Files, node_bytes, node_size}
use tod_dl.Controller.{Error, OsError, Controller}
use tod_dl.Manifest.{Clock, Row, find_row, advance_revision}
use tod_dl.Status.{Status}
use tod_dl.Worker.{◌>>=◌, ◌>>◌, System, Step, World, gets, pure, update, or_text}
use tod_dl.Base.{
  ℕ, zero, suc, ◌+◌, ◌-◌, ◌≤◌, ◌<◌, String, Bool, true, false, not, ◌&&◌, ◌||◌, Option, none, some,
  List, [], ◌∷◌, ◌++◌, map, ◌≡◌, refl, sym, ap, ◌∙◌, ◌≢◌, ◌↔◌, ◌⊎◌, inl, inr, arith, str_eq, eq_iff,
  filter, find?, any, all, All, contains, distinct, lookup, insert, erase, length, lookup-insert,
  lookup-erase, ltb, leb, ◌==◌, leb→le, le→leb, ltb→lt, Bool-cases, Option-cases, if_elim,
  if◌then◌else◌, ℤ, pos, negsuc, ◌+ℤ◌, ◌-ℤ◌, leb_ℤ, pos-+ℤ, pos--ℤ, ◌<>◌, decimal, signed, pos_part,
  is_truthy, str_lt, min, max,
}

-- What `read_queues` yields of a line, as far as it is used here; it yields each url once.
pub record Entry : Type 0 where
  pub url : String
  pub relative_path : String
  pub expected_sha256 : Option String

-- SCOPE_RUN_TRACKED_STATUSES
unfoldable pub is_tracked : Option Status → Bool
is_tracked (some Status.complete) = true
is_tracked (some Status.existing_unverified) = true
is_tracked (some Status.review_required) = true
is_tracked (some Status.excluded) = true
is_tracked (some Status.unavailable) = true
is_tracked _ = false

-- max_files and selected >= max_files
unfoldable pub is_full : ℕ → ℕ → Bool
is_full max_files selected = not (max_files == 0) && leb max_files selected

-- `legacy` is where an earlier version would have placed the url; `files` is the tree.
module _ (sys : System) (clock : Clock) (legacy : String → Option String)
    (read_error : String → Option OsError) (max_files : ℕ) where
  unfoldable pub resolved_storage_target : Entry → Files → String × String
  unfolding exists lookup
  resolved_storage_target entry files =
      let stored = sys.stored_name entry.relative_path in
      let target = sys.final_path stored in
      if exists (lookup target files) then (stored, target) else elim (legacy entry.url) [
        | none ↦ (stored, target)
        | some old ↦
            let old_stored = sys.stored_name old in
            let old_target = sys.final_path old_stored in
            if not (str_eq old entry.relative_path) && exists (lookup old_target files)
            then (old_stored, old_target)
            else (stored, target)
      ]

  abbrev to : String → Status → Option String → (Row → Row) → Step Unit
  to = change sys clock

  -- The hash of what is at the target is known.
  unfoldable pub compare_existing : Entry → String → Node → String → Step Unit
  compare_existing entry stored node expected =
      let digest = sys.sha256 (node_bytes node) in
      if not (str_eq (sys.lower digest) (sys.lower expected))
      then to entry.url Status.review_required (some "checksum mismatch") (λ r. record r {
        sha256 = some digest;
        bytes = some (node_size node);
        last_error = some "checksum mismatch";
        review_code = some "checksum_mismatch";
      })
      else do
        finalized_event sys entry.url entry.relative_path stored (node_size node) digest
            entry.expected_sha256 false
        to entry.url Status.complete (some "final already exists and verified")
            (λ r. record r { bytes = some (node_size node); sha256 = some digest })

  unfoldable pub reconcile_existing_file : Entry → String → String → Node → Step Unit
  reconcile_existing_file entry stored target node =
      if not (is_truthy entry.expected_sha256)
      then to entry.url Status.existing_unverified (some "final already exists")
          (λ r. record r { bytes = some (node_size node) })
      else elim (read_error target) [
        | some exc ↦
            to entry.url Status.review_required (some "existing file is inaccessible") (λ r.
              record r {
                last_error = some ("existing-file reconciliation failed: " <> exc.message);
                review_code = review_code_for_error exc;
              })
        | none ↦ compare_existing entry stored node (or_text entry.expected_sha256 "")
      ]

  unfoldable pub status_of : String → World → Option Status
  unfolding find_row
  status_of url w = elim (find_row url w.controller.db.downloads) [
    | none ↦ none
    | some row ↦ some row.status
  ]

  -- An entry whose final file is there.
  unfoldable pub note_existing : Entry → String × String → Option Node → Step Unit
  note_existing entry place none = pure tt
  note_existing entry place (some node) = do
    tracked ← gets (λ w. is_tracked (status_of entry.url w))
    (if tracked then pure tt else reconcile_existing_file entry place.0 place.1 node)

  -- INSERT INTO run_items
  unfoldable pub select_entry : Entry → ℕ → Step Unit
  select_entry entry rank = update (λ c. record c {
    db = record (c.db) {
      run_items =
          c.db.run_items ++ record { run_id = c.run_id; url = entry.url; queue_rank = rank } ∷ [];
    };
  })

  unfoldable pub scope_loop : List Entry → ℕ → ℕ → Step (ℕ × ℕ)
  scope_loop [] selected existing = pure (selected, existing)
  scope_loop (entry ∷ entries) selected existing =
      if is_full max_files selected then pure (selected, existing) else do
        files ← gets (λ w. w.files)
        let place = resolved_storage_target entry files
        (if exists (lookup place.1 files)
            then note_existing entry place (lookup place.1 files)
              >> scope_loop entries selected (existing + 1)
            else select_entry entry selected >> scope_loop entries (selected + 1) existing)

  -- INSERT OR IGNORE INTO telemetry_revisions
  unfoldable pub start_revision : Controller → Controller
  unfolding lookup insert
  start_revision c = elim (lookup c.run_id c.db.revisions) [
    | some n ↦ c
    | none ↦ record c { db = record (c.db) { revisions = insert c.run_id 0 c.db.revisions } }
  ]

  -- A run that has a selection keeps it.
  unfoldable pub scope_run : List Entry → Step (ℕ × ℕ)
  scope_run entries = do
    update start_revision
    previous ← gets (λ w.
        length (filter (λ item. str_eq item.run_id w.controller.run_id) w.controller.db.run_items))
    (if not (previous == 0) then pure (previous, 0) else do
      counts ← scope_loop entries 0 0
      update (λ c. record c { db = (advance_revision c.run_id c.db).0 })
      pure counts)

  -- What is counted, and nothing changed: the selected and the existing files.
  unfoldable pub dry_run : Files → List Entry → ℕ → ℕ → ℕ × ℕ
  unfolding resolved_storage_target is_full exists lookup
  dry_run files [] selected existing = (selected, existing)
  dry_run files (entry ∷ entries) selected existing =
      let there = exists (lookup (resolved_storage_target entry files).1 files) in
      let rest =
        dry_run files entries (if there then selected else selected + 1)
          (if there then existing + 1 else existing) in
      if is_full max_files selected then (selected, existing) else rest
