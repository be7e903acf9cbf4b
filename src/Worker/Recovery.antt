-- ===== src/Worker/Recovery.antt =====
-- What a start does with promotions that an earlier process left unfinished: `reconcile_promotions`,
-- `is_promotable_final_path`, `is_safe_final_path`, `cleanup_completed_staging` and
-- `is_safe_staging_path` (src/tod-dl.py).
pub mod Completes
pub mod Cleanup
use tod_dl.Worker.Failures.{review_code_for_error}
use tod_dl.Worker.Representation.{change}
use tod_dl.Worker.Transfer.Promotion.{check_io}
use tod_dl.Worker.Events.{finalized_event}
use tod_dl.Controller.{OsError, is_complete}
use tod_dl.Status.{Status}
use tod_dl.Files.{is_link, is_regular, node_bytes, Files, Node, exists, is_dir, is_file, size_of}
use tod_dl.Manifest.{Clock, Row, selected_rows}
use tod_dl.Worker.{◌>>=◌, ◌>>◌, System, Step, or_text, gets, node_at, pure, put_node, unlink}
use tod_dl.Base.{
  ℕ, String, Bool, true, false, not, ◌&&◌, Option, none, some, List, [], ◌∷◌, str_eq, filter,
  lookup, if◌then◌else◌, ◌<>◌, is_some,
}

-- The errors of the file system, by path.
pub record Disk : Type 0 where
  pub clock : Clock
  pub read_error : String → Option OsError
  pub link_error : String → Option OsError
  pub lstat_error : String → Option OsError
  pub flush_error : Option OsError
  pub unlink_error : String → Option OsError

-- Path(text) if text else None
unfoldable pub path_of : Option String → Option String
path_of none = none
path_of (some text) = if str_eq text "" then none else some text

-- Every component is a directory, and none is a link.
unfoldable pub are_plain : Files → List String → Bool
unfolding is_link is_dir lookup
are_plain files [] = true
are_plain files (dir ∷ dirs) =
    not (is_link (lookup dir files)) && is_dir (lookup dir files) && are_plain files dirs

-- The path lies below the root, on plain directories.
unfoldable pub is_plain_below : System → String → String → Files → Bool
unfolding are_plain is_link lookup
is_plain_below sys root path files = elim (sys.below root path) [
  | none ↦ false
  | some dirs ↦ not (is_link (lookup root files)) && are_plain files dirs
]

unfoldable pub is_promotable_final_path : System → String → Files → Bool
unfolding is_plain_below lookup
is_promotable_final_path sys target files =
    is_plain_below sys sys.destination target files && not (is_some (lookup target files))

unfoldable pub is_safe_final_path : System → String → Files → Bool
unfolding is_plain_below is_regular lookup
is_safe_final_path sys target files =
    is_plain_below sys sys.destination target files && is_regular (lookup target files)

unfoldable pub is_safe_staging_path : System → String → Files → Bool
unfolding is_plain_below are_plain is_link lookup
is_safe_staging_path sys staging files = is_plain_below sys sys.incoming staging files

-- The bytes of what is at a path.
unfoldable pub bytes_at : String → Files → List ℕ
unfolding node_bytes lookup
bytes_at path files = elim (lookup path files) [ none ↦ [] | some node ↦ node_bytes node ]

-- for row in rows
unfoldable pub for_each : (Row → Step Unit) → List Row → Step Unit
for_each body [] = pure tt
for_each body (row ∷ rows) = body row >> for_each body rows

unfoldable pub is_promoting : Status → Bool
is_promoting Status.promoting = true
is_promoting _ = false

-- WHERE status='complete' AND cleanup_completed_at IS NULL, of this run
unfoldable pub needs_cleanup : Row → Bool
unfolding is_complete
needs_cleanup row = is_complete row.status && not (is_some row.cleanup_completed_at)

module _ (sys : System) (disk : Disk) where
  abbrev to : String → Status → Option String → (Row → Row) → Step Unit
  to = change sys disk.clock

  unfoldable pub review_inaccessible : String → String → OsError → Step Unit
  review_inaccessible url detail exc = to url Status.review_required (some detail) (λ r. record r {
    last_error = some ("promotion reconciliation failed: " <> exc.message);
    review_code = review_code_for_error exc;
  })

  -- The evidence and the completion of a target that holds the file.
  unfoldable pub complete_reconciled : Row → String → String → Step Unit
  complete_reconciled row target digest = do
    size ← gets (λ w. size_of (lookup target w.files))
    finalized_event sys row.url row.relative_path
        (or_text row.storage_path (sys.stored_of_final target)) size digest row.expected_sha256
        false
    to row.url Status.complete (some "reconciled promotion intent")
        (λ r. record r { bytes = some size; sha256 = some digest })

  unfoldable pub remove_reconciled : Row → String → Step Unit
  remove_reconciled row staging = do
    check_io (disk.unlink_error staging)
    unlink staging
    to row.url Status.complete (some "reconciled staging cleanup")
        (λ r. record r { cleanup_completed_at = some disk.clock.stamp })

  unfoldable pub finish_matching : Row → String → String → Step Unit
  finish_matching row target digest = do
    complete_reconciled row target digest
    elim (path_of row.staging_path) [
      | none ↦ pure tt
      | some staging ↦ do
        node ← node_at staging
        (if exists node && is_file node then remove_reconciled row staging else pure tt)
    ]

  unfoldable pub review_inconsistent : Row → Step Unit
  review_inconsistent row =
      to row.url Status.review_required (some "incomplete or inconsistent promotion")
        (λ r. record r { last_error = some "promotion reconciliation requires review" })

  -- The link is made again, and the promotion finished.
  unfoldable pub relink : Row → String → String → String → Step Unit
  relink row target digest staging = elim (disk.link_error target) [
    | some exc ↦ review_inaccessible row.url "promotion target could not be recreated" exc
    | none ↦ do
      staged ← node_at staging
      elim staged [ none ↦ pure tt | some node ↦ put_node target node ]
      check_io disk.flush_error
      complete_reconciled row target digest
      remove_reconciled row staging
  ]

  -- target_matches
  unfoldable pub matches : String → String → Files → Bool
  unfolding is_safe_final_path bytes_at
  matches target digest files =
      is_safe_final_path sys target files
      && not (str_eq digest "")
      && str_eq (sys.sha256 (bytes_at target files)) digest

  unfoldable pub can_relink : String → String → String → Files → Bool
  unfolding is_safe_staging_path is_promotable_final_path is_regular lookup
  can_relink target digest staging files =
      not (str_eq digest "")
      && is_safe_staging_path sys staging files
      && is_promotable_final_path sys target files
      && not (is_some (disk.lstat_error staging))
      && is_regular (lookup staging files)

  -- The file is read only where the path is safe and there is a digest to compare with.
  unfoldable pub reading_error : String → String → Files → Option OsError
  unfolding is_safe_final_path
  reading_error target digest files =
      if is_safe_final_path sys target files && not (str_eq digest "")
      then disk.read_error target
      else none

  unfoldable pub resolve : Row → String → String → Step Unit
  resolve row target digest = do
    files ← gets (λ w. w.files)
    elim (reading_error target digest files) [
      | some exc ↦ review_inaccessible row.url "promotion target is inaccessible" exc
      | none ↦
          if matches target digest files
          then finish_matching row target digest
          else elim (path_of row.staging_path) [
            | none ↦ review_inconsistent row
            | some staging ↦
                if can_relink target digest staging files
                then relink row target digest staging
                else review_inconsistent row
          ]
    ]

  -- One promotion; without a target there is nothing to compare.
  unfoldable pub reconcile_promotion : Row → Step Unit
  reconcile_promotion row = elim (path_of row.promotion_target) [
    | none ↦ review_inconsistent row
    | some target ↦ resolve row target (or_text row.sha256 "")
  ]

  unfoldable pub reconcile_promotions : Step Unit
  reconcile_promotions = do
    rows ← gets (λ w. filter (λ r. is_promoting r.status) w.controller.db.downloads)
    for_each reconcile_promotion rows

  unfoldable pub review_cleanup : String → String → Step Unit
  review_cleanup url detail =
      to url Status.review_required (some detail)
        (λ r. record r { last_error = some "completed staging cleanup requires review" })

  unfoldable pub repeat_cleanup : String → OsError → Step Unit
  repeat_cleanup url exc =
      to url Status.complete
        (some ("completed staging cleanup failed; will repeat: " <> exc.message)) (λ r. r)

  unfoldable pub finish_cleanup : String → Step Unit
  finish_cleanup url =
      to url Status.complete (some "reconciled staging cleanup")
        (λ r. record r { cleanup_completed_at = some disk.clock.stamp })

  -- `lstat` fails, finds nothing, or finds what is to go.
  unfoldable pub remove_staging : String → String → Option Node → Step Unit
  remove_staging url staging node = elim (disk.lstat_error staging) [
    | some exc ↦ repeat_cleanup url exc
    | none ↦
        if not (is_some node)
        then finish_cleanup url
        else if not (is_regular node)
        then review_cleanup url "completed staging is not a regular file"
        else elim (disk.unlink_error staging) [
          | some exc ↦ repeat_cleanup url exc
          | none ↦ unlink staging >> finish_cleanup url
        ]
  ]

  unfoldable pub clean_staging : Row → Step Unit
  clean_staging row = do
    let staging = or_text row.staging_path (sys.staging_path row.url)
    files ← gets (λ w. w.files)
    (if is_safe_staging_path sys staging files
        then remove_staging row.url staging (lookup staging files)
        else review_cleanup row.url "completed staging path is unsafe")

  unfoldable pub cleanup_completed_staging : Step Unit
  cleanup_completed_staging = do
    rows ← gets (λ w. filter needs_cleanup (selected_rows w.controller.run_id w.controller.db))
    for_each clean_staging rows
