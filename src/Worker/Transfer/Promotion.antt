-- ===== src/Worker/Transfer/Promotion.antt =====
-- The end of a transfer that fetched its file: validation, and promotion to the final path
-- (`transfer`, `ensure_safe_parent` and `review_code_for_error` of src/tod-dl.py).
use tod_dl.Telemetry.{Call}
use tod_dl.Worker.Representation.{change}
use tod_dl.Status.{Status}
use tod_dl.Worker.Events.{
  attempt_event, clear_transfer_telemetry, move_candidate, candidate_event, finalized_event,
  no_such_file, response_of,
}
use tod_dl.Manifest.{Row}
use tod_dl.Worker.Transfer.{Engine, give_up}
use tod_dl.Worker.{
  ◌>>=◌, ◌>>◌, System, Step, pure, raise, returned, gets, hit_failpoint, put_node, raised, catch,
  node_at, tell_all, unlink,
}
use tod_dl.Files.{is_link, is_dir, Node, size_of}
use tod_dl.Worker.Failures.{review_code_for_error, expected_size_from_response}
use tod_dl.Controller.{Error, OsError, os_error, runtime_error, value_error}
use tod_dl.Files.{file, directory, special, link_to, dangling}
use tod_dl.Base.{
  ℕ, ◌+◌, String, Bool, true, false, not, ◌&&◌, Option, none, some, List, [], ◌∷◌, str_eq, lookup,
  length, ◌==◌, if◌then◌else◌, ◌<>◌, decimal,
}

-- An error that a call of the operating system gave.
unfoldable pub check_io : Option OsError → Step Unit
check_io none w = (returned tt, w)
check_io (some exc) w = (raised (os_error exc), w)

-- str(exc)
unfoldable pub message_of : Error → String
message_of (runtime_error message) = message
message_of (value_error message) = message
message_of (os_error exc) = exc.message

-- review_code_for_error(exc) if isinstance(exc, OSError) else None
unfoldable pub code_of : Error → Option String
unfolding review_code_for_error
code_of (os_error exc) = review_code_for_error exc
code_of _ = none

-- The size of a new directory is not read.
unfoldable pub ensure_part : System → String → Option Node → Step Unit
ensure_part sys dir none = check_io (sys.mkdir_error dir) >> put_node dir (Node.directory 0)
ensure_part sys dir (some node) =
    if is_link (some node)
    then raise (runtime_error ("unsafe symlink in destination path: " <> sys.name_of dir))
    else if not (is_dir (some node))
    then raise (runtime_error ("destination parent is not a directory: " <> sys.name_of dir))
    else pure tt

unfoldable pub ensure_parts : System → List String → Step Unit
ensure_parts sys [] = pure tt
ensure_parts sys (dir ∷ dirs) = do
  node ← node_at dir
  ensure_part sys dir node
  ensure_parts sys dirs

unfoldable pub ensure_safe_parent : System → String → Step Unit
ensure_safe_parent sys target = elim (sys.below sys.destination target) [
  | none ↦ raise (value_error "not in the subpath")
  | some dirs ↦ do
    root ← node_at sys.destination
    (if is_link root then raise (runtime_error "destination must not be a symlink") else pure tt)
    ensure_parts sys dirs
]

-- The number of bytes that differs from the announced one.
unfoldable pub size_mismatch : Option ℕ → ℕ → Option String
unfolding decimal
size_mismatch none staged = none
size_mismatch (some expected) staged =
    if expected == staged
    then none
    else some
        ("size mismatch: expected " <> decimal expected <> " bytes, staged " <> decimal staged)

-- expected_sha256 and digest.lower() != expected_sha256.lower()
unfoldable pub differs : System → String → Option String → Bool
differs sys digest none = false
differs sys digest (some expected) =
    not (str_eq expected "") && not (str_eq (sys.lower digest) (sys.lower expected))

-- expected_size is not None
unfoldable pub is_known : Option ℕ → Bool
is_known none = false
is_known (some n) = true

module _ (sys : System) (eng : Engine) (row : Row) (target stored staging : String)
    (worker : ℕ) where
  abbrev url : String
  url = row.url

  abbrev number : ℕ
  number = row.attempts + 1

  abbrev to : Status → Option String → (Row → Row) → Step Unit
  to = change sys eng.clock url

  abbrev clear : Step Unit
  clear = clear_transfer_telemetry url

  abbrev staged_size : Step ℕ
  staged_size = gets (λ w. size_of (lookup staging w.files))

  -- The intent to promote, before anything is created at the target.
  unfoldable pub record_intent : String → Step Unit
  record_intent digest = do
    ensure_safe_parent sys target
    check_io eng.flush_error
    size ← staged_size
    to Status.promoting none (λ r. record r {
      sha256 = some digest;
      bytes = some size;
      promotion_target = some target;
      promotion_intent_at = some eng.clock.stamp;
    })
    hit_failpoint "post_validation_intent"

  unfoldable pub refuse_promotion : String → (Row → Row) → Error → Step String
  refuse_promotion digest fields exc = do
    size ← staged_size
    to Status.review_required (some (message_of exc)) (λ r. record (fields r) {
      sha256 = some digest;
      bytes = some size;
      last_error = some (message_of exc);
      review_code = code_of exc;
    })
    clear
    pure "review"

  -- FileExistsError
  unfoldable pub yield_to_existing : String → Step String
  yield_to_existing digest = do
    candidate ← move_candidate sys staging
    candidate_event sys url staging (some candidate) (some digest) "destination_collision"
    moved ← node_at candidate
    to Status.review_required (some "destination appeared during promotion")
        (λ r. record r { bytes = some (size_of moved); promotion_target = some target })
    clear
    pure "candidate"

  -- What follows the link: the evidence, the completion, and then the staging file goes.
  unfoldable pub complete_promotion : String → Bool → Step String
  complete_promotion digest size_compared = do
    hit_failpoint "post_final_file_creation"
    check_io eng.directory_error
    size ← gets (λ w. size_of (lookup target w.files))
    finalized_event sys url row.relative_path stored size digest row.expected_sha256 size_compared
    clear
    to Status.complete none (λ r. record r { bytes = some size; sha256 = some digest })
    hit_failpoint "post_completion_commit"
    unlink staging
    to Status.complete (some "staging cleanup complete")
        (λ r. record r { cleanup_completed_at = some eng.clock.stamp })
    tell_all (Call.item_event "info" "complete" "transfer complete" url worker)
    pure "complete"

  -- os.link(staging, target) creates the target or fails, and writes to nothing that is there. Where
  -- the staging file is missing, it fails before the target is looked at.
  unfoldable pub link_target : String → Bool → Step String
  link_target digest size_compared = do
    there ← node_at target
    staged ← node_at staging
    let failed = λ (exc : OsError).
        refuse_promotion digest (λ r. record r { promotion_target = some target }) (os_error exc)
    elim staged [
      | none ↦ failed (no_such_file)
      | some node ↦ elim there [
        | some other ↦ yield_to_existing digest
        | none ↦ elim eng.link_error [
          | some exc ↦ failed exc
          | none ↦ do put_node target node; complete_promotion digest size_compared
        ]
      ]
    ]

  unfoldable pub promote : String → Bool → Step String
  promote digest size_compared = do
    stopped ←
        catch (record_intent digest >> pure none)
          (λ exc. refuse_promotion digest (λ r. r) exc >>= λ result. pure (some result))
    elim stopped [ some result ↦ pure result | none ↦ link_target digest size_compared ]

  -- The regular staging file is hashed, and compared with what is known of it.
  unfoldable pub check_staged : List ℕ → Step String
  check_staged bytes = do
    let digest = sys.sha256 bytes
    tell_all (Call.set_active url worker number "hashing")
    tell_all (Call.set_validation url 0 (length bytes))
    tell_all (Call.clear_validation url)
    response ← gets (response_of url)
    let expected_size = expected_size_from_response sys response
    let failed = λ (reason detail : String).
        give_up sys eng row staging (some digest) reason detail
          (λ r. record r { sha256 = some digest; review_code = some reason })
    (if differs sys digest row.expected_sha256
        then failed "checksum_mismatch" "checksum mismatch"
        else elim (size_mismatch expected_size (length bytes)) [
          | some detail ↦ failed "size_mismatch" detail
          | none ↦ do
            attempt_event eng.clock url number "success"
            promote digest (is_known expected_size)
        ])

  unfoldable pub refuse_staging : Step String
  refuse_staging = do
    attempt_event eng.clock url number "validation_failed"
    to Status.review_required (some "staging is not a regular file")
        (λ r. record r { bytes = some 0; last_error = some "non-regular staging file" })
    clear
    pure "review"

  unfoldable pub validate : Step String
  validate = do
    node ← node_at staging
    elim node [
      | none ↦ refuse_staging
      | some n ↦ elim n [
        | file bytes ↦ check_staged bytes
        | directory size ↦ refuse_staging
        | special size ↦ refuse_staging
        | link_to to ↦ refuse_staging
        | dangling ↦ refuse_staging
      ]
    ]
