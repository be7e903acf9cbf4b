-- ===== src/Tests/Transfers.antt =====
-- A transfer in a small tree, and the theorems on the workers at it.
use tod_dl.Worker.Failures.{expected_size_from_response}
use tod_dl.Worker.Events.{
  response_of, attempt_event, end_attempt, finalized_event, finalized_of, clear_transfer_telemetry,
}
use tod_dl.Worker.Transfer.Promotion.{
  check_staged, differs, size_mismatch, record_intent, ensure_safe_parent, ensure_parts, check_io,
  link_target, complete_promotion,
}
use tod_dl.Worker.Transfer.Promotion.{validate}
use tod_dl.Worker.Representation.{observed_of}
use tod_dl.Telemetry.{tell}
use tod_dl.Controller.{
  notify, transition, commit_transition, provenance_event, apply_projection_change,
}
use tod_dl.Worker.Events.{
  no_response, reserve_worker_id, first_free, record_attempt_start, has_attempt,
}
use tod_dl.Worker.Transfer.Promotion.{promote}
use tod_dl.Worker.Recovery.{
  Disk, path_of, is_safe_staging_path, is_plain_below, is_promotable_final_path, is_safe_final_path,
  are_plain, clean_staging, reconcile_promotion,
}
use tod_dl.Worker.Transfer.{
  Engine, admit, resume_gate, with_validators, with_generation, run_aria2, capture_response,
  set_node,
}
use tod_dl.Worker.{System, World, or_text, and_then, outcome_of, handle, hit_failpoint, is_here}
use tod_dl.Manifest.{
  Row, find_row, update_urls, update_where, advance_revision, log_transition, revision_of,
}
use text.Mathlib.TextPositions.{eq_refl}
use tod_dl.Status.{Status}
use tod_dl.Files.{file, Files, is_link, is_regular, exists, size_of, node_size}
use tod_dl.Worker.Crash.{Lands, IsReady}
use tod_dl.Worker.Sound.{Succeeds, Sound}
use tod_dl.Worker.Entries.{is_own, is_log}
use tod_dl.Worker.Transfer.Run.{transfer, begin, attempt}
use tod_dl.Worker.{returned}
use tod_dl.Worker.Checked.{IsChecked}
use tod_dl.Worker.Completion.{transfer-checks}
use tod_dl.Worker.Transfer.{is_stalled}
use tod_dl.Worker.Resume.{resume_gate-HasSameTag}
use tod_dl.Worker.Representation.{Probe, same_text, classify_representation, check_representation}
use tod_dl.Worker.Slots.{IsFirstFree, is_taken, reserve_worker_id-IsFirstFree}
use tod_dl.Worker.Resume.{IsProtected, recheck_unavailable-IsProtected}
use tod_dl.Worker.Representation.{recheck_unavailable}
use tod_dl.Worker.{raised}
use tod_dl.Controller.{Error}
use tod_dl.Base.{◌≤◌, ◌==◌}
use tod_dl.Worker.Selection.Chosen.{ranks_of, upto}
use tod_dl.Worker.Selection.Bounded.{scope_run-dry_run}
use tod_dl.Worker.Selection.{
  Entry, dry_run, scope_run, start_revision, scope_loop, is_full, resolved_storage_target,
  note_existing, is_tracked, status_of, reconcile_existing_file, select_entry,
}
use tod_dl.Tests.{clock, row_of, db, hash, controller}
use tod_dl.Worker.Finishes.{promote-Lands}
use tod_dl.Worker.Overwrites.{transfer-keeps}
use tod_dl.Worker.Recovery.Completes.{reconcile_promotion-finishes, IsQuiet, IsFinished}
use tod_dl.Worker.Recovery.Cleanup.{clean_staging-finishes}
use tod_dl.Base.{
  ℕ, String, true, false, Option, none, some, List, [], ◌∷◌, ◌≡◌, refl, inl, inr, find?, lookup,
  ◌<>◌, any, insert, erase, filter, is_truthy, contains,
}

abbrev sys : System
sys = record {
  sha256_hex = hash;
  sha256 = λ bytes. "hash";
  upper = λ text. text;
  lower = λ text. text;
  is_word = λ code. false;
  decimal_of = λ text. none;
  range_total = λ text. none;
  destination = "/d";
  incoming = "/i";
  below = λ root path. some [];
  mkdir_error = λ path. none;
  name_of = λ path. path;
  final_path = λ stored. "/d/" <> stored;
  stored_name = λ path. path;
  stored_of_final = λ path. path;
  staging_path = λ url. "/i/s";
  staging_name = λ path. path;
  candidate_names = λ path. "/c/s" ∷ "/c/t" ∷ [];
  log_path = λ url attempt. "/r/log";
  response_path = λ url attempt. "/r/response";
  workers = 2;
  socks_backoff = 30;
}

abbrev eng : Engine
eng = record {
  clock = clock;
  head = none;
  aria2_error = none;
  ok = true;
  error = "";
  staged = some (file (1 ∷ 2 ∷ []));
  control = none;
  log = some (file (4 ∷ []));
  response_left = none;
  response = no_response;
  flush_error = none;
  link_error = none;
  directory_error = none;
  tor_error = none;
  audit_id = "r";
  session_id = "s";
}

abbrev disk : Disk
disk = record {
  clock = clock;
  read_error = λ path. none;
  link_error = λ path. none;
  lstat_error = λ path. none;
  flush_error = none;
  unlink_error = λ path. none;
}

abbrev bytes : List ℕ
bytes = 1 ∷ 2 ∷ []

abbrev item : Row
item = record (row_of "http://x.onion/a" Status.active) { staging_path = some "/i/s" }

abbrev tree : Files
tree = ("/i/s", file bytes) ∷ ("/d/other", file (9 ∷ [])) ∷ []

abbrev world_of : Row → Files → Option String → World
world_of row files point = record {
  controller = record controller { db = record db { downloads = row ∷ [] } };
  files = files;
  attempts = [];
  worker_ids = [];
  active_attempts = [];
  attempt_responses = [];
  resume_confirmed = [];
  cooldown_until = 0;
  failpoint = point;
}

abbrev world : World
world = world_of item tree (some "post_final_file_creation")

world_of-Sound :
    (row : Row) (files : Files) (point : Option String)
    → Sound row.url row files point (world_of row files point)
unfolding find_row find?
world_of-Sound row files point = record {
  found = rw (eq_refl row.url) refl;
  same_files = refl;
  same_point = refl;
  works = refl;
}

quiet : IsQuiet disk "/d/a/b" "/i/s"
quiet = record { reads = refl; links = refl; looks = refl; flushes = refl; unlinks = refl }

item-IsReady : IsReady sys eng disk "/d/a/b" "/i/s" bytes item tree
unfolding path_of is_safe_staging_path is_promotable_final_path is_plain_below are_plain is_link
    lookup
item-IsReady = record {
  quiet = quiet;
  flushes = refl;
  links = refl;
  enters = refl;
  apart = refl;
  named = refl;
  known = refl;
  staged_at = refl;
  not_cleaned = refl;
  staged = refl;
  safe = refl;
  free = refl;
}

promote-Lands_example :
    Lands sys eng disk item "/d/a/b" "a/b" "/i/s" 1 bytes
      (promote sys eng item "/d/a/b" "a/b" "/i/s" 1 (sys.sha256 bytes) false world)
promote-Lands_example =
    promote-Lands sys eng disk item "/d/a/b" "a/b" "/i/s" 1 bytes item tree
      (some "post_final_file_creation") item-IsReady false world (world_of-Sound item tree _)

transfer-keeps_example :
    lookup "/d/other" (transfer sys eng item world).1.files ≡ some (file (9 ∷ []))
unfolding lookup is_own is_log any or_text
transfer-keeps_example = transfer-keeps "/d/other" (file (9 ∷ [])) sys eng item refl refl world refl

-- The process ended after the link.
abbrev promoting : Row
promoting = record item {
  status = Status.promoting;
  sha256 = some "hash";
  promotion_target = some "/d/a/b";
}

abbrev linked_tree : Files
linked_tree = ("/d/a/b", file bytes) ∷ tree

reconcile_promotion-finishes_example :
    Succeeds
      (reconcile_promotion sys disk promoting (world_of promoting linked_tree none))
      (IsFinished "http://x.onion/a" "/d/a/b" "/i/s" "hash" bytes)
unfolding path_of is_safe_staging_path is_safe_final_path is_plain_below are_plain is_link lookup
    is_regular
reconcile_promotion-finishes_example =
    reconcile_promotion-finishes sys disk "/d/a/b" "/i/s" bytes quiet refl refl promoting
      (world_of promoting linked_tree none) (world_of-Sound promoting linked_tree none)
      (record { targeted = refl; staged = refl; hashed = refl }) refl refl (inr (refl, refl))

-- It ended after the commit.
abbrev completed : Row
completed = record item { status = Status.complete; sha256 = some "hash" }

clean_staging-finishes_example :
    Succeeds
      (clean_staging sys disk completed (world_of completed linked_tree none))
      (IsFinished "http://x.onion/a" "/d/a/b" "/i/s" "hash" bytes)
unfolding or_text is_safe_staging_path is_plain_below are_plain is_link lookup is_regular
clean_staging-finishes_example =
    clean_staging-finishes sys disk "/d/a/b" "/i/s" bytes quiet refl completed
      (world_of completed linked_tree none) (world_of-Sound completed linked_tree none) refl refl
      refl refl (inl refl)

-- Without a failpoint the transfer completes.
abbrev calm_world : World
calm_world = world_of item tree none

calm_transfer : (transfer sys eng item calm_world).0 ≡ returned "complete"
unfolding transfer or_text exists lookup admit and_then reserve_worker_id first_free any insert
    erase filter notify tell resume_gate size_of node_size with_validators with_generation is_truthy
    observed_of begin attempt transition commit_transition outcome_of find_row find? update_urls
    update_where contains record_attempt_start has_attempt run_aria2 capture_response set_node
    is_stalled validate check_staged response_of expected_size_from_response differs size_mismatch
    attempt_event provenance_event end_attempt promote handle record_intent ensure_safe_parent
    ensure_parts is_link check_io hit_failpoint is_here link_target complete_promotion
    finalized_event finalized_of clear_transfer_telemetry apply_projection_change advance_revision
    log_transition revision_of
calm_transfer = refl

transfer-checks_example :
    IsChecked sys item "/d/a/b" "/i/s" eng.staged eng.response (transfer sys eng item calm_world).1
unfolding or_text
transfer-checks_example = transfer-checks sys eng item refl refl calm_world calm_transfer

-- A partial file whose entity tag the server still gives.
abbrev tagged : Row
tagged = record item { etag = some "t1" }

abbrev answering : Engine
answering = record eng {
  head = some (record { status = 200; etag = some "t1"; last_modified = none });
}

resume_gate-HasSameTag_example :
    (probe : Probe) × (observed_of answering.head ≡ some probe)
    × (is_truthy tagged.etag ≡ true)
    × (is_truthy probe.etag ≡ true)
    × (tagged.etag ≡ probe.etag)
unfolding resume_gate size_of node_size is_truthy observed_of check_representation
    classify_representation same_text and_then
resume_gate-HasSameTag_example =
    resume_gate-HasSameTag sys answering tagged "/i/s" (some (file bytes)) world refl refl refl
      (with_generation sys answering tagged) refl

recheck_unavailable-IsProtected_example :
    ((recheck_unavailable sys clock "http://x.onion/a" tagged answering.head world).0
        ≡ returned "recheck_available"
      → IsProtected tagged answering.head (some (file bytes)))
    × (observed_of answering.head ≡ none
        → recheck_unavailable sys clock "http://x.onion/a" tagged answering.head world
          ≡ (returned "still_unavailable", world))
unfolding lookup or_text
recheck_unavailable-IsProtected_example =
    recheck_unavailable-IsProtected sys clock tagged answering.head world

-- One of two workers is busy.
abbrev busy_world : World
busy_world = record world { worker_ids = ("http://x.onion/b", 1) ∷ [] }

reserve_worker_id-IsFirstFree_example :
    ((id : ℕ)
      → (reserve_worker_id sys busy_world).0 ≡ returned id
      → IsFirstFree 2 1 (("http://x.onion/b", 1) ∷ []) id)
    × ((error : Error)
        → (reserve_worker_id sys busy_world).0 ≡ raised error
        → (k : ℕ) → 1 ≤ k
        → k ≤ 2
        → is_taken (("http://x.onion/b", 1) ∷ []) k ≡ true)
reserve_worker_id-IsFirstFree_example = reserve_worker_id-IsFirstFree sys busy_world

-- Two entries, of which one is already there, and a limit of one.
abbrev entries : List Entry
entries =
    record { url = "http://x.onion/o"; relative_path = "other"; expected_sha256 = none }
    ∷ record { url = "http://x.onion/a"; relative_path = "a/b"; expected_sha256 = none }
    ∷ []

abbrev scoped_world : World
scoped_world = record calm_world {
  controller = record (calm_world.controller) {
    db = record (calm_world.controller.db) {
      downloads = record item { url = "http://x.onion/o" } ∷ item ∷ [];
      run_items = [];
    };
  };
}

scope_run-dry_run_example :
    (dry_run sys clock (λ url. none) (λ path. none) 1 tree entries 0 0 ≡ (1, 1))
    × (ranks_of (scope_run sys clock (λ url. none) (λ path. none) 1 entries scoped_world).1
        ≡ upto 1)
    × ((1 == 0) ≡ false → 1 ≤ 1)
unfolding scope_run start_revision scope_loop and_then is_full resolved_storage_target exists lookup
    note_existing is_tracked status_of find_row find? reconcile_existing_file is_truthy transition
    commit_transition outcome_of select_entry filter
scope_run-dry_run_example =
    scope_run-dry_run sys clock (λ url. none) (λ path. none) 1 entries scoped_world (1, 1) refl refl
