-- ===== src/Worker/Transfer.antt =====
-- The steps of `transfer` (src/tod-dl.py) up to the attempt, and the outcomes of an attempt that failed.
pub mod Promotion
pub mod Run
use tod_dl.Scheduler.{recheck_interval}
use tod_dl.Telemetry.{Call}
use tod_dl.Control.Newnym.{request_newnym}
use tod_dl.Worker.Events.{
  attempt_event, clear_transfer_telemetry, reserve_worker_id, move_candidate, candidate_event,
  control_of,
}
use tod_dl.Controller.{Error, Headers, notify, OsError, transition, record_local_failure}
use tod_dl.Worker.Failures.{
  is_disk_full_failure, is_access_denied_failure, is_incomplete_body_failure,
  is_unavailable_failure, is_connectivity_failure,
}
use tod_dl.Status.{Status}
use tod_dl.Worker.Representation.{
  check_representation, Probe, change, observed_of, enter_representation_review,
}
use tod_dl.Manifest.{Clock, Row, find_row}
use tod_dl.Files.{Node, Files, size_of}
use tod_dl.Worker.{
  ◌>>=◌, ◌>>◌, System, Step, and_then, tell_all, World, modify, outcome_of, pure, returned, node_at,
  raise, gets, update,
}
use tod_dl.Base.{
  ℕ, zero, suc, ◌+◌, ◌-◌, ◌≤◌, ◌<◌, String, Bool, true, false, not, ◌&&◌, ◌||◌, Option, none, some,
  List, [], ◌∷◌, ◌++◌, map, ◌≡◌, refl, sym, ap, ◌∙◌, ◌≢◌, ◌↔◌, ◌⊎◌, inl, inr, arith, str_eq, eq_iff,
  filter, find?, any, all, All, contains, distinct, lookup, insert, erase, length, lookup-insert,
  lookup-erase, ltb, leb, ◌==◌, leb→le, le→leb, ltb→lt, Bool-cases, Option-cases, if_elim,
  if◌then◌else◌, ℤ, pos, negsuc, ◌+ℤ◌, ◌-ℤ◌, leb_ℤ, pos-+ℤ, pos--ℤ, ◌<>◌, decimal, signed, pos_part,
  is_truthy, str_lt, min, max,
}

-- RETRY_DELAYS[min(attempts, len(RETRY_DELAYS) - 1)]
unfoldable pub retry_delay : ℕ → ℕ
retry_delay zero = 60
retry_delay (suc zero) = 120
retry_delay (suc (suc zero)) = 240
retry_delay (suc (suc (suc attempts))) = 300

-- What happens around one transfer: the answer to a HEAD request; what `run_aria2` returns or
-- raises and leaves in place of the staging file, of its control file and of its log, what
-- `capture_response` leaves of the response log, and the headers that it has read; the errors of the file system; the answer of the Tor control port.
pub record Engine : Type 0 where
  pub clock : Clock
  pub head : Option Probe
  pub aria2_error : Option Error
  pub ok : Bool
  pub error : String
  pub staged : Option Node
  pub control : Option Node
  pub log : Option Node
  pub response_left : Option Node
  pub response : Headers
  pub flush_error : Option OsError
  pub link_error : Option OsError
  pub directory_error : Option OsError
  pub tor_error : Option String
  pub audit_id : String
  pub session_id : String

-- The assignments of the transition to `active`, or the end of the transfer.
pub data Gate : Type 0 where
  go : (Row → Row) → Gate
  stop : Gate

-- path := node, or nothing there
unfoldable pub set_node : String → Option Node → Files → Files
unfolding insert erase
set_node path none files = erase path files
set_node path (some node) files = insert path node files

module _ (sys : System) (eng : Engine) (row : Row) where
  abbrev url : String
  url = row.url

  abbrev number : ℕ
  number = row.attempts + 1

  abbrev to : Status → Option String → (Row → Row) → Step Unit
  to = change sys eng.clock url

  abbrev clear : Step Unit
  clear = clear_transfer_telemetry url

  abbrev say : String → String → String → ℕ → Step Unit
  say severity category message worker =
      tell_all (Call.item_event severity category message url worker)

  -- The slot is taken before the waits for the cooldown and the stagger.
  unfoldable pub admit : String → Step ℕ
  admit staging = do
    modify (λ w. record w {
      resume_confirmed = filter (λ u. not (str_eq u url)) w.resume_confirmed;
      controller = record (w.controller) { active = insert url staging w.controller.active };
    })
    worker ← reserve_worker_id sys
    modify (λ w. record w {
      worker_ids = insert url worker w.worker_ids;
      active_attempts = insert url number w.active_attempts;
    })
    tell_all (Call.set_active url worker number "cooldown")
    say "info" "attempt" "transfer admitted" worker
    pure worker

  -- staging_generation is 1 where there was none
  unfoldable pub with_generation : Row → Row
  with_generation r = record r {
    staging_generation = elim row.staging_generation [ none ↦ some 1 | some n ↦ some n ];
  }

  unfoldable pub with_validators : Option Probe → Row → Row
  unfolding with_generation
  with_validators none r = with_generation r
  with_validators (some observed) r = record (with_generation r) {
    etag = observed.etag;
    last_modified = observed.last_modified;
  }

  -- Whether a partial file may be resumed.
  unfoldable pub resume_gate : String → Option Node → Step Gate
  resume_gate staging node =
      if size_of node == 0
      then pure (
          Gate.go (
            with_validators (if is_truthy row.expected_sha256 then none else observed_of eng.head)))
      else if not (is_truthy row.expected_sha256)
          && (is_truthy row.etag || is_truthy row.last_modified)
      then (let (decision, observed) = check_representation eng.head row.etag row.last_modified in
          if not (str_eq decision "confirmed_unchanged")
          then enter_representation_review sys eng.clock url staging decision observed
            >> pure Gate.stop
          else modify (λ w. record w { resume_confirmed = url ∷ w.resume_confirmed })
            >> pure (Gate.go with_generation))
      else pure (Gate.go with_generation)

  -- What is left of the response log and read from it.
  unfoldable pub capture_response : Step Unit
  unfolding set_node
  capture_response = modify (λ w. record w {
    files = set_node (sys.response_path url number) eng.response_left w.files;
    attempt_responses = insert url eng.response w.attempt_responses;
  })

  -- The log is opened with mode "w", aria2 writes it, the staging file and the control file, and then
  -- the response log is taken in; the polling of aria2 and its end are not in the step. An
  -- exception clears the telemetry of the transfer.
  unfoldable pub run_aria2 : String → Step (Bool × String)
  run_aria2 staging = do
    modify (λ w. record w { files = set_node (sys.log_path url number) eng.log w.files })
    capture_response
    modify (λ w. record w {
      files = set_node (control_of sys staging) eng.control (set_node staging eng.staged w.files);
    })
    elim eng.aria2_error [ none ↦ pure (eng.ok, eng.error) | some error ↦ clear >> raise error ]

  -- A body that ended early, for the second time and without progress.
  unfoldable pub is_stalled : ℕ → World → Bool
  unfolding find_row is_incomplete_body_failure
  is_stalled size w = elim (find_row url w.controller.db.downloads) [
    | none ↦ false
    | some prior ↦
        elim prior.last_error [ none ↦ false | some text ↦ is_incomplete_body_failure sys text ]
        && elim prior.bytes [ none ↦ false | some bytes ↦ leb size bytes ]
  ]

  -- The staging file becomes a candidate for review.
  unfoldable pub give_up : String → Option String → String → String → (Row → Row) → Step String
  give_up staging digest reason detail fields = do
    attempt_event eng.clock url number "validation_failed"
    candidate ← move_candidate sys staging
    candidate_event sys url staging (some candidate) digest reason
    moved ← node_at candidate
    to Status.review_required (some detail)
        (λ r. record (fields r) { bytes = some (size_of moved); last_error = some detail })
    clear
    pure "review"

  unfoldable pub fail_disk_full : ℕ → ℕ → Step String
  fail_disk_full worker size = do
    update (λ c. record c { admission_paused = true })
    attempt_event eng.clock url number "stopped"
    update (record_local_failure "storage" "free space exhausted while writing staging")
    to Status.queued (some eng.error) (λ r. record r {
      attempts = row.attempts;
      bytes = some size;
      last_error = some eng.error;
      next_retry_at = 0;
    })
    say "error" "local_failure" eng.error worker
    clear
    pure "local_failure"

  unfoldable pub fail_access_denied : ℕ → ℕ → Step String
  fail_access_denied worker size = do
    attempt_event eng.clock url number "access_denied"
    to Status.review_required (some eng.error) (λ r. record r {
      bytes = some size;
      last_error = some eng.error;
      review_code = some "access_denied";
    })
    say "warning" "access_denied" eng.error worker
    clear
    pure "review"

  unfoldable pub fail_unavailable : ℕ → ℕ → Step String
  fail_unavailable worker size = do
    attempt_event eng.clock url number "unavailable"
    to Status.unavailable (some eng.error) (λ r. record r {
      bytes = some size;
      last_error = some eng.error;
      recheck_at = some (eng.clock.time + recheck_interval);
      early_recheck = 0;
    })
    say "warning" "unavailable" eng.error worker
    clear
    pure "unavailable"

  -- A connection that failed delays every start, and asks Tor for fresh circuits.
  unfoldable pub cool_down : ℕ → Step Unit
  cool_down worker = do
    modify (λ w. record w {
      cooldown_until = max w.cooldown_until (eng.clock.time + sys.socks_backoff);
    })
    renewal ← (λ w.
        let r = request_newnym eng.clock eng.tor_error eng.audit_id eng.session_id w.controller in
        (returned r.1, record w { controller = r.0 }))
    (if str_eq renewal.outcome "completed"
        then say "info" "tor" "requested fresh Tor circuits" worker
        else pure tt)

  unfoldable pub fail_retry : ℕ → ℕ → Step String
  fail_retry worker size = do
    (if is_connectivity_failure sys eng.error then cool_down worker else pure tt)
    stopped ← gets (λ w. w.controller.stop_requested)
    attempt_event eng.clock url number (if stopped then "stopped" else "retryable_failure")
    to Status.retry_wait (some eng.error) (λ r. record r {
      bytes = some size;
      last_error = some eng.error;
      next_retry_at = eng.clock.time + (if stopped then 0 else retry_delay row.attempts);
    })
    say "warning" "retry" eng.error worker
    clear
    pure "failed"

  -- aria2 failed, or left no staging file, or left its control file.
  unfoldable pub fail_attempt : ℕ → String → ℕ → Bool → Step String
  fail_attempt worker staging size stalled =
      if ltb 0 size && is_incomplete_body_failure sys eng.error && stalled
      then give_up staging none "incomplete_body" eng.error (λ r. r)
      else if is_disk_full_failure sys eng.error
      then fail_disk_full worker size
      else if is_access_denied_failure sys eng.error
      then fail_access_denied worker size
      else if is_unavailable_failure sys eng.error
      then fail_unavailable worker size
      else fail_retry worker size
