-- ===== src/Worker/Overwrites.antt =====
-- `transfer` (src/tod-dl.py) writes over no entry of the tree that is not its own.
use tod_dl.Worker.Events.{response_of, record_attempt_start}
use tod_dl.Worker.Failures.{expected_size_from_response}
use tod_dl.Manifest.{Row}
use tod_dl.Worker.Keeps.{
  Keeps, option-Keeps, and_then-Keeps, got-Keeps, check_io-Keeps, hit_failpoint-Keeps,
  refuse_promotion-Keeps, candidate_event-Keeps, finalized_event-Keeps, if-Keeps,
  clear_transfer_telemetry-Keeps, handle-Keeps, refuse_staging-Keeps, attempt_event-Keeps,
  reserve_worker_id-Keeps,
}
use tod_dl.Worker.Entries.{
  is_own, is_log, Has, move_candidate-Has, erase_ne-Has, give_up-Has, insert_free-Has,
  enter_representation_review-Has, run_aria2-Has, fail_attempt-Has, record_intent-Has,
}
use tod_dl.Worker.{◌>>=◌, System, pure, World, Step, node_at}
use tod_dl.Files.{dangling, Node, Files, file, directory, special, link_to, size_of, exists}
use tod_dl.Worker.Representation.{check_representation}
use tod_dl.Worker.Transfer.{resume_gate, admit, Engine, Gate, fail_attempt}
use tod_dl.Worker.Transfer.Promotion.{
  yield_to_existing, complete_promotion, link_target, promote, check_staged, validate, differs,
  refuse_staging, size_mismatch,
}
use tod_dl.Worker.Transfer.Run.{
  own_stored, own_target, own_staging, skip_existing, attempt, begin, transfer,
}
use tod_dl.Base.{
  ℕ, String, Bool, true, false, not, ◌&&◌, ◌||◌, Option, none, some, List, ◌≡◌, inl, inr, arith,
  str_eq, lookup, length, ◌==◌, Option-cases, if◌then◌else◌, is_truthy,
}

module _ (p : String) (n : Node) (sys : System) (staging : String)
    (other : is_own sys staging p ≡ false) where
  abbrev H : Files → Type 0
  H = Has p n

  module _ (eng : Engine) (row : Row) (target stored : String) (worker : ℕ) where
    yield_to_existing-Has :
        (digest : String)
        → Keeps H (yield_to_existing sys eng row target stored staging worker digest)
    unfolding yield_to_existing
    yield_to_existing-Has digest w h =
        and_then-Keeps H _ _ _ (move_candidate-Has p n sys staging other w h) (λ c w h.
          and_then-Keeps H _ _ _ (candidate_event-Keeps H _ _ _ _ _ _ w h) (λ u w h.
            got-Keeps H _ _ w (
              and_then-Keeps H _ _ _ h (λ u w h.
                and_then-Keeps H _ _ _ (clear_transfer_telemetry-Keeps H _ w h) (λ u w h. h)))))

    complete_promotion-Has :
        (digest : String) (compared : Bool)
        → Keeps H (complete_promotion sys eng row target stored staging worker digest compared)
    unfolding complete_promotion is_own
    complete_promotion-Has digest compared w h =
        and_then-Keeps H _ _ _ (hit_failpoint-Keeps H _ w h) (λ u w h.
          and_then-Keeps H _ _ _ (check_io-Keeps H eng.directory_error w h) (λ u w h.
            got-Keeps H _ _ w (
              and_then-Keeps H _ _ _ (finalized_event-Keeps H _ _ _ _ _ _ _ _ w h) (λ u w h.
                and_then-Keeps H _ _ _ (clear_transfer_telemetry-Keeps H _ w h) (λ u w h.
                  and_then-Keeps H _ _ _ h (λ u w h.
                    and_then-Keeps H _ _ _ (hit_failpoint-Keeps H _ w h) (λ u w h.
                      and_then-Keeps H _ _ _ (erase_ne-Has p n _ _ (ground arith) h) (λ u w h.
                        and_then-Keeps H _ _ _ h
                          (λ u w h. and_then-Keeps H _ _ _ h (λ u w h. h))))))))))

    link_target-Has :
        (digest : String) (compared : Bool)
        → Keeps H (link_target sys eng row target stored staging worker digest compared)
    unfolding link_target
    link_target-Has digest compared w h = got-Keeps H _ _ w (
        got-Keeps H _ _ w (
          option-Keeps H (lookup staging w.files) _ _ w
            (refuse_promotion-Keeps H _ _ _ _ _ _ _ _ _ _ w h)
            (λ staged. elim (Option-cases (lookup target w.files)) [
              | inr (node, e) ↦ rw e (yield_to_existing-Has digest w h)
              | inl e ↦ rw e (
                  option-Keeps H eng.link_error _ _ w
                    (and_then-Keeps H _ _ _ (insert_free-Has p n _ staged _ e h)
                      (λ u. complete_promotion-Has digest compared))
                    (λ exc. refuse_promotion-Keeps H _ _ _ _ _ _ _ _ _ _ w h))
            ])))

    promote-Has :
        (digest : String) (compared : Bool)
        → Keeps H (promote sys eng row target stored staging worker digest compared)
    unfolding promote
    promote-Has digest compared w h =
        and_then-Keeps H _ _ _
          (handle-Keeps H _ _ _
            (and_then-Keeps H _ _ _
              (record_intent-Has p n sys eng row target stored staging worker digest w h)
              (λ u w h. h))
            (λ exc w h.
              and_then-Keeps H _ _ _ (refuse_promotion-Keeps H _ _ _ _ _ _ _ _ _ _ w h)
                (λ r w h. h)))
          (λ stopped w h.
            option-Keeps H stopped
              (link_target sys eng row target stored staging worker digest compared) pure w
              (link_target-Has digest compared w h) (λ r. h))

    check_staged-Has :
        (bytes : List ℕ) → Keeps H (check_staged sys eng row target stored staging worker bytes)
    unfolding check_staged
    check_staged-Has bytes w h = and_then-Keeps H _ _ _ h (λ u w h.
        and_then-Keeps H _ _ _ h (λ u w h. and_then-Keeps H _ _ _ h (λ u w h. got-Keeps H _ _ w (
          if-Keeps H (differs sys (sys.sha256 bytes) row.expected_sha256) _ _ w
            (give_up-Has p n sys staging other eng row _ _ _ _ w h)
            (option-Keeps H
              (size_mismatch (expected_size_from_response sys (response_of row.url w))
                (length bytes))
              _ _ w
              (and_then-Keeps H _ _ _ (attempt_event-Keeps H _ _ _ _ w h) (λ u. promote-Has _ _))
              (λ detail. give_up-Has p n sys staging other eng row _ _ _ _ w h))))))

    validate-Has : Keeps H (validate sys eng row target stored staging worker)
    unfolding validate
    validate-Has w h = got-Keeps H _ _ w (node-Has (lookup staging w.files))
      where
        refused : H (refuse_staging sys eng row target stored staging worker w).1.files
        refused = refuse_staging-Keeps H sys eng row target stored staging worker w h

        node-Has :
            (o : Option Node)
            → H
                ((elim o as (λ _. Step String) [
                  | none ↦ refuse_staging sys eng row target stored staging worker
                  | some n ↦ elim n as (λ _. Step String) [
                    | file bytes ↦ check_staged sys eng row target stored staging worker bytes
                    | directory size ↦ refuse_staging sys eng row target stored staging worker
                    | special size ↦ refuse_staging sys eng row target stored staging worker
                    | link_to to ↦ refuse_staging sys eng row target stored staging worker
                    | dangling ↦ refuse_staging sys eng row target stored staging worker
                  ]
                ])
                  w).1.files
        node-Has none = refused
        node-Has (some (file bytes)) = check_staged-Has bytes w h
        node-Has (some (directory size)) = refused
        node-Has (some (special size)) = refused
        node-Has (some (link_to to)) = refused
        node-Has (some dangling) = refused

module _ (p : String) (n : Node) (sys : System) (eng : Engine) (row : Row)
    (other : is_own sys (own_staging sys eng row) p ≡ false)
    (unlogged : is_log sys row p ≡ false) where
  abbrev K : Files → Type 0
  K = Has p n

  admit-Has : (staging : String) → Keeps K (admit sys eng row staging)
  unfolding admit
  admit-Has staging w h = and_then-Keeps K _ _ _ h (λ u w h.
      and_then-Keeps K _ _ _ (reserve_worker_id-Keeps K sys w h) (λ id w h.
        and_then-Keeps K _ _ _ h
          (λ u w h. and_then-Keeps K _ _ _ h (λ u w h. and_then-Keeps K _ _ _ h (λ u w h. h)))))

  resume_gate-Has :
      (partial : Option Node) → Keeps K (resume_gate sys eng row (own_staging sys eng row) partial)
  unfolding resume_gate
  resume_gate-Has partial w h = if-Keeps K (size_of partial == 0) _ _ w h (
      if-Keeps K
        (not (is_truthy row.expected_sha256) && (is_truthy row.etag || is_truthy row.last_modified))
        _ _ w
        (if-Keeps K
          (not (
            str_eq (check_representation eng.head row.etag row.last_modified).0
              "confirmed_unchanged"))
          _ _ w
          (and_then-Keeps K _ _ _
            (enter_representation_review-Has p n sys (own_staging sys eng row) other _ _ _ _ w h)
            (λ u w h. h))
          (and_then-Keeps K _ _ _ h (λ u w h. h)))
        h)

  -- The branch on what the attempt left.
  outcome-Has :
      (worker size : ℕ) (result : Bool × String) (stalled failed : Bool)
      → Keeps K (
          if failed
          then fail_attempt sys
              (record eng { error = result.1 })
              row
              worker
              (own_staging sys eng row)
              size
              stalled
          else validate sys eng row
              (own_target sys eng row)
              (own_stored sys eng row)
              (own_staging sys eng row)
              worker)
  outcome-Has worker size result stalled true w h =
      fail_attempt-Has p n sys (own_staging sys eng row) other (record eng { error = result.1 }) row
        worker size stalled w h
  outcome-Has worker size result stalled false w h =
      validate-Has p n sys (own_staging sys eng row) other eng row (own_target sys eng row)
        (own_stored sys eng row) worker w h

  attempt-Has : (worker : ℕ) (fields : Row → Row) → Keeps K (attempt sys eng row worker fields)
  unfolding attempt record_attempt_start
  attempt-Has worker fields w h = and_then-Keeps K _ _ _ h (λ u w h.
      and_then-Keeps K _ _ _ h (λ u w h. and_then-Keeps K _ _ _ h (λ u w h.
        and_then-Keeps K _ _ _
          (run_aria2-Has p n sys (own_staging sys eng row) other eng row unlogged w h)
          (λ result w h.
            got-Keeps K _ _ w
              (got-Keeps K _ _ w (got-Keeps K _ _ w (outcome-Has worker _ result _ _ w h)))))))

  begin-Has : (worker : ℕ) (gate : Gate) → Keeps K (begin sys eng row worker gate)
  unfolding begin
  begin-Has worker Gate.stop w h = h
  begin-Has worker (Gate.go fields) w h = attempt-Has worker fields w h

  skip_existing-Has : (size : ℕ) → Keeps K (skip_existing sys eng row size)
  unfolding skip_existing
  skip_existing-Has size w h = and_then-Keeps K _ _ _ h (λ u w h. h)

  admitted-Has : Keeps K (
      admit sys eng row (own_staging sys eng row) >>= λ worker.
      node_at (own_staging sys eng row) >>= λ partial.
      resume_gate sys eng row (own_staging sys eng row) partial >>= λ gate.
      begin sys eng row worker gate)
  admitted-Has w h = and_then-Keeps K _ _ _ (admit-Has _ w h) (λ worker w h.
      got-Keeps K _ _ w
        (and_then-Keeps K _ _ _ (resume_gate-Has _ w h) (λ gate. begin-Has worker gate)))

  pub transfer-keeps :
      (w : World) → lookup p w.files ≡ some n → lookup p (transfer sys eng row w).1.files ≡ some n
  unfolding transfer
  transfer-keeps w h = got-Keeps K _ _ w (
      if-Keeps K (exists (lookup (own_target sys eng row) w.files)) _ _ w (skip_existing-Has _ w h)
        (admitted-Has w h))
