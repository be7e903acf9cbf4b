-- ===== src/Worker/Keeps.antt =====
-- What holds of the files before a step of a worker and after it (src/tod-dl.py).
use tod_dl.Worker.Failures.{is_connectivity_failure}
use tod_dl.Manifest.{Clock, Row}
use tod_dl.Worker.Events.{
  attempt_event, clear_transfer_telemetry, candidate_event, finalized_event, reserve_worker_id,
  first_free,
}
use tod_dl.Files.{Files}
use tod_dl.Worker.{
  returned, raised, exited, Step, and_then, handle, hit_failpoint, Outcome, World, is_here, System,
  pure,
}
use tod_dl.Controller.{runtime_error, os_error, value_error, Error, OsError}
use tod_dl.Worker.Transfer.Promotion.{refuse_promotion, refuse_staging, check_io}
use tod_dl.Worker.Transfer.{
  fail_retry, cool_down, fail_unavailable, fail_disk_full, fail_access_denied, Engine,
}
use tod_dl.Base.{
  ℕ, String, Bool, true, false, Option, none, some, if_elim, if◌then◌else◌, str_eq, Option-cases,
  inl, inr,
}

-- `P` speaks of the files.
module _ (P : Files → Type 0) where
  abbrev pub Keeps : {A : Type 0} → Step A → Type 0
  Keeps m = (w : World) → P w.files → P (m w).1.files

  pub and_then-Keeps :
      {A B : Type 0} (o : Outcome A) (rest : A → Step B) (w : World)
      → P w.files
      → ((a : A) → Keeps (rest a))
      → P (and_then o rest w).1.files
  unfolding and_then
  and_then-Keeps (returned a) rest w p h = h a w p
  and_then-Keeps (raised error) rest w p h = p
  and_then-Keeps exited rest w p h = p

  -- A value that was read.
  pub got-Keeps :
      {A B : Type 0} (a : A) (rest : A → Step B) (w : World)
      → P (rest a w).1.files
      → P (and_then (returned a) rest w).1.files
  unfolding and_then
  got-Keeps a rest w h = h

  pub handle-Keeps :
      {A : Type 0} (o : Outcome A) (handler : Error → Step A) (w : World)
      → P w.files
      → ((e : Error) → Keeps (handler e))
      → P (handle o handler w).1.files
  unfolding handle
  handle-Keeps (returned a) handler w p h = p
  handle-Keeps (raised (runtime_error message)) handler w p h = h (runtime_error message) w p
  handle-Keeps (raised (os_error exc)) handler w p h = h (os_error exc) w p
  handle-Keeps (raised (value_error message)) handler w p h = p
  handle-Keeps exited handler w p h = p

  pub if-Keeps :
      {A : Type 0} (b : Bool) (m n : Step A) (w : World)
      → P (m w).1.files
      → P (n w).1.files
      → P ((if b then m else n) w).1.files
  if-Keeps true m n w k h = k
  if-Keeps false m n w k h = h

  pub option-Keeps :
      {A B : Type 0} (o : Option A) (m : Step B) (f : A → Step B) (w : World)
      → P (m w).1.files
      → ((a : A) → P (f a w).1.files)
      → P ((elim o as (λ _. Step B) [ none ↦ m | some a ↦ f a ]) w).1.files
  option-Keeps none m f w k h = k
  option-Keeps (some a) m f w k h = h a

  pub hit_failpoint-Keeps : (name : String) → Keeps (hit_failpoint name)
  unfolding hit_failpoint
  hit_failpoint-Keeps name w p =
      if_elim (λ (r : Outcome Unit × World). P r.1.files) (is_here name w.failpoint) _ _ (λ t. p)
        (λ t. p)

  pub check_io-Keeps : (error : Option OsError) → Keeps (check_io error)
  unfolding check_io
  check_io-Keeps none w p = p
  check_io-Keeps (some exc) w p = p

  pub reserve_worker_id-Keeps : (sys : System) → Keeps (reserve_worker_id sys)
  unfolding reserve_worker_id
  reserve_worker_id-Keeps sys w p =
      elim (Option-cases (first_free sys sys.workers 1 w.worker_ids)) [
        | inl e ↦ rw (e, reserve_worker_id) p
        | inr (id, e) ↦ rw (e, reserve_worker_id) p
      ]

  pub clear_transfer_telemetry-Keeps : (url : String) → Keeps (clear_transfer_telemetry url)
  unfolding clear_transfer_telemetry and_then
  clear_transfer_telemetry-Keeps url w p = p

  pub attempt_event-Keeps :
      (clock : Clock) (url : String) (number : ℕ) (outcome : String)
      → Keeps (attempt_event clock url number outcome)
  unfolding attempt_event
  attempt_event-Keeps clock url number outcome w p =
      and_then-Keeps _ _ _ p (λ a w p. and_then-Keeps _ _ _ p (λ a w p. p))

  pub finalized_event-Keeps :
      (sys : System) (url logical stored : String) (byte_count : ℕ) (sha256 : String)
      (expected_sha256 : Option String) (size_compared : Bool)
      → Keeps
          (finalized_event sys url logical stored byte_count sha256 expected_sha256 size_compared)
  unfolding finalized_event
  finalized_event-Keeps sys url logical stored byte_count sha256 expected_sha256 size_compared w p =
      got-Keeps _ _ _ (and_then-Keeps _ _ _ p (λ u w p. p))

  pub candidate_event-Keeps :
      (sys : System) (url staging : String) (candidate sha256 : Option String) (reason : String)
      → Keeps (candidate_event sys url staging candidate sha256 reason)
  unfolding candidate_event
  candidate_event-Keeps sys url staging candidate sha256 reason w p = p

  module _ (sys : System) (eng : Engine) (row : Row) where
    pub fail_disk_full-Keeps : (worker size : ℕ) → Keeps (fail_disk_full sys eng row worker size)
    unfolding fail_disk_full
    fail_disk_full-Keeps worker size w p = and_then-Keeps _ _ _ p (λ u w p.
        and_then-Keeps _ _ _ (attempt_event-Keeps _ _ _ _ w p) (λ u w p.
          and_then-Keeps _ _ _ p (λ u w p. and_then-Keeps _ _ _ p (λ u w p.
            and_then-Keeps _ _ _ p (λ u w p.
              and_then-Keeps _ _ _ (clear_transfer_telemetry-Keeps _ w p) (λ u w p. p))))))

    pub fail_access_denied-Keeps :
        (worker size : ℕ) → Keeps (fail_access_denied sys eng row worker size)
    unfolding fail_access_denied
    fail_access_denied-Keeps worker size w p =
        and_then-Keeps _ _ _ (attempt_event-Keeps _ _ _ _ w p) (λ u w p.
          and_then-Keeps _ _ _ p (λ u w p.
            and_then-Keeps _ _ _ p
              (λ u w p. and_then-Keeps _ _ _ (clear_transfer_telemetry-Keeps _ w p) (λ u w p. p))))

    pub fail_unavailable-Keeps :
        (worker size : ℕ) → Keeps (fail_unavailable sys eng row worker size)
    unfolding fail_unavailable
    fail_unavailable-Keeps worker size w p =
        and_then-Keeps _ _ _ (attempt_event-Keeps _ _ _ _ w p) (λ u w p.
          and_then-Keeps _ _ _ p (λ u w p.
            and_then-Keeps _ _ _ p
              (λ u w p. and_then-Keeps _ _ _ (clear_transfer_telemetry-Keeps _ w p) (λ u w p. p))))

    cool_down-Keeps : (worker : ℕ) → Keeps (cool_down sys eng row worker)
    unfolding cool_down
    cool_down-Keeps worker w p = and_then-Keeps _ _ _ p (λ u w p.
        and_then-Keeps _ _ _ p
          (λ renewal w p. if-Keeps (str_eq renewal.outcome "completed") _ (pure tt) w p p))

    pub fail_retry-Keeps : (worker size : ℕ) → Keeps (fail_retry sys eng row worker size)
    unfolding fail_retry
    fail_retry-Keeps worker size w p =
        and_then-Keeps _ _ _
          (if-Keeps (is_connectivity_failure sys eng.error) (cool_down sys eng row worker) (pure tt)
            w (cool_down-Keeps worker w p) p)
          (λ u w p. got-Keeps _ _ _ (
            and_then-Keeps _ _ _ (attempt_event-Keeps _ _ _ _ w p) (λ u w p.
              and_then-Keeps _ _ _ p (λ u w p. and_then-Keeps _ _ _ p (λ u w p.
                and_then-Keeps _ _ _ (clear_transfer_telemetry-Keeps _ w p) (λ u w p. p))))))

  module _ (sys : System) (eng : Engine) (row : Row) (target stored staging : String)
      (worker : ℕ) where
    pub refuse_staging-Keeps : Keeps (refuse_staging sys eng row target stored staging worker)
    unfolding refuse_staging
    refuse_staging-Keeps w p = and_then-Keeps _ _ _ (attempt_event-Keeps _ _ _ _ w p) (λ u w p.
        and_then-Keeps _ _ _ p
          (λ u w p. and_then-Keeps _ _ _ (clear_transfer_telemetry-Keeps _ w p) (λ u w p. p)))

    pub refuse_promotion-Keeps :
        (digest : String) (fields : Row → Row) (exc : Error)
        → Keeps (refuse_promotion sys eng row target stored staging worker digest fields exc)
    unfolding refuse_promotion
    refuse_promotion-Keeps digest fields exc w p = and_then-Keeps _ _ _ p (λ n w p.
        and_then-Keeps _ _ _ p
          (λ u w p. and_then-Keeps _ _ _ (clear_transfer_telemetry-Keeps _ w p) (λ u w p. p)))
