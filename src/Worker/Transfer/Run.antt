-- ===== src/Worker/Transfer/Run.antt =====
-- `transfer` of src/tod-dl.py as a whole.
use tod_dl.Telemetry.{Call}
use tod_dl.Worker.Transfer.Promotion.{validate}
use tod_dl.Status.{Status}
use tod_dl.Files.{exists, size_of}
use tod_dl.Worker.Events.{record_attempt_start, control_of}
use tod_dl.Worker.Representation.{change}
use tod_dl.Manifest.{Row}
use tod_dl.Worker.Transfer.{Engine, Gate, admit, resume_gate, run_aria2, fail_attempt, is_stalled}
use tod_dl.Worker.{◌>>=◌, ◌>>◌, System, or_text, Step, pure, node_at, tell_all, gets}
use tod_dl.Base.{ℕ, ◌+◌, String, not, ◌||◌, none, some, if◌then◌else◌}

module _ (sys : System) (eng : Engine) (row : Row) where
  abbrev url : String
  url = row.url

  -- stored_text or storage_relative(rel), below the destination
  abbrev pub own_stored : String
  own_stored = or_text row.storage_path (sys.stored_name row.relative_path)

  abbrev pub own_target : String
  own_target = sys.final_path own_stored

  abbrev pub own_staging : String
  own_staging = or_text row.staging_path (sys.staging_path url)

  unfoldable pub skip_existing : ℕ → Step String
  skip_existing size = do
    change sys eng.clock url Status.existing_unverified (some "final already exists")
        (λ r. record r { bytes = some size })
    pure "existing"

  -- The attempt: aria2 runs, and its result is validated or given up.
  unfoldable pub attempt : ℕ → (Row → Row) → Step String
  attempt worker fields = do
    change sys eng.clock url Status.active none
        (λ r. record (fields r) { attempts = row.attempts + 1 })
    record_attempt_start eng.clock url (row.attempts + 1)
    tell_all (Call.update_phase url "connecting")
    result ← run_aria2 sys eng row own_staging
    staged ← node_at own_staging
    control ← node_at (control_of sys own_staging)
    stalled ← gets (is_stalled sys eng row (size_of staged))
    (if not result.0 || not (exists staged) || exists control
        then fail_attempt sys (record eng { error = result.1 }) row worker own_staging
            (size_of staged) stalled
        else validate sys eng row own_target own_stored own_staging worker)

  unfoldable pub begin : ℕ → Gate → Step String
  begin worker Gate.stop = pure "review"
  begin worker (Gate.go fields) = attempt worker fields

  unfoldable pub transfer : Step String
  transfer = do
    there ← node_at own_target
    (if exists there then skip_existing (size_of there) else do
      worker ← admit sys eng row own_staging
      partial ← node_at own_staging
      gate ← resume_gate sys eng row own_staging partial
      begin worker gate)
