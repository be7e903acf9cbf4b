-- ===== src/Worker/Events.antt =====
-- The evidence and the bookkeeping of a transfer: `attempt_event`, `record_attempt_start`,
-- `finalized_event`, `candidate_event`, `clear_transfer_telemetry`, `move_candidate` and
-- `reserve_worker_id` (src/tod-dl.py).
use tod_dl.Files.{Node, exists}
use tod_dl.Telemetry.{Call}
use tod_dl.Worker.Failures.{expected_size_from_response}
use tod_dl.Manifest.{Clock, find_row}
use tod_dl.Worker.{
  ◌>>=◌, ◌>>◌, Attempt, System, World, Step, call, modify, raised, returned, gets, node_at,
  tell_all, pure, put_node, unlink, raise, exited, Outcome,
}
use tod_dl.Controller.{
  Check, Evidence, Headers, unavailable, Finalized, available, provenance_event, runtime_error,
  os_error, OsError,
}
use tod_dl.Base.{
  ℕ, zero, suc, ◌+◌, String, Bool, true, false, not, ◌&&◌, Option, none, some, List, [], ◌∷◌, ◌++◌,
  str_eq, filter, any, contains, lookup, erase, ◌==◌, if◌then◌else◌, ◌<>◌, decimal, is_truthy,
  insert,
}

-- NO_RESPONSE_FIELDS
abbrev pub no_response : Headers
no_response = record {
  http_status = none;
  content_length = none;
  content_range = none;
  etag = none;
  last_modified = none;
}

-- self.attempt_responses.get(url, {})
unfoldable pub response_of : String → World → Headers
unfolding lookup
response_of url w = elim (lookup url w.attempt_responses) [
  | none ↦ no_response
  | some headers ↦ headers
]

-- FileNotFoundError
abbrev pub no_such_file : OsError
no_such_file = record { message = "No such file or directory"; is_name_too_long = false }

-- self.provenance_event(…)
abbrev pub evidence : Evidence → Step Unit
evidence e = call (provenance_event e)

-- UPDATE download_attempts SET … WHERE run_id=? AND url=? AND attempt_id=?
unfoldable pub end_attempt : String → String → ℕ → String → String → List Attempt → List Attempt
end_attempt run_id url number stamp outcome [] = []
end_attempt run_id url number stamp outcome (a ∷ attempts) =
    (if str_eq a.run_id run_id && str_eq a.url url && a.number == number
      then record a { ended_at = some stamp; outcome = some outcome }
      else a)
    ∷ end_attempt run_id url number stamp outcome attempts

unfoldable pub attempt_event : Clock → String → ℕ → String → Step Unit
attempt_event clock url number outcome = do
  headers ← gets (response_of url)
  evidence (Evidence.attempt_finished url number outcome headers)
  modify (λ w. record w {
    attempt_responses =
        if str_eq outcome "success" then w.attempt_responses else erase url w.attempt_responses;
    attempts = end_attempt w.controller.run_id url number clock.stamp outcome w.attempts;
  })

unfoldable pub has_attempt : String → String → ℕ → List Attempt → Bool
has_attempt run_id url number =
    any (λ a. str_eq a.run_id run_id && str_eq a.url url && a.number == number)

-- INSERT OR IGNORE; (run_id, url, attempt_id) is the primary key, and the hash stands for the number
unfoldable pub record_attempt_start : Clock → String → ℕ → Step Unit
record_attempt_start clock url number = modify (λ w. record w {
  attempts =
      if has_attempt w.controller.run_id url number w.attempts
      then w.attempts
      else w.attempts
        ++ record {
          run_id = w.controller.run_id;
          url = url;
          number = number;
          started_at = clock.stamp;
          ended_at = none;
          outcome = none;
        }
          ∷ [];
})

-- value or other
unfoldable pub or_else_text : Option String → Option String → Option String
unfolding is_truthy
or_else_text a b = if is_truthy a then a else b

-- validator
unfoldable pub validator : Option String → Bool → Check
validator none compared = unavailable
validator (some value) compared = available compared value

unfoldable pub validator_of_size : Option ℕ → Bool → Check
unfolding decimal
validator_of_size none compared = unavailable
validator_of_size (some n) compared = available compared (decimal n)

unfoldable pub etags_of : String → World → Option String × Option String
unfolding find_row
etags_of url w = elim (find_row url w.controller.db.downloads) [
  | none ↦ (none, none)
  | some row ↦ (row.etag, row.last_modified)
]

module _ (sys : System) where
  -- The body of `finalized_event` once the response and the row are read.
  unfoldable pub finalized_of :
      String → String → String → ℕ → String → Option String → Bool → World → Finalized
  unfolding response_of etags_of or_else_text validator validator_of_size is_truthy contains
      expected_size_from_response
  finalized_of url logical stored byte_count sha256 expected_sha256 size_compared w =
      let response = response_of url w in
      let tags = etags_of url w in
      record {
        source_url = url;
        logical_relative_path = logical;
        final_relative_path = stored;
        byte_count = byte_count;
        sha256 = sha256;
        expected_size = validator_of_size (expected_size_from_response sys response) size_compared;
        expected_checksum =
            if is_truthy expected_sha256 then validator expected_sha256 true else unavailable;
        etag = validator (or_else_text tags.0 response.etag) (contains url w.resume_confirmed);
        last_modified = validator (or_else_text tags.1 response.last_modified) false;
      }

  unfoldable pub finalized_event :
      String → String → String → ℕ → String → Option String → Bool → Step Unit
  finalized_event url logical stored byte_count sha256 expected_sha256 size_compared = do
    event ← gets (finalized_of url logical stored byte_count sha256 expected_sha256 size_compared)
    modify (λ w. record w {
      attempt_responses = erase url w.attempt_responses;
      resume_confirmed = filter (λ u. not (str_eq u url)) w.resume_confirmed;
    })
    evidence (Evidence.finalized event)

  -- CANDIDATE_EVENT_REASONS.get(reason, reason)
  unfoldable pub event_reason : String → String
  unfolding contains
  event_reason reason =
      if contains reason ("incomplete_body" ∷ "checksum_mismatch" ∷ "size_mismatch" ∷ [])
      then "validation_failed"
      else if contains reason
          ("changed_remote_representation" ∷ "no_reliable_version_protection" ∷ [])
      then "recovery_review"
      else reason

  unfoldable pub candidate_event :
      String → String → Option String → Option String → String → Step Unit
  candidate_event url staging candidate sha256 reason =
      evidence (Evidence.candidate_created url staging candidate sha256 (event_reason reason))

  -- staging + ".aria2"
  abbrev pub control_of : String → String
  control_of staging = staging <> ".aria2"

  -- os.link creates a candidate or fails: a name that exists is left alone and the next one is tried.
  -- The loop has no end of its own; with the names all in use it does not get further.
  unfoldable pub link_candidate : Node → List String → Step String
  link_candidate node [] w = (exited, w)
  link_candidate node (name ∷ names) w =
      elim (lookup name w.files) as (λ _. Outcome String × World) [
        | some other ↦ link_candidate node names w
        | none ↦ (returned name, record w { files = insert name node w.files })
      ]

  -- The link takes the inode of the staging file; one that is missing raises. `os.replace` of the
  -- control file writes over what has that name.
  unfoldable pub move_candidate : String → Step String
  unfolding link_candidate
  move_candidate staging = do
    node ← node_at staging
    elim node [
      | none ↦ raise (os_error no_such_file)
      | some n ↦ do
        candidate ← link_candidate n (sys.candidate_names staging)
        unlink staging
        control ← node_at (control_of staging)
        (if exists control
            then (elim control [
              | none ↦ pure tt
              | some n ↦ put_node (control_of candidate) n >> unlink (control_of staging)
            ])
            else pure tt)
        pure candidate
    ]

  -- range(1, workers + 1): the first number that no transfer has
  unfoldable pub first_free : ℕ → ℕ → List (String × ℕ) → Option ℕ
  unfolding any
  first_free zero from used = none
  first_free (suc left) from used =
      let rest = first_free left (from + 1) used in
      if any (λ entry. entry.1 == from) used then rest else some from

  unfoldable pub reserve_worker_id : Step ℕ
  reserve_worker_id w = elim (first_free sys.workers 1 w.worker_ids) [
    | none ↦ (raised (runtime_error "no worker slot available for admitted transfer"), w)
    | some id ↦ (returned id, w)
  ]

unfoldable pub clear_transfer_telemetry : String → Step Unit
clear_transfer_telemetry url = do
  modify (λ w. record w {
    controller = record (w.controller) { active = erase url w.controller.active };
    worker_ids = erase url w.worker_ids;
    active_attempts = erase url w.active_attempts;
  })
  tell_all (Call.clear_validation url)
  tell_all (Call.clear_active url)
