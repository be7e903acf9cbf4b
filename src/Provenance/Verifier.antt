-- ===== src/Provenance/Verifier.antt =====
-- `verify` of src/verify_provenance.py. None is an exception that leaves it.
mod Files
mod Summary
mod Delivery
pub use tod_dl.Provenance.Verifier.Files.{
  Content, content, unreadable, Final, missing, present, fault, Record, Trust,
}
unfoldable pub use tod_dl.Provenance.Verifier.Files.{
  load_json, dict_of, file_faults, lines_of, events_fault,
}
unfoldable pub use tod_dl.Provenance.Verifier.Summary.{
  identity_errors, is_other, key_errors, fault_errors, check_signature, signature_errors,
  is_closed_by, int_of, is_below, count_errors, is_given, closing_errors, start_errors,
}
unfoldable pub use tod_dl.Provenance.Verifier.Delivery.{
  file_errors, safe_path, event_errors, final_errors,
}
use tod_dl.Provenance.{Library}
use tod_dl.Provenance.Events.{nothing_read, check_lines}
use tod_dl.Json.{Fields, get_field}
use tod_dl.Base.{length, String, Option, none, some, List, [], ◌∷◌, ◌++◌, signed}

-- The checks of a summary that is a dictionary, after the errors found before it.
unfoldable pub verify_summary :
    {B : Type 0}
    → Library B
    → String
    → String
    → Record B
    → Trust
    → Fields
    → List String
    → Option (List String)
unfolding signature_errors lines_of closing_errors count_errors final_errors start_errors
verify_summary lib run_id session_id files trust summary errors =
    elim (signature_errors lib trust summary) [
      | none ↦ none
      | some signed ↦
          elim (check_lines lib run_id session_id 1 (lines_of files.events)
            (nothing_read (start_errors lib run_id session_id files trust summary errors signed))) [
              | none ↦ none
              | some r ↦
                  elim (count_errors lib (length r.finals)
                    (get_field "durable_outcome_counts" summary)
                    (get_field "session_finalized_count" summary)) [
                      | none ↦ none
                      | some counted ↦ elim (final_errors lib files.destination r.finals) [
                        | none ↦ none
                        | some undelivered ↦ some (
                            r.errors
                            ++ closing_errors lib summary (lines_of files.events) r
                            ++ counted
                            ++ undelivered)
                      ]
                    ]
            ]
    ]

-- A summary that is no dictionary ends the checks here.
unfoldable pub verify_at :
    {B : Type 0} → Library B → String → String → Record B → Trust → Option (List String)
unfolding load_json verify_summary dict_of file_faults
verify_at lib run_id session_id files trust =
    elim (dict_of (load_json lib "summary.json" files.summary).0) [
      | none ↦ some (file_faults lib files)
      | some fields ↦
          verify_summary lib run_id session_id files trust fields (file_faults lib files)
    ]

unfoldable pub verify : {B : Type 0} → Library B → Record B → Trust → Option (List String)
unfolding verify_at
verify lib files trust = elim files.path [
  | none ↦ some ("record directory must end in RUN_ID/SESSION_ID" ∷ [])
  | some place ↦ verify_at lib place.0 place.1 files trust
]
