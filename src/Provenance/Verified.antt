-- ===== src/Provenance/Verified.antt =====
-- What an answer of `verify` without errors says of the record.
use tod_dl.Provenance.{Library, same}
use tod_dl.Provenance.Events.{Reading, check_lines, nothing_read}
use tod_dl.Provenance.Lines.{nil_parts, report-nil, concat-nil, not-false}
use tod_dl.Provenance.Writer.{text_or_null}
use tod_dl.Provenance.Verifier.{
  Record, Trust, verify, verify_at, verify_summary, load_json, dict_of, lines_of, closing_errors,
  start_errors, file_faults, count_errors, final_errors, signature_errors,
}
use tod_dl.Json.{Fields, int, get_field}
use tod_dl.Base.{
  String, true, Option, none, some, List, [], ◌++◌, ◌≡◌, ap, ◌∙◌, inl, inr, length, Option-cases,
  pos,
}

-- The parts of a record set with this summary that verifies, with the state in which the loop over
-- the lines ends.
pub record IsVerified {B : Type 0} (lib : Library B) (files : Record B) (summary : Fields)
    : Type 0 where
  pub run_id : String
  pub session_id : String
  pub last : Reading
  pub start : List String
  pub is_summary : dict_of (load_json lib "summary.json" files.summary).0 ≡ some summary
  pub reads :
      check_lines lib run_id session_id 1 (lines_of files.events) (nothing_read start) ≡ some last
  pub clean : last.errors ≡ []
  pub counted :
      same lib (get_field "event_count" summary) (int (pos (length (lines_of files.events)))) ≡ true
  pub ends_in :
      same lib (get_field "final_event_digest" summary) (text_or_null last.previous) ≡ true
  pub delivered : final_errors lib files.destination last.finals ≡ some []

-- Where nothing raises, the checks in order give their errors.
all_given :
    (signed : Option (List String)) (read : List String → Option Reading)
    (counts finals : Reading → Option (List String)) (closing : Reading → List String)
    {errors : List String}
    → elim signed [
      | none ↦ none
      | some faults ↦ elim (read faults) [
        | none ↦ none
        | some r ↦ elim (counts r) [
          | none ↦ none
          | some counted ↦ elim (finals r) [
            | none ↦ none
            | some missing ↦ some (r.errors ++ closing r ++ counted ++ missing)
          ]
        ]
      ]
    ]
      ≡ some errors
    → (faults : List String) × (r : Reading) × (counted : List String) × (missing : List String)
      × (read faults ≡ some r)
      × (finals r ≡ some missing)
      × (r.errors ++ closing r ++ counted ++ missing ≡ errors)
all_given none read counts finals closing h = cc
all_given (some faults) read counts finals closing h = elim (Option-cases (read faults)) [
  | inl e ↦ cc (e, h)
  | inr (r, e) ↦ elim (Option-cases (counts r)) [
    | inl c ↦ cc (e, c, h)
    | inr (counted, c) ↦ elim (Option-cases (finals r)) [
      | inl f ↦ cc (e, c, f, h)
      | inr (missing, f) ↦ (faults, r, counted, missing, e, f, cc (e, c, f, h))
    ]
  ]
]

closing_errors-nil :
    {B : Type 0} (lib : Library B) (summary : Fields) (lines : List B) (r : Reading)
    → closing_errors lib summary lines r ≡ []
    → (same lib (get_field "event_count" summary) (int (pos (length lines))) ≡ true)
      × (same lib (get_field "final_event_digest" summary) (text_or_null r.previous) ≡ true)
unfolding closing_errors
closing_errors-nil lib summary lines r h =
    let faults = concat-nil _ h in
    (not-false _ (report-nil _ _ faults.0), not-false _ (report-nil _ _ faults.1.0))

module _ {B : Type 0} (lib : Library B) (files : Record B) (summary : Fields) (r : Reading) where
  -- No errors in all means none in each part.
  from_parts :
      (run_id session_id : String) (start counted missing : List String)
      → dict_of (load_json lib "summary.json" files.summary).0 ≡ some summary
      → check_lines lib run_id session_id 1 (lines_of files.events) (nothing_read start) ≡ some r
      → final_errors lib files.destination r.finals ≡ some missing
      → r.errors ++ closing_errors lib summary (lines_of files.events) r ++ counted ++ missing ≡ []
      → IsVerified lib files summary
  from_parts run_id session_id start counted missing s reads finals e =
      let closing = closing_errors lib summary (lines_of files.events) r in
      let (before, none_missing) = nil_parts (r.errors ++ closing ++ counted) missing e in
      let (clean, closed) =
        nil_parts r.errors closing (nil_parts (r.errors ++ closing) counted before).0 in
      let (counts, digest_ends) = closing_errors-nil lib summary (lines_of files.events) r closed in
      record {
        run_id = run_id;
        session_id = session_id;
        last = r;
        start = start;
        is_summary = s;
        reads = reads;
        clean = clean;
        counted = counts;
        ends_in = digest_ends;
        delivered = finals ∙ ap (λ (x : List String). some x) none_missing;
      }

verify_summary-IsVerified :
    {B : Type 0} (lib : Library B) (run_id session_id : String) (files : Record B) (trust : Trust)
    (summary : Fields) (errors : List String)
    → dict_of (load_json lib "summary.json" files.summary).0 ≡ some summary
    → verify_summary lib run_id session_id files trust summary errors ≡ some []
    → IsVerified lib files summary
unfolding verify_summary
verify_summary-IsVerified lib run_id session_id files trust summary errors s h =
    let (faults, r, counted, missing, reads, finals, e) =
      all_given (signature_errors lib trust summary)
        (λ signed.
          check_lines lib run_id session_id 1 (lines_of files.events)
            (nothing_read (start_errors lib run_id session_id files trust summary errors signed)))
        (λ r.
          count_errors lib (length r.finals) (get_field "durable_outcome_counts" summary)
            (get_field "session_finalized_count" summary))
        (λ r. final_errors lib files.destination r.finals)
        (λ r. closing_errors lib summary (lines_of files.events) r) h in
    from_parts lib files summary r run_id session_id
      (start_errors lib run_id session_id files trust summary errors faults) counted missing s reads
      finals e

verify_at-IsVerified :
    {B : Type 0} (lib : Library B) (run_id session_id : String) (files : Record B) (trust : Trust)
    (summary : Fields)
    → dict_of (load_json lib "summary.json" files.summary).0 ≡ some summary
    → verify_at lib run_id session_id files trust ≡ some []
    → IsVerified lib files summary
unfolding verify_at
verify_at-IsVerified lib run_id session_id files trust summary e h =
    verify_summary-IsVerified lib run_id session_id files trust summary (file_faults lib files) e
      (cc (e, h))

-- Where the summary is a dictionary, what `verify` accepts is verified in each of its parts.
pub verify-IsVerified :
    {B : Type 0} (lib : Library B) (files : Record B) (trust : Trust) (summary : Fields)
    → dict_of (load_json lib "summary.json" files.summary).0 ≡ some summary
    → verify lib files trust ≡ some []
    → IsVerified lib files summary
unfolding verify
verify-IsVerified lib files trust summary s h = elim (Option-cases files.path) [
  | inl e ↦ cc (e, h)
  | inr (place, e) ↦ verify_at-IsVerified lib place.0 place.1 files trust summary s (cc (e, h))
]
