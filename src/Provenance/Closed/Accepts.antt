-- ===== src/Provenance/Closed/Accepts.antt =====
-- `verify` accepts the record set, check by check.
use tod_dl.Provenance.Schema.Errors.{schema_errors}
use tod_dl.Provenance.{Library, canonical_json, same}
use tod_dl.Provenance.Schema.{schema_document, summary_schema}
use tod_dl.Provenance.Writer.{Writer, Closing, unsigned_summary}
use tod_dl.Provenance.Events.{Reading, nothing_read, check_lines}
use tod_dl.Provenance.Verifier.{
  Record, Trust, content, Final, verify, verify_at, verify_summary, load_json, dict_of, lines_of,
  events_fault, start_errors, closing_errors, count_errors, final_errors, file_faults,
}
use tod_dl.Provenance.Written.{ReadsBack}
use tod_dl.Provenance.Accepted.{clean_append, silent, is_not-false}
use tod_dl.Provenance.Sound.{IsSound}
use tod_dl.Json.{Json, Fields, str, obj, get_field}
use tod_dl.Json.Equal.{has_float}
use tod_dl.Base.{
  ◌<>◌, String, false, Option, none, some, List, [], ◌++◌, map, ◌≡◌, refl, ap, ◌∙◌, length,
}
use tod_dl.Provenance.Closed.Summary.{
  identity_errors-nil, key_errors-nil, signature_errors-nil, count_errors-nil, closing_errors-nil,
  summary-load,
}
use tod_dl.Provenance.Closed.{
  signed_summary, finished, left_by, trusting, IsFitting, schema-load, schema-same,
}

-- The parts of `verify_summary` that find nothing find nothing together.
all_silent :
    (read : List String → Option Reading) (counts finals : Reading → Option (List String))
    (closing : Reading → List String) {signed : Option (List String)} {r : Reading}
    → signed ≡ some []
    → read [] ≡ some r
    → counts r ≡ some []
    → finals r ≡ some []
    → closing r ≡ []
    → r.errors ≡ []
    → elim signed [
      | none ↦ none
      | some faults ↦ elim (read faults) [
        | none ↦ none
        | some last ↦ elim (counts last) [
          | none ↦ none
          | some counted ↦ elim (finals last) [
            | none ↦ none
            | some undelivered ↦ some (last.errors ++ closing last ++ counted ++ undelivered)
          ]
        ]
      ]
    ]
      ≡ some []
all_silent read counts finals closing a b c d e f =
    rw (a, b, c, d)
      (ap (λ (xs : List String). some xs)
        (clean_append (clean_append (clean_append f e) refl) refl))

schema-load_json :
    {B : Type 0} (lib : Library B)
    → ReadsBack lib
    → load_json lib "schema.json" (content (lib.dumps schema_document)) ≡ (schema_document, [])
unfolding load_json
schema-load_json lib reads = cc (schema-load lib reads)

verify_at-summary :
    {B : Type 0} (lib : Library B) (run_id session_id : String) (files : Record B) (trust : Trust)
    (summary : Fields)
    → dict_of (load_json lib "summary.json" files.summary).0 ≡ some summary
    → verify_at lib run_id session_id files trust
      ≡ verify_summary lib run_id session_id files trust summary (file_faults lib files)
unfolding verify_at
verify_at-summary lib run_id session_id files trust summary e = cc (e)

module _ {B : Type 0} (lib : Library B) (closing : Closing) (w : Writer B)
    (f : IsFitting lib closing w) where
  pub start_errors-nil :
      (raw : String) (key : lib.fingerprint raw ≡ w.fingerprint) (destination : String → Final)
      → w.schema_sha256 ≡ lib.sha256_hex (lib.dumps schema_document)
      → schema_errors lib (obj (signed_summary lib closing w)) summary_schema "$" ≡ []
      → start_errors lib w.run_id w.session_id
          (left_by lib (finished lib closing w) destination)
          (trusting raw)
          (signed_summary lib closing w)
          []
          []
        ≡ []
  unfolding start_errors left_by events_fault finished
  start_errors-nil raw key destination e fits =
      clean_append
        (clean_append
          (clean_append
            (clean_append (identity_errors-nil lib closing w f (lib.dumps schema_document) e)
              (key_errors-nil lib closing w f raw key))
            refl)
          (ap (map (λ problem. "summary.json: " <> problem)) fits))
        refl

  -- What `verify` finds in the record set that the writer leaves.
  pub verify_summary-left :
      (raw : String) (key : lib.fingerprint raw ≡ w.fingerprint) (ids : List String)
      (whole : Fields) (destination : String → Final)
      (s : IsSound lib destination w ids (some (obj whole)))
      → ReadsBack lib
      → ((bytes : B)
          → (lib.decode_fault (lib.signature bytes) ≡ none)
            × (lib.signature_fault raw (lib.signature bytes) bytes ≡ none))
      → canonical_json lib (obj (unsigned_summary closing w))
        ≡ some (lib.dumps (obj (unsigned_summary closing w)))
      → has_float (obj (unsigned_summary closing w)) ≡ false
      → schema_errors lib (obj (signed_summary lib closing w)) summary_schema "$" ≡ []
      → get_field "event_type" whole ≡ str "run_closed"
      → get_field "durable_outcome_counts" whole ≡ closing.durable_outcome_counts
      → verify_summary lib w.run_id w.session_id
          (left_by lib (finished lib closing w) destination)
          (trusting raw)
          (signed_summary lib closing w)
          []
        ≡ some []
  unfolding verify_summary left_by lines_of finished
  verify_summary-left raw key ids whole destination s reads valid c fine fits kind counts =
      all_silent
        (λ signed. check_lines lib w.run_id w.session_id 1 w.events (
          nothing_read (
            start_errors lib w.run_id w.session_id
              (left_by lib (finished lib closing w) destination) (trusting raw)
              (signed_summary lib closing w) [] signed)))
        (λ r.
          count_errors lib (length r.finals)
            (get_field "durable_outcome_counts" (signed_summary lib closing w))
            (get_field "session_finalized_count" (signed_summary lib closing w)))
        (λ r. final_errors lib destination r.finals)
        (λ r. closing_errors lib (signed_summary lib closing w) w.events r)
        (signature_errors-nil lib closing w f raw key valid c)
        (ap (λ e. check_lines lib w.run_id w.session_id 1 w.events (nothing_read e))
            (start_errors-nil raw key destination s.schema_hash fits)
          ∙ s.reads)
        (count_errors-nil lib closing w f (length s.last.finals) s.finals) s.delivered
        (closing_errors-nil lib closing w f ids whole destination s kind counts fine) s.clean

  pub file_faults-nil :
      (destination : String → Final)
      → ReadsBack lib
      → has_float (obj (unsigned_summary closing w)) ≡ false
      → file_faults lib (left_by lib (finished lib closing w) destination) ≡ []
  unfolding file_faults left_by finished
  file_faults-nil destination reads fine =
      let schema = schema-load_json lib reads in
      clean_append
        (clean_append (ap (λ (p : Json × List String). p.1) schema) (
          silent _ _ (
            is_not-false (
              ap (λ (p : Json × List String). same lib p.0 schema_document) schema
              ∙ schema-same lib))))
        (ap (λ (p : Json × List String). p.1) (summary-load lib closing w f reads fine))

  pub summary-found :
      (destination : String → Final)
      → ReadsBack lib
      → has_float (obj (unsigned_summary closing w)) ≡ false
      → dict_of
          (load_json lib "summary.json"
            (left_by lib (finished lib closing w) destination).summary).0
        ≡ some (signed_summary lib closing w)
  unfolding dict_of left_by finished
  summary-found destination reads fine =
      ap (λ (p : Json × List String). dict_of p.0) (summary-load lib closing w f reads fine)

  pub verify-left :
      (raw : String) (key : lib.fingerprint raw ≡ w.fingerprint) (ids : List String)
      (whole : Fields) (destination : String → Final)
      (s : IsSound lib destination w ids (some (obj whole)))
      → ReadsBack lib
      → ((bytes : B)
          → (lib.decode_fault (lib.signature bytes) ≡ none)
            × (lib.signature_fault raw (lib.signature bytes) bytes ≡ none))
      → canonical_json lib (obj (unsigned_summary closing w))
        ≡ some (lib.dumps (obj (unsigned_summary closing w)))
      → has_float (obj (unsigned_summary closing w)) ≡ false
      → schema_errors lib (obj (signed_summary lib closing w)) summary_schema "$" ≡ []
      → get_field "event_type" whole ≡ str "run_closed"
      → get_field "durable_outcome_counts" whole ≡ closing.durable_outcome_counts
      → verify lib (left_by lib (finished lib closing w) destination) (trusting raw) ≡ some []
  unfolding verify left_by finished
  verify-left raw key ids whole destination s reads valid c fine fits kind counts =
      let left = left_by lib (finished lib closing w) destination in
      let faults = file_faults-nil destination reads fine in
      verify_at-summary lib w.run_id w.session_id left (trusting raw) (signed_summary lib closing w)
        (summary-found destination reads fine)
      ∙ ap
          (verify_summary lib w.run_id w.session_id left (trusting raw)
            (signed_summary lib closing w))
          faults
      ∙ verify_summary-left raw key ids whole destination s reads valid c fine fits kind counts
