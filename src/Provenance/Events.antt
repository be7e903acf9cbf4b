-- ===== src/Provenance/Events.antt =====
-- The lines of events.jsonl as src/verify_provenance.py reads them: `check_event`, and
-- the loop over the lines in `verify`. None is an exception that leaves the verifier.
mod Loading
pub use tod_dl.Provenance.Events.Loading.{and_then}
unfoldable pub use tod_dl.Provenance.Events.Loading.{
  no_duplicates, build, build_items, build_pairs, load,
}
use tod_dl.Provenance.{Library, value, invalid, digest, same, report, is_subset, concat}
use tod_dl.Provenance.Schema.{event_types, common, event_schema, schema_document}
use tod_dl.Provenance.Schema.Errors.{schema_errors}
use tod_dl.Provenance.Writer.{text_or_null}
use tod_dl.Json.{Json, null, Fields, int, str, arr, obj, boolean, get_field, text_of}
use tod_dl.Json.Dict.{names, remove}
use tod_dl.Base.{
  ℕ, ◌+◌, String, Bool, true, false, not, ◌&&◌, ◌||◌, Option, none, some, List, [], ◌∷◌, ◌++◌, map,
  str_eq, any, contains, if◌then◌else◌, pos, ◌<>◌, decimal,
}

-- EVENT_FIELDS
unfoldable pub event_fields : String → List String
event_fields kind =
    if str_eq kind "run_started"
    then "queue_input_digests" ∷ "selection_settings" ∷ "selected_item_count" ∷ []
    else if str_eq kind "attempt_finished"
    then "item_id" ∷ "source_url" ∷ "attempt_number" ∷ "request_started_at" ∷ "request_finished_at"
      ∷ "final_url" ∷ "redirect_chain" ∷ "http_status" ∷ "outcome" ∷ "response_content_length"
      ∷ "response_content_range" ∷ "response_content_type" ∷ "response_etag"
      ∷ "response_last_modified" ∷ []
    else if str_eq kind "finalized"
    then "item_id" ∷ "source_url" ∷ "logical_relative_path" ∷ "final_relative_path" ∷ "byte_count"
      ∷ "sha256" ∷ "validation_method_version" ∷ "finalized_at" ∷ "expected_size"
      ∷ "expected_checksum" ∷ "etag" ∷ "last_modified" ∷ []
    else if str_eq kind "candidate_created"
    then "item_id" ∷ "staging_relative_path" ∷ "candidate_relative_path" ∷ "sha256"
      ∷ "finalization_failure_reason" ∷ []
    else if str_eq kind "run_closed"
    then "closed_at" ∷ "close_reason" ∷ "durable_outcome_counts" ∷ []
    else if str_eq kind "local_failure"
    then "failure_code" ∷ "failure_detail" ∷ []
    else []

-- a dictionary or a list cannot be looked up in a set
unfoldable pub is_hashable : Json → Bool
is_hashable (arr items) = false
is_hashable (obj fields) = false
is_hashable null = true
is_hashable _ = true

-- value in seen
unfoldable pub has_seen : {B : Type 0} → Library B → Json → List Json → Bool
has_seen lib v seen = any (same lib v) seen

unfoldable pub is_false : Json → Bool
is_false (boolean b) = not b
is_false null = false
is_false _ = false

-- value is None
unfoldable pub is_none : Json → Bool
is_none null = true
is_none (boolean b) = false
is_none _ = false

-- a check of a validation object that is unavailable, and has a value or was compared
unfoldable pub is_contradictory : Json → Bool
unfolding is_false is_none
is_contradictory (obj check) =
    is_false (get_field "available" check)
    && (not (is_false (get_field "compared" check)) || not (is_none (get_field "value" check)))
is_contradictory null = false
is_contradictory _ = false

abbrev pub validations : List String
validations = "expected_size" ∷ "expected_checksum" ∷ "etag" ∷ "last_modified" ∷ []

unfoldable pub contradictions : Fields → List String → List String
contradictions fields [] = []
contradictions fields (name ∷ more) =
    report (is_contradictory (get_field name fields))
      ("events.jsonl: " <> name <> " is unavailable but has a value or was compared")
    ++ contradictions fields more

unfoldable pub same_names : List String → List String → Bool
same_names xs ys = is_subset xs ys && is_subset ys xs

-- Whether the type names a schema, and then what the record lacks of it.
unfoldable pub known_kind_errors : {B : Type 0} → Library B → Fields → String → List String
unfolding contradictions same_names
known_kind_errors lib fields kind =
    report (not (same_names (names fields) (common ++ event_fields kind)))
      "events.jsonl: missing or unknown event fields"
    ++ map (λ problem. "events.jsonl: " <> problem)
        (elim (event_schema schema_document kind) [
          | none ↦ []
          | some schema ↦ schema_errors lib (obj fields) schema "$"
        ])
    ++ (if str_eq kind "finalized" then contradictions fields validations else [])

unfoldable pub kind_errors : {B : Type 0} → Library B → Fields → Json → Option (List String)
unfolding known_kind_errors
kind_errors lib fields (str kind) = some (
    if contains kind event_types
    then known_kind_errors lib fields kind
    else "events.jsonl: invalid event type" ∷ [])
kind_errors lib fields (arr items) = none
kind_errors lib fields (obj more) = none
kind_errors lib fields null = some ("events.jsonl: invalid event type" ∷ [])
kind_errors lib fields _ = some ("events.jsonl: invalid event type" ∷ [])

unfoldable pub differs : String → Option String → Bool
differs actual none = true
differs actual (some wanted) = not (str_eq actual wanted)

-- Whether the digest is invalid; a record that holds a float has none.
unfoldable pub is_wrong_digest : {B : Type 0} → Library B → Fields → Json → Option Bool
unfolding differs
is_wrong_digest lib fields (str actual) =
    if not (lib.is_hex_digest actual)
    then some true
    else elim (digest lib (obj (remove "event_digest" fields))) [
      | none ↦ none
      | some wanted ↦ some (differs actual (some wanted))
    ]
is_wrong_digest lib fields null = some true
is_wrong_digest lib fields _ = some true

-- What the loop over the lines carries: the digest of the last event, the identifiers, the finalized
-- events, the last event, and the errors.
pub record Reading : Type 0 where
  pub previous : Option String
  pub seen : List Json
  pub finals : List Fields
  pub last_event : Option Json
  pub errors : List String

-- The errors of an event, given those of its kind and whether its digest is invalid.
unfoldable pub event_faults :
    {B : Type 0}
    → Library B
    → String
    → String
    → ℕ
    → Fields
    → Reading
    → List String
    → Bool
    → List String
unfolding has_seen
event_faults lib run_id session_id sequence fields r kinds wrong = concat (
    report (not (is_subset common (names fields))) "events.jsonl: event has missing required fields"
    ∷ report (not (same lib (get_field "schema_version" fields) (int (pos 1))))
        "events.jsonl: invalid schema version"
    ∷ kinds
    ∷ report
        (not (same lib (get_field "run_id" fields) (str run_id))
          || not (same lib (get_field "session_id" fields) (str session_id)))
        "events.jsonl: event identifiers do not match record path"
    ∷ report (not (same lib (get_field "sequence" fields) (int (pos sequence))))
        "events.jsonl: sequence gap or reorder"
    ∷ report (has_seen lib (get_field "event_id" fields) r.seen) "events.jsonl: duplicate event ID"
    ∷ report (not (same lib (get_field "previous_digest" fields) (text_or_null r.previous)))
        "events.jsonl: previous digest changed"
    ∷ report wrong "events.jsonl: invalid event digest"
    ∷ [])

-- check_event, for an event that is a dictionary
unfoldable pub check_fields :
    {B : Type 0} → Library B → String → String → ℕ → Fields → Reading → Option Reading
unfolding kind_errors is_wrong_digest is_hashable event_faults
check_fields lib run_id session_id sequence fields r =
    if not (is_hashable (get_field "event_id" fields))
    then none
    else elim (kind_errors lib fields (get_field "event_type" fields)) [
      | none ↦ none
      | some kinds ↦ elim (is_wrong_digest lib fields (get_field "event_digest" fields)) [
        | none ↦ none
        | some wrong ↦ some (record r {
          previous = text_of (get_field "event_digest" fields);
          seen = get_field "event_id" fields ∷ r.seen;
          errors = r.errors ++ event_faults lib run_id session_id sequence fields r kinds wrong;
        })
      ]
    ]

unfoldable pub is_kind : String → Json → Bool
is_kind kind (str s) = str_eq s kind
is_kind kind null = false
is_kind kind _ = false

-- What the loop notes of an event that is a dictionary.
unfoldable pub note_event : Fields → Reading → Reading
unfolding is_kind
note_event fields r = record r {
  last_event = some (obj fields);
  finals =
      r.finals ++ (if is_kind "finalized" (get_field "event_type" fields) then fields ∷ [] else []);
}

-- check_event, and then the loop
unfoldable pub check_event :
    {B : Type 0} → Library B → String → String → ℕ → Json → Reading → Option Reading
unfolding check_fields note_event
check_event lib run_id session_id sequence (obj fields) r =
    elim (check_fields lib run_id session_id sequence fields r) [
      | none ↦ none
      | some checked ↦ some (note_event fields checked)
    ]
check_event lib run_id session_id sequence null r = some (record r {
  previous = none;
  last_event = some null;
  errors = r.errors ++ "events.jsonl: event is not an object" ∷ [];
})
check_event lib run_id session_id sequence v r = some (record r {
  previous = none;
  last_event = some v;
  errors = r.errors ++ "events.jsonl: event is not an object" ∷ [];
})

-- one line; a line that does not parse is passed over
unfoldable pub check_line :
    {B : Type 0} → Library B → String → String → ℕ → B → Reading → Option Reading
unfolding check_event load
check_line lib run_id session_id number line r = elim (load lib line) [
  | invalid message ↦ some (record r {
    errors =
        r.errors ++ ("events.jsonl line " <> decimal number <> ": invalid JSON: " <> message) ∷ [];
  })
  | value v ↦ check_event lib run_id session_id number v r
]

-- for number, line in enumerate(lines, 1)
unfoldable pub check_lines :
    {B : Type 0} → Library B → String → String → ℕ → List B → Reading → Option Reading
unfolding check_line
check_lines lib run_id session_id number [] r = some r
check_lines lib run_id session_id number (line ∷ lines) r =
    elim (check_line lib run_id session_id number line r) [
      | none ↦ none
      | some next ↦ check_lines lib run_id session_id (number + 1) lines next
    ]

unfoldable pub nothing_read : List String → Reading
nothing_read errors = record {
  previous = none;
  seen = [];
  finals = [];
  last_event = none;
  errors = errors;
}
