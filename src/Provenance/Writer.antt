-- ===== src/Provenance/Writer.antt =====
-- `ProvenanceWriter` of src/provenance.py, after its directory and key are there.
pub mod Urls
pub use tod_dl.Provenance.Writer.Urls.{UrlCheck, clean, credentialed, broken}
unfoldable pub use tod_dl.Provenance.Writer.Urls.{
  check_found, reject_credentialed_url, and_then, check_items, check_keys, check_characters,
  check_chain, check_urls,
}
use tod_dl.Provenance.{Library, canonical_json, digest}
use tod_dl.Provenance.Schema.{event_types, event_schema, schema_document}
use tod_dl.Provenance.Schema.Errors.{schema_errors}
use tod_dl.Json.{Json, null, Fields, int, str, obj}
use tod_dl.Json.Dict.{dict, set_field, update}
use tod_dl.Base.{
  ℕ, ◌+◌, ◌-◌, String, Bool, true, false, not, Option, none, some, List, [], ◌∷◌, ◌++◌, str_eq,
  contains, if◌then◌else◌, pos, ◌<>◌,
}

-- `events` are the lines of events.jsonl, `summary` is summary.json.
pub record Writer (B : Type 0) : Type 0 where
  pub run_id : String
  pub session_id : String
  pub schema : Json
  pub schema_sha256 : String
  pub fingerprint : String
  pub events : List B
  pub summary : Option B
  pub sequence : ℕ
  pub finalized_count : ℕ
  pub previous_digest : Option String

-- The writer that `__init__` makes, with its directory, its schema.json and its key in place.
unfoldable pub opened : {B : Type 0} → Library B → String → String → String → Writer B
opened lib run_id session_id raw_key = record {
  run_id = run_id;
  session_id = session_id;
  schema = schema_document;
  schema_sha256 = lib.sha256_hex (lib.dumps schema_document);
  fingerprint = lib.fingerprint raw_key;
  events = [];
  summary = none;
  sequence = 0;
  finalized_count = 0;
  previous_digest = none;
}

-- What a call meets: `uuid.uuid4()`, `utc_now()`, and, where the append fails, what it leaves of the
-- lines with the text of the OSError.
pub record Moment (B : Type 0) : Type 0 where
  pub event_id : String
  pub now : String
  pub write_fault : Option (List B × String)

-- The record of the event, or a ProvenanceError, or another exception of `urlsplit` or of a loop.
pub data Answer : Type 0 where
  recorded : Fields → Answer
  provenance_error : String → Answer
  other_error : Answer

-- a text or None
unfoldable pub text_or_null : Option String → Json
text_or_null none = null
text_or_null (some s) = str s

-- the fields that `event` sets itself
unfoldable pub base_fields : {B : Type 0} → Moment B → String → ℕ → Writer B → Fields
unfolding dict text_or_null
base_fields moment kind sequence w = dict (
    ("schema_version", int (pos 1))
    ∷ ("event_id", str moment.event_id)
    ∷ ("sequence", int (pos sequence))
    ∷ ("event_type", str kind)
    ∷ ("run_id", str w.run_id)
    ∷ ("session_id", str w.session_id)
    ∷ ("recorded_at", str moment.now)
    ∷ ("previous_digest", text_or_null w.previous_digest)
    ∷ [])

-- "; ".join(problems)
pub join : List String → String
join [] = ""
join (problem ∷ []) = problem
join (problem ∷ other ∷ more) = problem <> "; " <> join (other ∷ more)

-- The append to events.jsonl, and what follows it under the lock.
unfoldable pub append_record :
    {B : Type 0} → Library B → Moment B → String → Fields → String → Writer B → Writer B × Answer
append_record lib moment kind fields event_digest w = elim moment.write_fault [
  | some fault ↦ (
    record w { events = fault.0 },
    provenance_error ("cannot write provenance event: " <> fault.1),
  )
  | none ↦ (
    record w {
      events = w.events ++ lib.dumps (obj fields) ∷ [];
      previous_digest = some event_digest;
      finalized_count =
          if str_eq kind "finalized" then w.finalized_count + 1 else w.finalized_count;
    },
    recorded fields,
  )
]

-- The check of the record against the schema; only a failure here takes the number back.
unfoldable pub check_record :
    {B : Type 0} → Library B → Moment B → String → Fields → String → Writer B → Writer B × Answer
unfolding append_record join
check_record lib moment kind fields event_digest w = elim (event_schema w.schema kind) [
  | none ↦ (w, provenance_error "unknown provenance event type")
  | some schema ↦ elim (schema_errors lib (obj fields) schema "$") [
    | [] ↦ append_record lib moment kind fields event_digest w
    | problem ∷ more ↦ (
      record w { sequence = w.sequence - 1 },
      provenance_error ("event does not match the schema: " <> join (problem ∷ more)),
    )
  ]
]

-- the record without its digest
unfoldable pub undigested : {B : Type 0} → Moment B → String → Fields → Writer B → Fields
undigested moment kind fields w = update (base_fields moment kind (w.sequence + 1) w) fields

-- What happens under the lock.
unfoldable pub record_event :
    {B : Type 0} → Library B → Moment B → String → Fields → Writer B → Writer B × Answer
unfolding check_record undigested
record_event lib moment kind fields w =
    let numbered = record w { sequence = w.sequence + 1 } in
    let body = undigested moment kind fields w in
    elim (digest lib (obj body)) [
      | none ↦ (numbered, provenance_error "provenance records must not contain floats")
      | some event_digest ↦
          check_record lib moment kind (set_field "event_digest" (str event_digest) body)
            event_digest numbered
    ]

unfoldable pub event :
    {B : Type 0} → Library B → Moment B → String → Fields → Writer B → Writer B × Answer
unfolding record_event check_urls
event lib moment kind fields w =
    if not (contains kind event_types)
    then (w, provenance_error "unknown provenance event type")
    else elim (check_urls lib fields) [
      | clean ↦ record_event lib moment kind fields w
      | credentialed ↦
          (w, provenance_error "provenance must not record a URL with user-info credentials")
      | broken ↦ (w, other_error)
    ]

-- What `close` is told of the run.
pub record Closing : Type 0 where
  pub queue_input_digests : Json
  pub selection_settings : Json
  pub selected_item_count : Json
  pub durable_outcome_counts : Json
  pub close_reason : String

unfoldable pub closing_fields : {B : Type 0} → Moment B → Closing → Fields
unfolding dict
closing_fields moment closing = dict (
    ("closed_at", str moment.now)
    ∷ ("close_reason", str closing.close_reason)
    ∷ ("durable_outcome_counts", closing.durable_outcome_counts)
    ∷ [])

-- the summary that is signed
unfoldable pub unsigned_summary : {B : Type 0} → Closing → Writer B → Fields
unfolding dict text_or_null
unsigned_summary closing w = dict (
    ("schema_version", int (pos 1))
    ∷ ("run_id", str w.run_id)
    ∷ ("session_id", str w.session_id)
    ∷ ("queue_input_digests", closing.queue_input_digests)
    ∷ ("selection_settings", closing.selection_settings)
    ∷ ("event_count", int (pos w.sequence))
    ∷ ("final_event_digest", text_or_null w.previous_digest)
    ∷ ("selected_item_count", closing.selected_item_count)
    ∷ ("durable_outcome_counts", closing.durable_outcome_counts)
    ∷ ("session_finalized_count", int (pos w.finalized_count))
    ∷ ("schema_sha256", str w.schema_sha256)
    ∷ ("signing_key_fingerprint", str w.fingerprint)
    ∷ [])

-- The signed summary goes to a temporary file that replaces summary.json; what an OSError leaves is
-- an argument.
unfoldable pub write_summary :
    {B : Type 0} → Library B → Closing → Option (Option B) → Writer B → Writer B × Bool
unfolding unsigned_summary canonical_json
write_summary lib closing fault w =
    let summary = unsigned_summary closing w in
    elim (canonical_json lib (obj summary)) [
      | none ↦ (w, false)
      | some bytes ↦ elim fault [
        | some left ↦ (record w { summary = left }, false)
        | none ↦ (
          record w {
            summary =
                some (lib.dumps (obj (set_field "signature" (str (lib.signature bytes)) summary)));
          },
          true,
        )
      ]
    ]

-- close: whether it returns, and not by an exception.
unfoldable pub close :
    {B : Type 0} → Library B → Moment B → Closing → Option (Option B) → Writer B → Writer B × Bool
unfolding closing_fields
close lib moment closing fault w =
    let (closed, answer) = event lib moment "run_closed" (closing_fields moment closing) w in
    elim answer [
      | recorded fields ↦ write_summary lib closing fault closed
      | provenance_error message ↦ (closed, false)
      | other_error ↦ (closed, false)
    ]
