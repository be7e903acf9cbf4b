-- ===== src/Provenance/Verifier/Summary.antt =====
-- The checks of `verify` that are about the summary: its fields, its key, its signature, and what it
-- says of the events. None is an exception that leaves `verify`.
use tod_dl.Provenance.Verifier.Files.{Content, content, unreadable, Record, Trust, events_fault}
use tod_dl.Provenance.{Library, canonical_json, same, report, concat}
use tod_dl.Provenance.Schema.{summary_schema, summary_fields}
use tod_dl.Provenance.Schema.Errors.{schema_errors}
use tod_dl.Provenance.Writer.{text_or_null}
use tod_dl.Provenance.Events.{same_names, Reading, is_kind}
use tod_dl.Json.{Json, null, Fields, int, str, obj, boolean, float, get_field}
use tod_dl.Json.Dict.{has_field, names, remove}
use tod_dl.Json.Equal.{of_bool}
use tod_dl.Base.{
  length, map, ℕ, String, Bool, true, false, not, ◌&&◌, ◌||◌, Option, none, some, List, [], ◌∷◌,
  ◌++◌, str_eq, if◌then◌else◌, ℤ, pos, leb_ℤ, ◌<>◌, signed, is_truthy,
}

-- The checks of the summary's own fields.
unfoldable pub identity_errors :
    {B : Type 0} → Library B → String → String → Content B → Fields → List String
unfolding same_names text_or_null
identity_errors lib run_id session_id schema summary =
    report (not (same_names (names summary) summary_fields))
      "summary.json: missing or unknown fields"
    ++ report
        (not (same lib (get_field "run_id" summary) (str run_id))
          || not (same lib (get_field "session_id" summary) (str session_id)))
        "summary.json: identifiers do not match record path"
    ++ report
        (not (
          same lib (get_field "schema_sha256" summary)
            (elim schema [ content text ↦ str (lib.sha256_hex text) | unreadable message ↦ null ])))
        "summary.json: schema digest mismatch"

-- expected_fingerprint, and that it differs
unfoldable pub is_other : Option String → String → Bool
is_other none fingerprint = false
is_other (some expected) fingerprint = not (str_eq expected "") && not (str_eq fingerprint expected)

-- The fingerprint of the key that is trusted.
unfoldable pub key_errors : {B : Type 0} → Library B → Trust → Fields → List String
unfolding is_other is_truthy
key_errors lib trust summary = elim trust.public_key [
  | none ↦
      if is_truthy trust.expected_fingerprint
      then "a public key is required to verify the summary signature"
        ∷ report
            (not (
              same lib (get_field "signing_key_fingerprint" summary)
                (text_or_null trust.expected_fingerprint)))
            "summary.json: signing key fingerprint mismatch"
      else "a trusted public key or expected fingerprint is required" ∷ []
  | some (unreadable message) ↦ ("trusted public key: " <> message) ∷ []
  | some (content raw) ↦
      let fingerprint = lib.fingerprint raw in
      report (not (same lib (get_field "signing_key_fingerprint" summary) (str fingerprint)))
        "summary.json: signing key fingerprint mismatch"
      ++ report (is_other trust.expected_fingerprint fingerprint)
          "trusted public key fingerprint does not match expected fingerprint"
]

unfoldable pub fault_errors : Option String → List String
fault_errors none = []
fault_errors (some message) = ("summary.json: invalid signature: " <> message) ∷ []

-- The signature: a signature that is no text, or a float in the summary, leaves by an exception.
unfoldable pub check_signature :
    {B : Type 0} → Library B → String → Json → Fields → Option (List String)
unfolding fault_errors
check_signature lib raw (str signature) unsigned = elim (lib.decode_fault signature) [
  | some message ↦ some (fault_errors (some message))
  | none ↦ elim (canonical_json lib (obj unsigned)) [
    | none ↦ none
    | some bytes ↦ some (fault_errors (lib.signature_fault raw signature bytes))
  ]
]
check_signature lib raw null unsigned = none
check_signature lib raw _ unsigned = none

unfoldable pub signature_errors : {B : Type 0} → Library B → Trust → Fields → Option (List String)
unfolding check_signature
signature_errors lib trust summary = elim trust.public_key [
  | none ↦ some []
  | some (unreadable message) ↦ some []
  | some (content raw) ↦
      check_signature lib raw
        (if has_field "signature" summary then get_field "signature" summary else str "")
        (remove "signature" summary)
]

-- whether the last event is a run_closed event with the summary's counts
unfoldable pub is_closed_by : {B : Type 0} → Library B → Fields → Option Json → Bool
unfolding is_kind
is_closed_by lib summary none = false
is_closed_by lib summary (some (obj event)) =
    is_kind "run_closed" (get_field "event_type" event)
    && same lib (get_field "durable_outcome_counts" event)
        (get_field "durable_outcome_counts" summary)
is_closed_by lib summary (some null) = false
is_closed_by lib summary (some _) = false

-- a value as an int, which a Boolean is too
unfoldable pub int_of : Json → Option ℤ
unfolding of_bool
int_of (int n) = some n
int_of (boolean b) = some (of_bool b)
int_of null = none
int_of _ = none

-- durable_counts.get("complete", 0) < session_count, where the two can be compared
unfoldable pub is_below : {B : Type 0} → Library B → ℤ → Json → Option Bool
unfolding int_of
is_below lib session (float x) = some (lib.float_below x session)
is_below lib session null = none
is_below lib session v = elim (int_of v) [ none ↦ none | some n ↦ some (not (leb_ℤ session n)) ]

-- The number of finalized events, beside the counts of the summary.
unfoldable pub count_errors : {B : Type 0} → Library B → ℕ → Json → Json → Option (List String)
unfolding is_below int_of
count_errors lib finals (obj counts) session = elim (int_of session) [
  | none ↦ some []
  | some n ↦
      if not (same lib (int n) (int (pos finals)))
      then some ("summary.json: completed-item count does not match finalized events" ∷ [])
      else elim (is_below lib n
          (if has_field "complete" counts then get_field "complete" counts else int (pos 0))) [
            | none ↦ none
            | some below ↦
                some (
                  report below "summary.json: completed-item count does not match finalized events")
          ]
]
count_errors lib finals null session = some []
count_errors lib finals _ session = some []

unfoldable pub is_given : {B : Type 0} → List B → Bool
is_given [] = false
is_given (line ∷ lines) = true

-- What is checked once the lines are read.
unfoldable pub closing_errors : {B : Type 0} → Library B → Fields → List B → Reading → List String
unfolding is_closed_by is_given text_or_null
closing_errors lib summary lines r = concat (
    report (not (same lib (get_field "event_count" summary) (int (pos (length lines)))))
      "summary.json: event count mismatch"
    ∷ report (not (same lib (get_field "final_event_digest" summary) (text_or_null r.previous)))
        "summary.json: final event digest mismatch"
    ∷ report (is_given lines && not (is_closed_by lib summary r.last_event))
        "summary.json: last event is not a matching run_closed event"
    ∷ [])

-- The errors before the lines are read: those of the files, and those of the summary.
unfoldable pub start_errors :
    {B : Type 0}
    → Library B
    → String
    → String
    → Record B
    → Trust
    → Fields
    → List String
    → List String
    → List String
unfolding identity_errors key_errors events_fault
start_errors lib run_id session_id files trust summary errors signed =
    errors
    ++ identity_errors lib run_id session_id files.schema summary
    ++ key_errors lib trust summary
    ++ signed
    ++ map (λ problem. "summary.json: " <> problem)
        (schema_errors lib (obj summary) summary_schema "$")
    ++ events_fault files.events
