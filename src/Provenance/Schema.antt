-- ===== src/Provenance/Schema.antt =====
-- The schema of the record and its check: `schema_document`, `event_schema` and `schema_errors` of
-- src/provenance.py.
pub mod Errors
pub mod Rules
use tod_dl.Provenance.Schema.Rules.{
  texts_of, object, typed, with_pattern, hex, timestamp, uuid, at_least, counts, nullable_hex,
  non_empty, event_field_rules,
}
use tod_dl.Json.{
  Json, null, Items, nil, cons, Fields, boolean, int, str, arr, obj, get, items_of, text_of,
}
use tod_dl.Json.Dict.{dict, set_field}
use tod_dl.Base.{
  ◌+◌, ◌-◌, String, false, Option, none, some, List, [], ◌∷◌, ◌++◌, map, str_eq, if◌then◌else◌, pos,
}

-- EVENT_TYPES
abbrev pub event_types : List String
event_types =
    "run_started" ∷ "attempt_finished" ∷ "finalized" ∷ "candidate_created" ∷ "run_closed"
    ∷ "local_failure" ∷ []

-- The fields that every event has.
abbrev pub common : List String
common =
    "schema_version" ∷ "event_id" ∷ "sequence" ∷ "event_type" ∷ "run_id" ∷ "session_id"
    ∷ "recorded_at" ∷ "previous_digest" ∷ "event_digest" ∷ []

base_properties : List (String × Json)
base_properties =
    ("schema_version", object (("const", int (pos 1)) ∷ []))
    ∷ ("event_id", uuid)
    ∷ ("sequence", at_least 1)
    ∷ ("run_id", non_empty)
    ∷ ("session_id", uuid)
    ∷ ("recorded_at", timestamp)
    ∷ ("previous_digest", nullable_hex)
    ∷ ("event_digest", hex)
    ∷ []

event_properties : String → List (String × Json) → Fields
unfolding base_properties
event_properties kind rules =
    dict (("event_type", object (("const", str kind) ∷ [])) ∷ base_properties ++ rules)

-- a branch of `oneOf`: "event_type" is the constant of its type
branch : String → List (String × Json) → Json
unfolding event_properties
branch kind rules = object (
    ("type", str "object")
    ∷ ("additionalProperties", boolean false)
    ∷ ("required", texts_of (common ++ map (λ (rule : String × Json). rule.0) rules))
    ∷ ("properties", obj (event_properties kind rules))
    ∷ [])

branches : List (String × List (String × Json)) → Items
branches [] = nil
branches (rules ∷ more) = cons (branch rules.0 rules.1) (branches more)

abbrev pub summary_fields : List String
summary_fields =
    "schema_version" ∷ "run_id" ∷ "session_id" ∷ "queue_input_digests" ∷ "selection_settings"
    ∷ "event_count" ∷ "final_event_digest" ∷ "selected_item_count" ∷ "durable_outcome_counts"
    ∷ "session_finalized_count" ∷ "schema_sha256" ∷ "signing_key_fingerprint" ∷ "signature" ∷ []

abbrev pub signature_pattern : String
signature_pattern = "^[A-Za-z0-9_-]{86}$"

unfoldable pub summary_schema : Json
unfolding typed with_pattern hex uuid at_least counts nullable_hex non_empty dict set_field items_of
summary_schema = object (
    ("type", str "object")
    ∷ ("additionalProperties", boolean false)
    ∷ ("required", texts_of summary_fields)
    ∷ (
      "properties",
      object (
          ("schema_version", object (("const", int (pos 1)) ∷ []))
          ∷ ("run_id", non_empty)
          ∷ ("session_id", uuid)
          ∷ ("queue_input_digests", typed "array")
          ∷ ("selection_settings", typed "object")
          ∷ ("event_count", at_least 0)
          ∷ ("final_event_digest", nullable_hex)
          ∷ ("selected_item_count", at_least 0)
          ∷ ("durable_outcome_counts", counts)
          ∷ ("session_finalized_count", at_least 0)
          ∷ ("schema_sha256", hex)
          ∷ ("signing_key_fingerprint", hex)
          ∷ ("signature", with_pattern signature_pattern)
          ∷ []),
    )
    ∷ [])

unfoldable pub schema_document : Json
unfolding branches branch event_properties base_properties event_field_rules uuid non_empty
    summary_schema dict set_field items_of
schema_document = object (
    ("$schema", str "https://json-schema.org/draft/2020-12/schema")
    ∷ ("title", str "Acquisition provenance manifest")
    ∷ ("schema_version", int (pos 1))
    ∷ ("canonicalization", str "JCS-RFC8785")
    ∷ (
      "$defs",
      object (
          ("event", object (("oneOf", arr (branches event_field_rules)) ∷ []))
          ∷ ("summary", summary_schema)
          ∷ []),
    )
    ∷ [])

-- the first branch whose properties.event_type.const is the type
find_branch : String → Items → Option Json
find_branch kind nil = none
find_branch kind (cons schema more) =
    let rest = find_branch kind more in
    elim (text_of (get "const" (get "event_type" (get "properties" schema)))) [
      | none ↦ rest
      | some name ↦ if str_eq name kind then some schema else rest
    ]

unfoldable pub items_in : Json → Items
items_in (arr items) = items
items_in null = nil
items_in _ = nil

-- event_schema, unless the type is unknown
unfoldable pub event_schema : Json → String → Option Json
unfolding find_branch items_in get
event_schema schema kind =
    find_branch kind (items_in (get "oneOf" (get "event" (get "$defs" schema))))
