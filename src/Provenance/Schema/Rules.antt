-- ===== src/Provenance/Schema/Rules.antt =====
-- The constants of the schema in src/provenance.py, from `HEX` to `EVENT_FIELD_RULES`.
use tod_dl.Json.{Json, end, boolean, int, str, arr, obj, items_of}
use tod_dl.Json.Dict.{dict}
use tod_dl.Base.{ℕ, String, false, List, [], ◌∷◌, pos}

abbrev pub texts_of : List String → Json
texts_of xs = arr (items_of xs)

abbrev pub object : List (String × Json) → Json
object entries = obj (dict entries)

abbrev pub hex_pattern : String
hex_pattern = "^[0-9a-f]{64}$"

unfoldable pub typed : String → Json
typed name = object (("type", str name) ∷ [])

unfoldable pub with_pattern : String → Json
with_pattern pattern = object (("type", str "string") ∷ ("pattern", str pattern) ∷ [])

pub one_of : List String → Json
one_of values = object (("enum", texts_of values) ∷ [])

unfoldable pub hex : Json
hex = with_pattern hex_pattern

unfoldable pub timestamp : Json
timestamp = with_pattern "^\\d{4}-\\d{2}-\\d{2}T\\d{2}:\\d{2}:\\d{2}(\\.\\d+)?Z$"

abbrev pub uuid_pattern : String
uuid_pattern = "^[0-9a-f]{8}-[0-9a-f]{4}-[0-9a-f]{4}-[0-9a-f]{4}-[0-9a-f]{12}$"

unfoldable pub uuid : Json
uuid = with_pattern uuid_pattern

unfoldable pub at_least : ℕ → Json
at_least n = object (("type", str "integer") ∷ ("minimum", int (pos n)) ∷ [])

unfoldable pub counts : Json
counts = object (("type", str "object") ∷ ("additionalProperties", at_least 0) ∷ [])

pub nullable_text : Json
nullable_text = object (("type", texts_of ("string" ∷ "null" ∷ [])) ∷ [])

unfoldable pub nullable_hex : Json
nullable_hex =
    object (("type", texts_of ("string" ∷ "null" ∷ [])) ∷ ("pattern", str hex_pattern) ∷ [])

unfoldable pub non_empty : Json
non_empty = object (("type", str "string") ∷ ("minLength", int (pos 1)) ∷ [])

pub validation_object : Json
validation_object = object (
    ("type", str "object")
    ∷ ("additionalProperties", boolean false)
    ∷ ("required", texts_of ("available" ∷ "compared" ∷ "value" ∷ []))
    ∷ (
      "properties",
      object (
          ("available", typed "boolean") ∷ ("compared", typed "boolean") ∷ ("value", obj end) ∷ []),
    )
    ∷ [])

abbrev pub run_started_rules : List (String × Json)
run_started_rules =
    ("queue_input_digests", typed "array")
    ∷ ("selection_settings", typed "object")
    ∷ ("selected_item_count", at_least 0)
    ∷ []

abbrev pub attempt_finished_rules : List (String × Json)
attempt_finished_rules =
    ("item_id", hex)
    ∷ ("source_url", typed "string")
    ∷ ("attempt_number", at_least 1)
    ∷ ("request_started_at", timestamp)
    ∷ ("request_finished_at", timestamp)
    ∷ ("final_url", nullable_text)
    ∷ ("redirect_chain", object (("type", str "array") ∷ ("items", typed "string") ∷ []))
    ∷ (
      "http_status",
      object (
          ("type", texts_of ("integer" ∷ "null" ∷ []))
          ∷ ("minimum", int (pos 100))
          ∷ ("maximum", int (pos 599))
          ∷ []),
    )
    ∷ (
      "outcome",
      one_of (
          "success" ∷ "retryable_failure" ∷ "unavailable" ∷ "access_denied" ∷ "validation_failed"
          ∷ "stopped" ∷ []),
    )
    ∷ ("response_content_length", nullable_text)
    ∷ ("response_content_range", nullable_text)
    ∷ ("response_content_type", nullable_text)
    ∷ ("response_etag", nullable_text)
    ∷ ("response_last_modified", nullable_text)
    ∷ []

abbrev pub finalized_rules : List (String × Json)
finalized_rules =
    ("item_id", hex)
    ∷ ("source_url", typed "string")
    ∷ ("logical_relative_path", typed "string")
    ∷ ("final_relative_path", typed "string")
    ∷ ("byte_count", at_least 0)
    ∷ ("sha256", hex)
    ∷ ("validation_method_version", typed "string")
    ∷ ("finalized_at", timestamp)
    ∷ ("expected_size", validation_object)
    ∷ ("expected_checksum", validation_object)
    ∷ ("etag", validation_object)
    ∷ ("last_modified", validation_object)
    ∷ []

abbrev pub candidate_created_rules : List (String × Json)
candidate_created_rules =
    ("item_id", hex)
    ∷ ("staging_relative_path", typed "string")
    ∷ ("candidate_relative_path", typed "string")
    ∷ ("sha256", nullable_hex)
    ∷ (
      "finalization_failure_reason",
      one_of (
          "validation_failed" ∷ "destination_collision" ∷ "unsafe_path" ∷ "promotion_error"
          ∷ "recovery_review" ∷ []),
    )
    ∷ []

abbrev pub run_closed_rules : List (String × Json)
run_closed_rules =
    ("closed_at", timestamp)
    ∷ (
      "close_reason",
      one_of ("finished" ∷ "stopped" ∷ "time_limit" ∷ "local_failure" ∷ "interrupted" ∷ []),
    )
    ∷ ("durable_outcome_counts", counts)
    ∷ []

abbrev pub local_failure_rules : List (String × Json)
local_failure_rules =
    (
      "failure_code",
      one_of (
          "record_write" ∷ "database_write" ∷ "permission" ∷ "storage" ∷ "other_local_failure"
          ∷ []),
    )
    ∷ ("failure_detail", typed "string")
    ∷ []

-- EVENT_FIELD_RULES
unfoldable pub event_field_rules : List (String × List (String × Json))
unfolding typed with_pattern hex timestamp at_least one_of counts nullable_text nullable_hex
    validation_object
event_field_rules =
    ("run_started", run_started_rules)
    ∷ ("attempt_finished", attempt_finished_rules)
    ∷ ("finalized", finalized_rules)
    ∷ ("candidate_created", candidate_created_rules)
    ∷ ("run_closed", run_closed_rules)
    ∷ ("local_failure", local_failure_rules)
    ∷ []
