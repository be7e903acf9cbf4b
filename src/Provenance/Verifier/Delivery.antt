-- ===== src/Provenance/Verifier/Delivery.antt =====
-- The checks of `verify` that are about the files of the finalized events. None is an exception that
-- leaves `verify`.
use tod_dl.Provenance.Verifier.Files.{Final, missing, present, fault}
use tod_dl.Provenance.{Library, Parsed, value, invalid, same, report, concat, relative_text}
use tod_dl.Json.{Fields, int, str, get_field, text_of}
use tod_dl.Json.Dict.{has_field}
use tod_dl.Base.{String, not, Option, none, some, List, [], ◌∷◌, ◌++◌, if◌then◌else◌, pos, ◌<>◌}

-- The file of one finalized event, at a path that is safe.
unfoldable pub file_errors : {B : Type 0} → Library B → String → Fields → Final → List String
file_errors lib relative event missing = ("final file is missing: " <> relative) ∷ []
file_errors lib relative event (fault message) = ("finalized event is invalid: " <> message) ∷ []
file_errors lib relative event (present size hash) = concat (
    report (not (same lib (get_field "byte_count" event) (int (pos size))))
      ("final byte count differs: " <> relative)
    ∷ report (not (same lib (get_field "sha256" event) (str hash)))
        ("final SHA-256 differs: " <> relative)
    ∷ [])

-- relative_text(event[name]): a KeyError or a ProvenanceError is caught, a TypeError is not
unfoldable pub safe_path : {B : Type 0} → Library B → String → Fields → Option (Parsed String)
unfolding relative_text
safe_path lib name event =
    if not (has_field name event)
    then some (invalid (lib.repr (str name)))
    else elim (text_of (get_field name event)) [
      | none ↦ none
      | some path ↦ some (elim (relative_text lib path) [
        | none ↦ invalid "provenance path is not a safe relative path"
        | some relative ↦ value relative
      ])
    ]

invalid_event : String → List String
invalid_event message = ("finalized event is invalid: " <> message) ∷ []

-- The checks of one finalized event.
unfoldable pub event_errors :
    {B : Type 0} → Library B → (String → Final) → Fields → Option (List String)
unfolding file_errors safe_path invalid_event
event_errors lib destination event = elim (safe_path lib "logical_relative_path" event) [
  | none ↦ none
  | some (invalid message) ↦ some (invalid_event message)
  | some (value logical) ↦ elim (safe_path lib "final_relative_path" event) [
    | none ↦ none
    | some (invalid message) ↦ some (invalid_event message)
    | some (value relative) ↦ some (file_errors lib relative event (destination relative))
  ]
]

unfoldable pub final_errors :
    {B : Type 0} → Library B → (String → Final) → List Fields → Option (List String)
unfolding event_errors
final_errors lib destination [] = some []
final_errors lib destination (event ∷ events) =
    let rest = final_errors lib destination events in
    elim (event_errors lib destination event) [
      | none ↦ none
      | some errors ↦ elim rest [ none ↦ none | some more ↦ some (errors ++ more) ]
    ]
