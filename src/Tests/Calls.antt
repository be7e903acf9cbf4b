-- ===== src/Tests/Calls.antt =====
-- Calls of the writer, and a record that does not verify, at the library of Tests/Records.
use tod_dl.Provenance.{Parsed, value, invalid}
use tod_dl.Provenance.Returns.Summary.{IsReadableSummary, verify-returns}
use tod_dl.Provenance.Writer.{opened}
use tod_dl.Provenance.Returns.{is_text_or_absent, has_text_paths, IsReadable}
use tod_dl.Json.Dict.{dict, set_field, has_field}
use tod_dl.Json.Equal.{has_float}
use tod_dl.Provenance.Log.{IsLog, record_all, record_all-IsLog}
use tod_dl.Provenance.Log.{EventCall}
use mathlib.Core.Path.{subst}
use mathlib.Core.Option.{some-injective}
use tod_dl.Provenance.Verifier.{Record, load_json, dict_of, lines_of, verify, content, unreadable}
use tod_dl.Provenance.Events.{load, build, no_duplicates, is_hashable}
use tod_dl.Json.{end, null, Fields, Json, obj, str, get_field, int, text_of}
use tod_dl.Provenance.Verifier.{int_of}
use tod_dl.Tests.Records.{lib, moment_of, final_fields, destination, careful}
use tod_dl.Base.{is_some, true, some, List, [], ◌∷◌, ◌≡◌, refl, ap, pos, str_lt}

abbrev calls : List (EventCall Json)
calls =
    record { moment = moment_of "e1"; kind = "finalized"; fields = final_fields }
    ∷ record { moment = moment_of "e2"; kind = "paused"; fields = end }
    ∷ []

record_all-IsLog_example :
    IsLog lib
      (record_all lib calls (opened lib "run" "session" "raw")).1
      (record_all lib calls (opened lib "run" "session" "raw")).0
record_all-IsLog_example = record_all-IsLog lib "run" "session" "raw" calls (refl, (refl, tt))

abbrev partial_summary : Fields
partial_summary = dict (
    ("signature", str "x")
    ∷ ("session_finalized_count", int (pos 1))
    ∷ ("durable_outcome_counts", obj (dict (("complete", int (pos 2)) ∷ [])))
    ∷ [])

abbrev partial_event : Fields
partial_event = dict (("event_type", str "finalized") ∷ ("final_relative_path", str "a") ∷ [])

abbrev partial_record : Record Json
partial_record = record {
  path = some ("run", "session");
  schema = unreadable "no";
  summary = content (obj partial_summary);
  events = content (null ∷ obj partial_event ∷ []);
  destination = destination;
}

fields_of : Json → Fields
fields_of (obj fields) = fields
fields_of null = end
fields_of v = end

parsed_fields : Parsed Json → Fields
parsed_fields (value v) = fields_of v
parsed_fields (invalid message) = end

partial_summary-IsReadable : IsReadableSummary partial_summary
unfolding has_float is_text_or_absent int_of get_field has_field dict set_field str_lt text_of
    fields_of
partial_summary-IsReadable = record {
  no_float = refl;
  signature = refl;
  complete = λ counts e h.
      subst (λ f. is_some (int_of (get_field "complete" f)) ≡ true) (ap fields_of e) refl;
}

partial_event-IsReadable : IsReadable partial_event
unfolding has_float is_text_or_absent has_text_paths get_field has_field dict set_field str_lt
    is_hashable text_of
partial_event-IsReadable = record { has_id = refl; has_kind = refl; no_float = refl; paths = refl }

verify-returns_example : is_some (verify lib partial_record careful) ≡ true
unfolding load_json load build no_duplicates dict set_field str_lt has_field lines_of dict_of
    fields_of parsed_fields
verify-returns_example =
    verify-returns lib partial_record careful
      (λ summary e. subst IsReadableSummary (some-injective _ _ e) partial_summary-IsReadable)
      (
        λ fields e. cc (e),
        (λ fields e. subst IsReadable (ap parsed_fields e) partial_event-IsReadable, tt),
      )
