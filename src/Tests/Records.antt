-- ===== src/Tests/Records.antt =====
-- A record of a run of two events, and the theorems at it: a line is a value, and the digest of an
-- event is its identifier.
use tod_dl.Provenance.Chain.{Distinguished, NoCollision}
use tod_dl.Provenance.Signed.{IsDelivered, finalized, verify-IsDelivered, verify-fixes}
use tod_dl.Provenance.Sound.{Records, start, more, IsSound, Records-IsSound}
use tod_dl.Provenance.Closed.RoundTrip.{close-verify}
use tod_dl.Provenance.Events.{
  is_contradictory, load, build, no_duplicates, check_lines, nothing_read, event_fields,
}
use tod_dl.Provenance.Closed.{left_by, IsFitting, trusting, signed_summary, are_counts}
use tod_dl.Provenance.Schema.Errors.{schema_errors}
use tod_dl.Provenance.Schema.{event_schema, schema_document, summary_schema}
use tod_dl.Json.Equal.{has_float, eq_json, eq_number}
use tod_dl.Json.Dict.{update, remove, names}
use tod_dl.Json.Dict.{dict, set_field, is_ordered, is_ordered_dict, all_above, has_field}
use tod_dl.Provenance.Writer.{
  Moment, Writer, event, opened, recorded, undigested, Answer, Closing, base_fields, close,
  write_summary, unsigned_summary, closing_fields,
}
use tod_dl.Provenance.Verifier.{
  Final, present, dict_of, verify, Record, content, lines_of, load_json, Trust,
}
use tod_dl.Provenance.Lines.{IsPython}
use tod_dl.Provenance.{
  Library, digest, canonical_json, value, relative_text, report, is_empty, is_unsafe_part,
  is_subset, concat,
}
use tod_dl.Json.{
  Fields, Json, get_field, obj, text_of, boolean, str, int, null, arr, nil, end, field,
}
use tod_dl.Base.{
  String, Bool, true, false, Option, none, some, [], ◌∷◌, map, ◌≡◌, refl, sym, ap, ◌∙◌, arith,
  str_eq, eq_iff, filter, any, all, All, contains, pos, str_lt,
}

pub identifier : Fields → String
identifier fields = elim (text_of (get_field "event_id" fields)) [ none ↦ "none" | some s ↦ s ]

abbrev pub lib : Library Json
lib = record {
  dumps = λ v. v;
  parse = λ v. value v;
  float_eq = λ x v. false;
  float_below = λ x n. false;
  sha256_hex = λ v. elim (dict_of v) [ none ↦ "none" | some fields ↦ identifier fields ];
  fingerprint = λ raw. "print";
  repr = λ v. "";
  text_length = λ s. 5;
  search = λ pattern s. true;
  is_hex_digest = λ s. true;
  credentials = λ s. some false;
  is_absolute = λ s. false;
  parts = λ s. s ∷ [];
  as_posix = λ s. s;
  signature = λ v. "signed";
  decode_fault = λ s. none;
  signature_fault = λ raw s v. none;
}

python : IsPython lib
python = record {
  float_text = λ x s. refl;
  float_null = λ x. refl;
  float_one = λ x m n h k. cc (h);
}

abbrev pub destination : String → Final
destination path = present 3 "h"

abbrev pub moment_of : String → Moment Json
moment_of id = record { event_id = id; now = "2026-07-01T00:00:00Z"; write_fault = none }

abbrev available : Json
available =
    obj (dict (("available", boolean false) ∷ ("compared", boolean false) ∷ ("value", null) ∷ []))

abbrev pub final_fields : Fields
final_fields = dict (
    ("item_id", str "i")
    ∷ ("source_url", str "http://x.onion/a")
    ∷ ("logical_relative_path", str "a")
    ∷ ("final_relative_path", str "a")
    ∷ ("byte_count", int (pos 3))
    ∷ ("sha256", str "h")
    ∷ ("validation_method_version", str "1")
    ∷ ("finalized_at", str "2026-07-01T00:00:00Z")
    ∷ ("expected_size", available)
    ∷ ("expected_checksum", available)
    ∷ ("etag", available)
    ∷ ("last_modified", available)
    ∷ [])

abbrev first : Writer Json
first = opened lib "run" "session" "raw"

unfoldable second : Writer Json × Answer
second = event lib (moment_of "e1") "finalized" final_fields first

abbrev whole : Fields
whole =
    set_field "event_digest" (str "e1") (undigested (moment_of "e1") "finalized" final_fields first)

second-answer : second.1 ≡ recorded whole
unfolding second event digest canonical_json has_float contains any event_schema schema_document
    schema_errors get_field set_field undigested identifier str_lt eq_json eq_number filter
    base_fields text_of has_field report dict_of update opened
second-answer = refl

second-run : Records lib destination first ("e1" ∷ []) (second.0)
unfolding second undigested set_field str_lt get_field is_ordered_dict is_ordered all_above
    has_field relative_text is_contradictory contains base_fields dict update is_empty
    is_unsafe_part any opened
second-run =
    more start (moment_of "e1") "finalized" final_fields whole
      (ap (λ (a : Answer). (second.0, a)) second-answer)
      (record {
        in_order = refl;
        no_common = (refl, (refl, (refl, (refl, (refl, (refl, (refl, (refl, (refl, tt)))))))));
      })
      refl
      (λ e. (
        (refl, (refl, (refl, (refl, tt)))),
        record {
          logical = "a";
          logical_relative = "a";
          path = "a";
          relative = "a";
          size = 3;
          hash = "h";
          has_logical = refl;
          is_safe_logical = refl;
          has_path = refl;
          is_safe = refl;
          in_place = refl;
          has_size = refl;
          has_hash = refl;
        },
      ))

abbrev closing : Closing
closing = record {
  queue_input_digests = arr nil;
  selection_settings = obj end;
  selected_item_count = int (pos 1);
  durable_outcome_counts = obj (dict (("complete", int (pos 1)) ∷ []));
  close_reason = "finished";
}

unfoldable closed : Writer Json × Bool
closed = close lib (moment_of "e2") closing none second.0

closed_lem : (closed.1 ≡ true) × (closed.0.finalized_count ≡ 1)
unfolding closed second event digest canonical_json has_float contains any event_schema
    schema_document schema_errors get_field set_field undigested identifier str_lt eq_json eq_number
    filter base_fields text_of has_field report dict_of close update opened write_summary
    signed_summary summary_schema unsigned_summary
closed_lem = (refl, refl)

closed-IsFitting : IsFitting lib closing closed.0
unfolding is_ordered is_ordered_dict all_above str_lt get_field dict set_field are_counts
closed-IsFitting = record {
  is_named = refl;
  is_session = refl;
  digests = nil;
  has_digests = refl;
  digests_ordered = refl;
  settings = end;
  has_settings = refl;
  settings_ordered = refl;
  selected = 1;
  has_selected = refl;
  counts = dict (("complete", int (pos 1)) ∷ []);
  complete = 1;
  has_counts = refl;
  counts_ordered = refl;
  are_counted = refl;
  has_complete = refl;
  covers = omega (arith, closed_lem.1);
}

close-verify_example : verify lib (left_by lib closed.0 destination) (trusting "raw") ≡ some []
unfolding closed contains
close-verify_example =
    close-verify lib destination "run" "session" "raw"
      (record {
        reads_back = λ v o f. refl;
        hex = λ b. refl;
        digest_form = λ b. refl;
        key_form = refl;
        signature_form = λ b. refl;
        valid = λ b. (refl, refl);
      })
      second-run (moment_of "e2") closing none closed.0 refl closed-IsFitting
      (ap (λ (b : Bool). (closed.0, b)) closed_lem.0)

files-verify : verify lib (left_by lib closed.0 destination) (trusting "raw") ≡ some []
unfolding closed contains
files-verify =
    close-verify lib destination "run" "session" "raw"
      (record {
        reads_back = λ v o f. refl;
        hex = λ b. refl;
        digest_form = λ b. refl;
        key_form = refl;
        signature_form = λ b. refl;
        valid = λ b. (refl, refl);
      })
      second-run (moment_of "e2") closing none closed.0 refl closed-IsFitting
      (ap (λ (b : Bool). (closed.0, b)) closed_lem.0)

abbrev files : Record Json
files = left_by lib closed.0 destination

files_summary :
    dict_of (load_json lib "summary.json" files.summary).0
    ≡ some (signed_summary lib closing closed.0)
unfolding closed second event digest canonical_json has_float contains any event_schema
    schema_document schema_errors get_field set_field undigested identifier str_lt eq_json eq_number
    filter base_fields text_of has_field report dict_of close update opened write_summary
    signed_summary summary_schema unsigned_summary left_by load_json load build no_duplicates
files_summary = refl

verify-IsDelivered_example :
    All (IsDelivered lib destination) (finalized lib (lines_of files.events))
unfolding left_by
verify-IsDelivered_example =
    verify-IsDelivered lib python files (trusting "raw") (signed_summary lib closing closed.0)
      files_summary files-verify

Records-IsSound_example :
    (newest : Option Json) × IsSound lib destination second.0 ("e1" ∷ []) newest
Records-IsSound_example =
    Records-IsSound lib (λ v o f. refl) (λ b. refl) destination "run" "session" "raw" second-run

append : Fields → String → Json → Fields
append end name value' = field name value' end
append (field other v fields) name value' = field other v (append fields name value')

-- The same line, with its first field at its end.
rotate : Json → Json
unfolding append
rotate (obj (field name v fields)) = obj (append fields name v)
rotate null = null
rotate v = v

-- The lines written in another way, and read by another verifier.
abbrev rotated : Record Json
rotated = record files { events = content (map rotate (lines_of files.events)) }

abbrev pub careful : Trust
careful = record { public_key = some (content "raw"); expected_fingerprint = some "print" }

rotated-verify : verify lib rotated careful ≡ some []
unfolding closed second event digest canonical_json has_float contains any event_schema
    schema_document schema_errors get_field set_field undigested identifier str_lt eq_json eq_number
    filter base_fields text_of has_field report dict_of close update opened write_summary
    signed_summary summary_schema unsigned_summary left_by load_json load build no_duplicates verify
    lines_of rotate remove check_lines nothing_read is_subset all names concat event_fields
    is_contradictory
rotated-verify = refl

-- Two lines whose events are known.
known :
    (line line' : Json) (f g : Fields)
    → load lib line ≡ value (obj f)
    → load lib line' ≡ value (obj g)
    → (digest lib (obj (remove "event_digest" f)) ≡ digest lib (obj (remove "event_digest" g))
        → remove "event_digest" f ≡ remove "event_digest" g)
    → Distinguished lib line line'
known line line' f g p q h f' g' p' q' d =
    let a : f ≡ f' = cc (p, p') in
    let b : g ≡ g' = cc (q, q') in
    let e =
      ap (λ x. digest lib (obj (remove "event_digest" x))) a
      ∙ d
      ∙ sym (ap (λ x. digest lib (obj (remove "event_digest" x))) b) in
    sym (ap (remove "event_digest") a) ∙ h e ∙ ap (remove "event_digest") b

abbrev last : Fields
last =
    set_field "event_digest" (str "e2")
      (undigested (moment_of "e2") "run_closed" (closing_fields (moment_of "e2") closing) second.0)

different : {A : Type 0} (s t : String) → str_eq s t ≡ false → some s ≡ some t → A
different s t h e = cc (h, (eq_iff s t).1 (cc (e)))

no_collision : NoCollision lib (lines_of files.events) (lines_of rotated.events)
unfolding closed second event digest canonical_json has_float contains any event_schema
    schema_document schema_errors get_field set_field undigested identifier str_lt eq_json eq_number
    filter base_fields text_of has_field report dict_of close update opened write_summary
    signed_summary summary_schema unsigned_summary left_by load_json load build no_duplicates verify
    lines_of rotate remove check_lines nothing_read is_subset all names concat event_fields
    is_contradictory
no_collision = (
  (
    known (obj whole) (rotate (obj whole)) whole whole refl refl (λ d. refl),
    (
      known (obj whole) (rotate (obj last)) whole last refl refl (λ d. different "e1" "e2" refl d),
      tt,
    ),
  ),
  (
    (
      known (obj last) (rotate (obj whole)) last whole refl refl (λ d. different "e2" "e1" refl d),
      (known (obj last) (rotate (obj last)) last last refl refl (λ d. refl), tt),
    ),
    tt,
  ),
)

verify-fixes_example :
    map (load lib) (lines_of files.events) ≡ map (load lib) (lines_of rotated.events)
verify-fixes_example =
    verify-fixes lib python files rotated (trusting "raw") careful
      (signed_summary lib closing closed.0) files_summary files_summary no_collision files-verify
      rotated-verify
