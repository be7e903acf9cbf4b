-- ===== src/Provenance/Schema/Errors/Kinds.antt =====
-- The schema of each type of event.
use tod_dl.Provenance.Schema.Errors.Accepts.{IsClosed, schema_errors-obj}
use tod_dl.Base.{str_lt}
use tod_dl.Json.{text_of}
use mathlib.Core.Path.{subst}
use tod_dl.Provenance.{Library, is_subset}
use tod_dl.Provenance.Events.{same_names, event_fields}
use tod_dl.Provenance.Schema.Rules.{
  event_field_rules, run_started_rules, attempt_finished_rules, finalized_rules,
  candidate_created_rules, run_closed_rules, local_failure_rules,
}
use tod_dl.Provenance.Schema.{
  event_properties, branch, event_schema, event_types, schema_document, common,
}
use tod_dl.Provenance.Schema.Errors.{schema_errors, keyword}
use tod_dl.Json.{Json, Fields, obj, get, items_of, get_field}
use tod_dl.Json.Dict.{names, has_field}
use tod_dl.Base.{
  String, true, some, [], ◌++◌, ◌≡◌, refl, sym, ap, ◌∙◌, inl, inr, str_eq, eq_iff, all, contains,
  Bool-cases,
}

-- The schema of a type is closed, and has the fields that the verifier expects.
abbrev ClosedKind : String → Type 0
ClosedKind kind =
    (schema : Json) × (event_schema schema_document kind ≡ some schema)
    × IsClosed schema (common ++ event_fields kind)

run_started-closed : ClosedKind "run_started"
unfolding schema_document event_schema event_fields keyword is_subset contains all names get
    get_field items_of has_field event_field_rules str_lt text_of
run_started-closed = (
  branch "run_started" run_started_rules,
  refl,
  record {
    properties = event_properties "run_started" run_started_rules;
    closed = refl;
    required = refl;
    has_properties = refl;
    allowed = refl;
  },
)

attempt_finished-closed : ClosedKind "attempt_finished"
unfolding schema_document event_schema event_fields keyword is_subset contains all names get
    get_field items_of has_field event_field_rules str_lt text_of
attempt_finished-closed = (
  branch "attempt_finished" attempt_finished_rules,
  refl,
  record {
    properties = event_properties "attempt_finished" attempt_finished_rules;
    closed = refl;
    required = refl;
    has_properties = refl;
    allowed = refl;
  },
)

finalized-closed : ClosedKind "finalized"
unfolding schema_document event_schema event_fields keyword is_subset contains all names get
    get_field items_of has_field event_field_rules str_lt text_of
finalized-closed = (
  branch "finalized" finalized_rules,
  refl,
  record {
    properties = event_properties "finalized" finalized_rules;
    closed = refl;
    required = refl;
    has_properties = refl;
    allowed = refl;
  },
)

candidate_created-closed : ClosedKind "candidate_created"
unfolding schema_document event_schema event_fields keyword is_subset contains all names get
    get_field items_of has_field event_field_rules str_lt text_of
candidate_created-closed = (
  branch "candidate_created" candidate_created_rules,
  refl,
  record {
    properties = event_properties "candidate_created" candidate_created_rules;
    closed = refl;
    required = refl;
    has_properties = refl;
    allowed = refl;
  },
)

run_closed-closed : ClosedKind "run_closed"
unfolding schema_document event_schema event_fields keyword is_subset contains all names get
    get_field items_of has_field event_field_rules str_lt text_of
run_closed-closed = (
  branch "run_closed" run_closed_rules,
  refl,
  record {
    properties = event_properties "run_closed" run_closed_rules;
    closed = refl;
    required = refl;
    has_properties = refl;
    allowed = refl;
  },
)

local_failure-closed : ClosedKind "local_failure"
unfolding schema_document event_schema event_fields keyword is_subset contains all names get
    get_field items_of has_field event_field_rules str_lt text_of
local_failure-closed = (
  branch "local_failure" local_failure_rules,
  refl,
  record {
    properties = event_properties "local_failure" local_failure_rules;
    closed = refl;
    required = refl;
    has_properties = refl;
    allowed = refl;
  },
)

kind_closed : (kind : String) → contains kind event_types ≡ true → ClosedKind kind
unfolding contains
kind_closed kind h = elim (Bool-cases (str_eq kind "run_started")) [
  | inl e ↦ subst ClosedKind (sym ((eq_iff kind "run_started").0 e)) run_started-closed
  | inr not_run_started ↦ elim (Bool-cases (str_eq kind "attempt_finished")) [
    | inl e ↦ subst ClosedKind (sym ((eq_iff kind "attempt_finished").0 e)) attempt_finished-closed
    | inr not_attempt_finished ↦ elim (Bool-cases (str_eq kind "finalized")) [
      | inl e ↦ subst ClosedKind (sym ((eq_iff kind "finalized").0 e)) finalized-closed
      | inr not_finalized ↦ elim (Bool-cases (str_eq kind "candidate_created")) [
        | inl e ↦
            subst ClosedKind (sym ((eq_iff kind "candidate_created").0 e)) candidate_created-closed
        | inr not_candidate_created ↦ elim (Bool-cases (str_eq kind "run_closed")) [
          | inl e ↦ subst ClosedKind (sym ((eq_iff kind "run_closed").0 e)) run_closed-closed
          | inr not_run_closed ↦ elim (Bool-cases (str_eq kind "local_failure")) [
            | inl e ↦
                subst ClosedKind (sym ((eq_iff kind "local_failure").0 e)) local_failure-closed
            | inr not_local_failure ↦ cc (
              not_run_started, not_attempt_finished, not_finalized, not_candidate_created,
              not_run_closed, not_local_failure, h,
            )
          ]
        ]
      ]
    ]
  ]
]

-- A record of a known type that fits its schema has the fields that the verifier expects.
pub schema_errors-names :
    {B : Type 0} (lib : Library B) (kind place : String) (schema : Json) (fields : Fields)
    → contains kind event_types ≡ true
    → event_schema schema_document kind ≡ some schema
    → schema_errors lib (obj fields) schema place ≡ []
    → same_names (names fields) (common ++ event_fields kind) ≡ true
schema_errors-names lib kind place schema fields known found h =
    let (s, e, closed) = kind_closed kind known in
    schema_errors-obj lib s (common ++ event_fields kind) closed place fields
      (ap (λ (x : Json). schema_errors lib (obj fields) x place) (cc (e, found)) ∙ h)
