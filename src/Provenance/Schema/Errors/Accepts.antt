-- ===== src/Provenance/Schema/Errors/Accepts.antt =====
-- What a record that fits its schema has: the fields of its type, and no others.
use mathlib.Core.Path.{subst}
use tod_dl.Provenance.{Library, report, is_subset}
use tod_dl.Provenance.Lines.{nil_parts, report-nil, not-false, snoc-ne-nil}
use tod_dl.Provenance.Events.{same_names}
use tod_dl.Provenance.Schema.{items_in}
use tod_dl.Provenance.Schema.Errors.{
  schema_errors, fields_errors, value_errors, missing_fields, keyword, rule_of, extra_rule, unknown,
  field_errors, has_wrong_type,
}
use tod_dl.Json.{Json, Fields, end, field, arr, obj, boolean, get, items_of}
use tod_dl.Json.Dict.{names, has_field}
use tod_dl.Base.{
  ◌<>◌, String, true, false, not, none, some, List, [], ◌∷◌, ◌++◌, ◌≡◌, refl, sym, ap, ◌∙◌, inl,
  inr, arith, str_eq, eq_iff, all, contains, and_parts, both_hold, Bool-cases,
}

missing_fields-nil :
    {B : Type 0} (lib : Library B) (place : String) (fields : Fields) (required : List String)
    → missing_fields lib place fields (items_of required) ≡ []
    → all (λ name. has_field name fields) required ≡ true
unfolding missing_fields items_of all
missing_fields-nil lib place fields [] h = refl
missing_fields-nil lib place fields (name ∷ required) h =
    let (here, rest) =
      nil_parts (report (not (has_field name fields)) _)
        (missing_fields lib place fields (items_of required)) h in
    both_hold _ _ (not-false _ (report-nil _ _ here))
      (missing_fields-nil lib place fields required rest)

-- The schema of a type: what it requires, and what it allows.
pub record IsClosed (schema : Json) (wanted : List String) : Type 0 where
  pub properties : Fields
  pub closed : keyword "additionalProperties" schema ≡ some (boolean false)
  pub required : get "required" schema ≡ arr (items_of wanted)
  pub has_properties : get "properties" schema ≡ obj properties
  pub allowed : is_subset (names properties) wanted ≡ true

contains-names :
    (name : String) (fields : Fields) → has_field name fields ≡ contains name (names fields)
unfolding has_field names contains
contains-names name end = refl
contains-names name (field other v fields) =
    ground (arith, contains-names name fields, eq_iff other name, eq_iff name other)

contains-subset :
    (x : String) (xs ys : List String)
    → contains x xs ≡ true
    → is_subset xs ys ≡ true
    → contains x ys ≡ true
unfolding is_subset contains all
contains-subset x [] ys h k = cc
contains-subset x (y ∷ xs) ys h k =
    let (here, rest) = and_parts _ _ k in
    elim (Bool-cases (str_eq x y)) [
      | inl same ↦ subst (λ z. contains z ys ≡ true) (sym ((eq_iff x y).0 same)) here
      | inr other ↦ contains-subset x xs ys (rw other at h) rest
    ]

is_subset_trans :
    (xs ys zs : List String)
    → is_subset xs ys ≡ true
    → is_subset ys zs ≡ true
    → is_subset xs zs ≡ true
unfolding is_subset all
is_subset_trans [] ys zs h k = refl
is_subset_trans (x ∷ xs) ys zs h k =
    let (here, rest) = and_parts _ _ h in
    both_hold _ _ (contains-subset x ys zs here k) (is_subset_trans xs ys zs rest k)

nested-nil :
    {B : Type 0} (lib : Library B) (v schema : Json) (place : String) (nested : List String)
    → value_errors lib v schema place nested ≡ []
    → nested ≡ []
unfolding value_errors
nested-nil lib v schema place nested h =
    elim (Bool-cases (has_wrong_type v (keyword "type" schema))) [
      | inl wrong ↦ absurd (snoc-ne-nil _ _ (rw wrong at h))
      | inr right ↦ (nil_parts _ nested (rw right at h)).1
    ]

module _ {B : Type 0} (lib : Library B) (schema : Json) (wanted : List String)
    (s : IsClosed schema wanted) where
  -- A field of which the schema says nothing is an error.
  rule_of-unknown :
      (name : String) → has_field name s.properties ≡ false → rule_of name schema ≡ unknown
  unfolding rule_of keyword extra_rule
  rule_of-unknown name h =
      let absent : keyword name (obj s.properties) ≡ none = rw h in
      cc (absent, s.has_properties, s.closed)

  known :
      (place name : String) (errors_of : Json → List String)
      → field_errors lib name errors_of schema place ≡ []
      → contains name (names s.properties) ≡ true
  unfolding field_errors
  known place name errors_of h = elim (Bool-cases (has_field name s.properties)) [
    | inl there ↦ sym (contains-names name s.properties) ∙ there
    | inr absent ↦ cc (rule_of-unknown name absent, h)
  ]

  fields_errors-nil :
      (place : String) (fields : Fields)
      → fields_errors lib fields schema place ≡ []
      → is_subset (names fields) (names s.properties) ≡ true
  unfolding fields_errors is_subset names all
  fields_errors-nil place end h = refl
  fields_errors-nil place (field name v fields) h =
      let (here, rest) =
        nil_parts
          (field_errors lib name (λ own. schema_errors lib v own (place <> "." <> name)) schema
            place)
          (fields_errors lib fields schema place) h in
      both_hold _ _ (known place name _ here) (fields_errors-nil place fields rest)

  -- The same errors as the list of required names gives.
  required_names :
      (fields : Fields) (required : List String)
      → all (λ name. has_field name fields) required ≡ true
      → is_subset required (names fields) ≡ true
  unfolding is_subset all
  required_names fields [] h = refl
  required_names fields (name ∷ required) h =
      let (here, rest) = and_parts _ _ h in
      both_hold _ _ (sym (contains-names name fields) ∙ here) (required_names fields required rest)

  pub schema_errors-obj :
      (place : String) (fields : Fields)
      → schema_errors lib (obj fields) schema place ≡ []
      → same_names (names fields) wanted ≡ true
  unfolding schema_errors same_names items_in
  schema_errors-obj place fields h =
      let missing = missing_fields lib place fields (items_in (get "required" schema)) in
      let (here, rest) = nil_parts missing (fields_errors lib fields schema place) (
        nested-nil lib (obj fields) schema place (missing ++ fields_errors lib fields schema place)
          h) in
      both_hold _ _
        (is_subset_trans (names fields) (names s.properties) wanted
          (fields_errors-nil place fields rest) s.allowed)
        (required_names fields wanted (
          missing_fields-nil lib place fields wanted
            (sym (ap (λ r. missing_fields lib place fields (items_in r)) s.required) ∙ here)))
