-- ===== src/Provenance/Schema/Errors.antt =====
-- `schema_errors` of src/provenance.py: what a value lacks of a schema.
pub mod Accepts
pub mod Kinds
use tod_dl.Provenance.{Library, same, report}
use tod_dl.Provenance.Schema.{items_in}
use tod_dl.Json.{
  Json, null, Items, nil, cons, Fields, end, field, boolean, int, float, str, arr, obj, get_field,
  get,
}
use tod_dl.Json.Dict.{has_field}
use tod_dl.Base.{
  ℕ, ◌+◌, String, Bool, false, not, ◌||◌, Option, none, some, List, [], ◌∷◌, ◌++◌, str_eq,
  if◌then◌else◌, ℤ, pos, leb_ℤ, ◌<>◌, decimal,
}

-- _has_type
unfoldable pub has_type : Json → String → Bool
has_type null name = str_eq name "null"
has_type (boolean b) name = str_eq name "boolean"
has_type (int n) name = str_eq name "integer"
has_type (float x) name = false
has_type (str s) name = str_eq name "string"
has_type (arr items) name = str_eq name "array"
has_type (obj fields) name = str_eq name "object"

-- a key of the schema, where it is there
pub keyword : String → Json → Option Json
keyword key (obj fields) = if has_field key fields then some (get_field key fields) else none
keyword key null = none
keyword key _ = none

has_named_type : Json → Json → Bool
has_named_type v (str name) = has_type v name
has_named_type v null = false
has_named_type v _ = false

any_type : Json → Items → Bool
any_type v nil = false
any_type v (cons name more) = has_named_type v name || any_type v more

-- any(_has_type(value, name) for name in names)
has_some_type : Json → Json → Bool
unfolding has_type has_named_type any_type
has_some_type v (arr items) = any_type v items
has_some_type v null = false
has_some_type v name = has_named_type v name

member : {B : Type 0} → Library B → Json → Items → Bool
member lib v nil = false
member lib v (cons w more) = same lib v w || member lib v more

at_const : {B : Type 0} → Library B → Json → String → Option Json → List String
at_const lib v place none = []
at_const lib v place (some wanted) =
    report (not (same lib v wanted)) (place <> ": must equal " <> lib.repr wanted)

at_enum : {B : Type 0} → Library B → Json → String → Option Json → List String
unfolding member items_in
at_enum lib v place none = []
at_enum lib v place (some allowed) =
    report (not (member lib v (items_in allowed)))
      (place <> ": " <> lib.repr v <> " is not an allowed value")

has_wrong_type : Json → Option Json → Bool
unfolding has_some_type
has_wrong_type v none = false
has_wrong_type v (some names) = not (has_some_type v names)

int_or : ℤ → Option Json → ℤ
int_or other (some (int n)) = n
int_or other none = other
int_or other (some _) = other

lacks_pattern : {B : Type 0} → Library B → String → Option Json → Bool
lacks_pattern lib s none = false
lacks_pattern lib s (some (str pattern)) = not (lib.search pattern s)
lacks_pattern lib s (some null) = false
lacks_pattern lib s (some _) = false

-- the keywords for texts and integers
own_errors : {B : Type 0} → Library B → Json → Json → String → List String
unfolding lacks_pattern int_or keyword
own_errors lib (str s) schema place =
    report (lacks_pattern lib s (keyword "pattern" schema))
      (place <> ": does not match the required format")
    ++ report (not (leb_ℤ (int_or (pos 0) (keyword "minLength" schema)) (pos (lib.text_length s))))
        (place <> ": is too short")
own_errors lib (int n) schema place =
    report
      (not (leb_ℤ (int_or n (keyword "minimum" schema)) n)
        || not (leb_ℤ n (int_or n (keyword "maximum" schema))))
      (place <> ": is out of range")
own_errors lib null schema place = []
own_errors lib _ schema place = []

-- The checks of one value; `nested` are the errors within it.
value_errors : {B : Type 0} → Library B → Json → Json → String → List String → List String
unfolding own_errors has_wrong_type at_const at_enum keyword
value_errors lib v schema place nested =
    let before =
      at_const lib v place (keyword "const" schema)
      ++ at_enum lib v place (keyword "enum" schema) in
    if has_wrong_type v (keyword "type" schema)
    then before ++ (place <> ": has the wrong type") ∷ []
    else before ++ own_errors lib v schema place ++ nested

missing_fields : {B : Type 0} → Library B → String → Fields → Items → List String
missing_fields lib place fields nil = []
missing_fields lib place fields (cons (str name) more) =
    report (not (has_field name fields))
      (place <> ": missing required field " <> lib.repr (str name))
    ++ missing_fields lib place fields more
missing_fields lib place fields (cons null more) = missing_fields lib place fields more
missing_fields lib place fields (cons _ more) = missing_fields lib place fields more

-- What the schema says of a field: its own schema, that it is unknown, or nothing.
pub data Rule : Type 0 where
  ruled : Json → Rule
  unknown free : Rule

extra_rule : Option Json → Rule
extra_rule (some (boolean false)) = unknown
extra_rule (some (obj fields)) = ruled (obj fields)
extra_rule none = free
extra_rule (some null) = free
extra_rule (some _) = free

pub rule_of : String → Json → Rule
unfolding keyword extra_rule
rule_of name schema = elim (keyword name (get "properties" schema)) [
  | some own ↦ ruled own
  | none ↦ extra_rule (keyword "additionalProperties" schema)
]

-- The errors of one field, given those that its value has of a schema.
field_errors :
    {B : Type 0} → Library B → String → (Json → List String) → Json → String → List String
unfolding rule_of
field_errors lib name errors_of schema place = elim (rule_of name schema) [
  | ruled own ↦ errors_of own
  | unknown ↦ (place <> ": unknown field " <> lib.repr (str name)) ∷ []
  | free ↦ []
]

unfoldable mutual
  unfolding value_errors missing_fields field_errors keyword items_in get

  pub schema_errors : {B : Type 0} → Library B → Json → Json → String → List String
  schema_errors lib (obj fields) schema place = value_errors lib (obj fields) schema place (
      missing_fields lib place fields (items_in (get "required" schema))
      ++ fields_errors lib fields schema place)
  schema_errors lib (arr items) schema place =
      value_errors lib (arr items) schema place
        (items_errors lib items (keyword "items" schema) place 0)
  schema_errors lib null schema place = value_errors lib null schema place []
  schema_errors lib v schema place = value_errors lib v schema place []

  pub fields_errors : {B : Type 0} → Library B → Fields → Json → String → List String
  fields_errors lib end schema place = []
  fields_errors lib (field name v fields) schema place =
      field_errors lib name (λ own. schema_errors lib v own (place <> "." <> name)) schema place
      ++ fields_errors lib fields schema place

  pub items_errors : {B : Type 0} → Library B → Items → Option Json → String → ℕ → List String
  items_errors lib nil schema place n = []
  items_errors lib (cons v items) schema place n =
      elim schema [
        | none ↦ []
        | some own ↦ schema_errors lib v own (place <> "[" <> decimal n <> "]")
      ]
      ++ items_errors lib items schema place (n + 1)
