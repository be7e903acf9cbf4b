-- ===== src/Json/Dict.antt =====
-- Dictionaries of src/provenance.py and src/verify_provenance.py. Nothing there reads the order in
-- which keys were set, but for the order of messages: a dictionary has its keys in the order of `str`.
use mathlib.Core.Path.{subst}
use tod_dl.Json.{Json, null, Fields, end, field, get_field, Items, nil, cons, arr, obj}
use tod_dl.Base.{
  String, Bool, Bool-cases, and_parts, both_hold, inl, inr, true, false, ◌&&◌, ◌||◌, List, [], ◌∷◌,
  ◌≡◌, refl, arith, str_eq, eq_iff, if◌then◌else◌, str_lt, str_lt_trans, str_lt_total,
}

-- key in d
unfoldable pub has_field : String → Fields → Bool
has_field key end = false
has_field key (field name value fields) = str_eq name key || has_field key fields

-- the keys of d
unfoldable pub names : Fields → List String
names end = []
names (field name value fields) = name ∷ names fields

-- d[key] = value
unfoldable pub set_field : String → Json → Fields → Fields
set_field key value end = field key value end
set_field key value (field name old fields) =
    let later = set_field key value fields in
    if str_eq name key
    then field key value fields
    else if str_lt key name
    then field key value (field name old fields)
    else field name old later

-- d.pop(key, None)
unfoldable pub remove : String → Fields → Fields
remove key end = end
remove key (field name value fields) =
    let rest = remove key fields in if str_eq name key then fields else field name value rest

-- d.update(fields)
unfoldable pub update : Fields → Fields → Fields
update dict end = dict
update dict (field name value fields) = update (set_field name value dict) fields

-- { key: value, … }
unfoldable pub dict : List (String × Json) → Fields
dict [] = end
dict (entry ∷ entries) = set_field entry.0 entry.1 (dict entries)

-- every key comes after this one
unfoldable pub all_above : String → Fields → Bool
all_above key end = true
all_above key (field name value fields) = str_lt key name && all_above key fields

-- Whether dictionaries have their keys in order, at every depth.
unfoldable mutual
  pub is_ordered : Json → Bool
  is_ordered (arr items) = are_ordered items
  is_ordered (obj fields) = is_ordered_dict fields
  is_ordered null = true
  is_ordered _ = true

  pub are_ordered : Items → Bool
  are_ordered nil = true
  are_ordered (cons value items) = is_ordered value && are_ordered items

  pub is_ordered_dict : Fields → Bool
  is_ordered_dict end = true
  is_ordered_dict (field name value fields) =
      all_above name fields && is_ordered value && is_ordered_dict fields

pub get_field-set_field :
    (key asked : String) (value : Json) (fields : Fields)
    → get_field asked (set_field key value fields)
      ≡ (if str_eq key asked then value else get_field asked fields)
unfolding set_field get_field
get_field-set_field key asked value end = refl
get_field-set_field key asked value (field name old fields) = ground (
  arith,
  get_field-set_field key asked value fields,
  eq_iff name key,
  eq_iff key asked,
  eq_iff name asked,
)

pub has_field-set_field :
    (key asked : String) (value : Json) (fields : Fields)
    → has_field asked (set_field key value fields) ≡ str_eq key asked || has_field asked fields
unfolding set_field has_field
has_field-set_field key asked value end = refl
has_field-set_field key asked value (field name old fields) = ground (
  arith,
  has_field-set_field key asked value fields,
  eq_iff name key,
  eq_iff key asked,
  eq_iff name asked,
)

pub remove-set_field :
    (key : String) (value : Json) (fields : Fields)
    → has_field key fields ≡ false
    → remove key (set_field key value fields) ≡ fields
unfolding set_field remove has_field
remove-set_field key value end h = ground (arith, eq_iff key key)
remove-set_field key value (field name old fields) h =
    ground (arith, remove-set_field key value fields, eq_iff key key, eq_iff name key)

pub ne_sym : (s t : String) → str_eq s t ≡ false → str_eq t s ≡ false
ne_sym s t h = ground (arith, eq_iff s t, eq_iff t s)

all_above_trans :
    (k key : String) (fields : Fields)
    → str_lt k key ≡ true
    → all_above key fields ≡ true
    → all_above k fields ≡ true
unfolding all_above
all_above_trans k key end h above = refl
all_above_trans k key (field name old fields) h above =
    ground (arith, all_above_trans k key fields h, str_lt_trans k key name h)

all_above-set_field :
    (k key : String) (value : Json) (fields : Fields)
    → str_lt k key ≡ true
    → all_above k fields ≡ true
    → all_above k (set_field key value fields) ≡ true
unfolding set_field all_above
all_above-set_field k key value end h above = ground arith
all_above-set_field k key value (field name old fields) h above =
    ground (arith, all_above-set_field k key value fields h)

-- What an ordered dictionary says of its first entry and of the others.
pub is_ordered_dict-field :
    (name : String) (value : Json) (fields : Fields)
    → is_ordered_dict (field name value fields) ≡ true
    → (all_above name fields ≡ true) × (is_ordered value ≡ true) × (is_ordered_dict fields ≡ true)
unfolding is_ordered_dict
is_ordered_dict-field name value fields h =
    let (front, rest) = and_parts _ _ h in let (above, v) = and_parts _ _ front in (above, v, rest)

field-is_ordered_dict :
    (name : String) (value : Json) (fields : Fields)
    → all_above name fields ≡ true
    → is_ordered value ≡ true
    → is_ordered_dict fields ≡ true
    → is_ordered_dict (field name value fields) ≡ true
unfolding is_ordered_dict
field-is_ordered_dict name value fields a v r = both_hold _ _ (both_hold _ _ a v) r

pub set_field-is_ordered_dict :
    (key : String) (value : Json) (fields : Fields)
    → is_ordered value ≡ true
    → is_ordered_dict fields ≡ true
    → is_ordered_dict (set_field key value fields) ≡ true
unfolding set_field
set_field-is_ordered_dict key value end v h =
    unfold all_above is_ordered_dict in field-is_ordered_dict key value end refl v refl
set_field-is_ordered_dict key value (field name old fields) v h =
    let (above, o, rest) = is_ordered_dict-field name old fields h in
    elim (Bool-cases (str_eq name key)) [
      | inl same ↦ rw same (
          field-is_ordered_dict key value fields
            (subst (λ k. all_above k fields ≡ true) ((eq_iff name key).0 same) above) v rest)
      | inr other ↦ elim (Bool-cases (str_lt key name)) [
        | inl before ↦
            rw (other, before)
              (field-is_ordered_dict key value (field name old fields)
                (unfold all_above in
                  both_hold _ _ before (all_above_trans key name fields before above))
                v h)
        | inr after ↦
            rw (other, after)
              (field-is_ordered_dict name old (set_field key value fields)
                (all_above-set_field name key value fields
                  (str_lt_total key name after (ne_sym name key other)) above)
                o (set_field-is_ordered_dict key value fields v rest))
      ]
    ]

pub update-is_ordered_dict :
    (base fields : Fields)
    → is_ordered_dict base ≡ true
    → is_ordered_dict fields ≡ true
    → is_ordered_dict (update base fields) ≡ true
unfolding update
update-is_ordered_dict base end h k = h
update-is_ordered_dict base (field name value fields) h k =
    let (above, v, rest) = is_ordered_dict-field name value fields k in
    update-is_ordered_dict (set_field name value base) fields
      (set_field-is_ordered_dict name value base v h) rest

-- A key that the update does not name keeps its value.
pub get_field-update :
    (asked : String) (base fields : Fields)
    → has_field asked fields ≡ false
    → get_field asked (update base fields) ≡ get_field asked base
unfolding update has_field
get_field-update asked base end h = refl
get_field-update asked base (field name value fields) h = ground (
  arith,
  get_field-update asked (set_field name value base) fields,
  get_field-set_field name asked value base,
)

pub has_field-update :
    (asked : String) (base fields : Fields)
    → has_field asked (update base fields) ≡ has_field asked base || has_field asked fields
unfolding update has_field
has_field-update asked base end = ground arith
has_field-update asked base (field name value fields) = ground (
  arith,
  has_field-update asked (set_field name value base) fields,
  has_field-set_field name asked value base,
)
