-- ===== src/Provenance/Written.antt =====
-- A value whose dictionaries have their keys in order is read back as it was written.
use tod_dl.Provenance.{Library, value}
use tod_dl.Provenance.Events.{load, build, build_items, build_pairs, no_duplicates}
use tod_dl.Json.{
  Json, null, Items, nil, cons, Fields, end, field, int, str, arr, obj, boolean, float,
}
use tod_dl.Json.Equal.{has_float}
use tod_dl.Json.Dict.{
  ne_sym, has_field, is_ordered, is_ordered_dict, are_ordered, all_above, set_field,
  is_ordered_dict-field,
}
use tod_dl.Base.{
  String, Bool, true, false, ◌&&◌, ◌≡◌, refl, sym, ap, ◌∙◌, and_parts, both_hold, str_lt_asymm,
}

app : Fields → Fields → Fields
app end gs = gs
app (field name v fs) gs = field name v (app fs gs)

-- every key of the one comes before every key of the other
is_before : Fields → Fields → Bool
is_before end gs = true
is_before (field name v fs) gs = all_above name gs && is_before fs gs

app-nil : (fs : Fields) → app fs end ≡ fs
unfolding app
app-nil end = refl
app-nil (field name v fs) = ap (λ r. field name v r) (app-nil fs)

app_assoc : (fs gs hs : Fields) → app (app fs gs) hs ≡ app fs (app gs hs)
unfolding app
app_assoc end gs hs = refl
app_assoc (field name v fs) gs hs = ap (λ r. field name v r) (app_assoc fs gs hs)

-- A key that comes after all others is new, and is set at the end.
set_field-last :
    (key : String) (v : Json) (fs rest : Fields)
    → is_before fs (field key v rest) ≡ true
    → (has_field key fs ≡ false) × (set_field key v fs ≡ app fs (field key v end))
unfolding is_before all_above has_field set_field app
set_field-last key v end rest h = (refl, refl)
set_field-last key v (field name w fs) rest h =
    let (first, later) = and_parts _ _ h in
    let (not_before, other) = str_lt_asymm name key (and_parts _ _ first).0 in
    let (absent, set) = set_field-last key v fs rest later in
    (
      rw (ne_sym key name other) absent,
      rw (ne_sym key name other, not_before) (ap (λ r. field name w r) set),
    )

is_before-step :
    (fs : Fields) (key : String) (v : Json) (rest : Fields)
    → is_before fs (field key v rest) ≡ true
    → all_above key rest ≡ true
    → is_before (app fs (field key v end)) rest ≡ true
unfolding is_before all_above app
is_before-step end key v rest h k = both_hold _ _ k refl
is_before-step (field name w fs) key v rest h k =
    let (first, later) = and_parts _ _ h in
    both_hold _ _ (and_parts _ _ first).1 (is_before-step fs key v rest later k)

module _ {B : Type 0} (lib : Library B) where
  no_duplicates-value :
      (fs gs : Fields)
      → is_before fs gs ≡ true
      → is_ordered_dict gs ≡ true
      → no_duplicates lib fs gs ≡ value (app fs gs)
  unfolding no_duplicates app
  no_duplicates-value fs end h k = ap (λ (r : Fields). value r) (sym (app-nil fs))
  no_duplicates-value fs (field key v gs) h k =
      let (above, w, rest) = is_ordered_dict-field key v gs k in
      let (absent, set) = set_field-last key v fs gs h in
      rw (absent, set)
        (no_duplicates-value (app fs (field key v end)) gs (is_before-step fs key v gs h above) rest
          ∙ ap (λ (r : Fields). value r) (app_assoc fs (field key v end) gs))

  mutual
    unfolding build is_ordered is_before app

    build_value : (v : Json) → is_ordered v ≡ true → build lib v ≡ value v
    build_value null h = refl
    build_value (boolean b) h = refl
    build_value (int n) h = refl
    build_value (float x) h = refl
    build_value (str s) h = refl
    build_value (arr items) h = rw (build_all items h)
    build_value (obj fields) h = rw (build_fields fields h, no_duplicates-value end fields refl h)

    build_all : (items : Items) → are_ordered items ≡ true → build_items lib items ≡ value items
    build_all nil h = refl
    build_all (cons v items) h =
        let (first, rest) = and_parts _ _ h in rw (build_value v first, build_all items rest)

    build_fields :
        (fields : Fields) → is_ordered_dict fields ≡ true → build_pairs lib fields ≡ value fields
    build_fields end h = refl
    build_fields (field key v fields) h =
        let (front, rest) = and_parts _ _ h in
        let (above, first) = and_parts _ _ front in
        rw (build_value v first, build_fields fields rest)

-- `json.loads` reads the bytes of `json.dumps` back, where no float stands in the value and the keys
-- are in order.
abbrev pub ReadsBack : {B : Type 0} → Library B → Type 0
ReadsBack lib =
    (v : Json) → is_ordered v ≡ true → has_float v ≡ false → lib.parse (lib.dumps v) ≡ value v

pub load-dumps :
    {B : Type 0} (lib : Library B)
    → ReadsBack lib
    → (v : Json) → is_ordered v ≡ true
    → has_float v ≡ false
    → load lib (lib.dumps v) ≡ value v
unfolding load
load-dumps lib reads v o f = rw (reads v o f) (build_value lib v o)
