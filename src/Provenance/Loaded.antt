-- ===== src/Provenance/Loaded.antt =====
-- Dictionaries that `load` gives have their keys in order, and one in order is read back as it is.
use mathlib.Core.Path.{subst}
use tod_dl.Provenance.{Library, Parsed, value, invalid}
use tod_dl.Provenance.Events.{load, build, build_items, build_pairs, no_duplicates, and_then}
use tod_dl.Json.{
  Json, null, Items, nil, cons, Fields, end, field, int, str, arr, obj, boolean, float, get_field,
}
use tod_dl.Json.Dict.{
  remove, has_field, is_ordered, is_ordered_dict, are_ordered, all_above, set_field,
  set_field-is_ordered_dict, is_ordered_dict-field,
}
use tod_dl.Base.{
  String, Bool, true, false, ◌&&◌, ◌≡◌, refl, sym, ap, ◌∙◌, inl, inr, arith, str_eq, eq_iff,
  and_parts, both_hold, Bool-cases, if_elim, str_lt, str_lt_asymm,
}

-- A dictionary in order is its other entries and the one of a key that it has.
all_above-has :
    (name key : String) (fields : Fields)
    → all_above name fields ≡ true
    → has_field key fields ≡ true
    → str_lt name key ≡ true
unfolding all_above has_field
all_above-has name key end above h = cc
all_above-has name key (field other v fields) above h =
    ground (arith, all_above-has name key fields, eq_iff other key)

set_field-front :
    (key : String) (v : Json) (fields : Fields)
    → all_above key fields ≡ true
    → set_field key v fields ≡ field key v fields
unfolding set_field all_above
set_field-front key v end h = refl
set_field-front key v (field name w fields) h = ground (arith, str_lt_asymm key name)

set_field-later :
    (key name : String) (v x : Json) (fields : Fields)
    → str_eq name key ≡ false
    → str_lt key name ≡ false
    → set_field key x (field name v fields) ≡ field name v (set_field key x fields)
unfolding set_field
set_field-later key name v x fields other not_first = rw (other, not_first)

pub set_field-remove :
    (key : String) (fields : Fields)
    → is_ordered_dict fields ≡ true
    → has_field key fields ≡ true
    → set_field key (get_field key fields) (remove key fields) ≡ fields
unfolding remove get_field has_field
set_field-remove key end o h = cc
set_field-remove key (field name v fields) o h =
    let (above, w, rest) = is_ordered_dict-field name v fields o in
    elim (Bool-cases (str_eq name key)) [
      | inl same ↦ rw same (
          set_field-front key v fields
            (subst (λ k. all_above k fields ≡ true) ((eq_iff name key).0 same) above)
          ∙ ap (λ k. field k v fields) (sym ((eq_iff name key).0 same)))
      | inr other ↦
          let later : has_field key fields ≡ true = rw other at h in
          let before = all_above-has name key fields above later in
          let (not_first, _) = str_lt_asymm name key before in
          rw other (
            set_field-later key name v (get_field key fields) (remove key fields) other not_first
            ∙ ap (λ fs. field name v fs) (set_field-remove key fields rest later))
    ]

-- Values that a parse gives.
Holds : {A : Type 0} → (A → Type 0) → Parsed A → Type 0
Holds P (value a) = P a
Holds P (invalid message) = Unit

and_then-Holds :
    {A C : Type 0} (P : A → Type 0) (Q : C → Type 0) (p : Parsed A) (rest : A → Parsed C)
    → Holds P p
    → ((a : A) → P a → Holds Q (rest a))
    → Holds Q (and_then p rest)
unfolding Holds
and_then-Holds P Q (value a) rest h k = k a h
and_then-Holds P Q (invalid message) rest h k = tt

Holds-Unit : {A : Type 0} (p : Parsed A) → Holds (λ _. Unit {0}) p
unfolding Holds
Holds-Unit (value a) = tt
Holds-Unit (invalid message) = tt

abbrev IsOrdered : Json → Type 0
IsOrdered v = is_ordered v ≡ true

abbrev IsOrderedDict : Fields → Type 0
IsOrderedDict fields = is_ordered_dict fields ≡ true

-- every value of the dictionary is in order
all_ordered : Fields → Bool
all_ordered end = true
all_ordered (field name v fields) = is_ordered v && all_ordered fields

module _ {B : Type 0} (lib : Library B) where
  no_duplicates-IsOrdered :
      (result pairs : Fields)
      → is_ordered_dict result ≡ true
      → all_ordered pairs ≡ true
      → Holds IsOrderedDict (no_duplicates lib result pairs)
  unfolding no_duplicates all_ordered Holds
  no_duplicates-IsOrdered result end h k = h
  no_duplicates-IsOrdered result (field key v pairs) h k =
      let (first, rest) = and_parts _ _ k in
      if_elim (Holds IsOrderedDict) (has_field key result) _ _ (λ _. tt)
        (λ _.
          no_duplicates-IsOrdered (set_field key v result) pairs
            (set_field-is_ordered_dict key v result first h) rest)

  mutual
    unfolding build Holds is_ordered all_ordered

    build_value-IsOrdered : (v : Json) → Holds IsOrdered (build lib v)
    build_value-IsOrdered null = refl
    build_value-IsOrdered (boolean b) = refl
    build_value-IsOrdered (int n) = refl
    build_value-IsOrdered (float x) = refl
    build_value-IsOrdered (str s) = refl
    build_value-IsOrdered (arr items) =
        and_then-Holds (λ xs. are_ordered xs ≡ true) IsOrdered _ _ (build_items-IsOrdered items)
          (λ xs h. h)
    build_value-IsOrdered (obj pairs) =
        and_then-Holds (λ fs. all_ordered fs ≡ true) IsOrdered _ _ (build_pairs-IsOrdered pairs)
          (λ fs h.
            and_then-Holds IsOrderedDict IsOrdered _ _ (no_duplicates-IsOrdered end fs refl h)
              (λ gs k. k))

    build_items-IsOrdered :
        (items : Items) → Holds (λ xs. are_ordered xs ≡ true) (build_items lib items)
    build_items-IsOrdered nil = refl
    build_items-IsOrdered (cons v items) =
        and_then-Holds IsOrdered (λ xs. are_ordered xs ≡ true) _ _ (build_value-IsOrdered v)
          (λ w h.
            and_then-Holds (λ xs. are_ordered xs ≡ true) (λ xs. are_ordered xs ≡ true) _ _
              (build_items-IsOrdered items) (λ ws k. both_hold _ _ h k))

    build_pairs-IsOrdered :
        (pairs : Fields) → Holds (λ fs. all_ordered fs ≡ true) (build_pairs lib pairs)
    build_pairs-IsOrdered end = refl
    build_pairs-IsOrdered (field key v pairs) =
        and_then-Holds IsOrdered (λ fs. all_ordered fs ≡ true) _ _ (build_value-IsOrdered v)
          (λ w h.
            and_then-Holds (λ fs. all_ordered fs ≡ true) (λ fs. all_ordered fs ≡ true) _ _
              (build_pairs-IsOrdered pairs) (λ rest k. both_hold _ _ h k))

  -- What a line is loaded as has its keys in order.
  pub load-IsOrdered : (line : B) (v : Json) → load lib line ≡ value v → is_ordered v ≡ true
  unfolding load
  load-IsOrdered line v h =
      let built =
        and_then-Holds (λ _. Unit {0}) IsOrdered (lib.parse line) (build lib)
          (Holds-Unit (lib.parse line)) (λ w _. build_value-IsOrdered w) in
      unfold Holds in subst (Holds IsOrdered) h built
