-- ===== src/Provenance/Whole.antt =====
-- The record that `event` writes: what its fields are, and that it is read back.
use tod_dl.Provenance.{Library, digest, canonical_json}
use tod_dl.Provenance.Schema.{common}
use tod_dl.Provenance.Writer.{Writer, Moment, undigested, base_fields, text_or_null}
use tod_dl.Json.{Json, Fields, end, field, int, str, obj, get_field}
use tod_dl.Json.Equal.{has_float, any_float_in}
use tod_dl.Json.Dict.{
  set_field, dict, remove, has_field, is_ordered, is_ordered_dict, all_above, get_field-set_field,
  get_field-update, has_field-update, remove-set_field, set_field-is_ordered_dict,
  update-is_ordered_dict,
}
use tod_dl.Base.{
  if_elim, or_parts, neither_holds, ◌+◌, String, true, false, some, ◌≡◌, refl, ◌∙◌, inl, inr, arith,
  str_eq, All, Option-cases, pos, str_lt,
}

-- What the code passes to `event`: keys in order, and none that `event` sets itself.
pub record IsProper (fields : Fields) : Type 0 where
  pub in_order : is_ordered_dict fields ≡ true
  pub no_common : All (λ key. has_field key fields ≡ false) common

pub any_float_in-set_field :
    (key s : String) (fields : Fields)
    → any_float_in fields ≡ false
    → any_float_in (set_field key (str s) fields) ≡ false
unfolding any_float_in set_field
any_float_in-set_field key s end h = refl
any_float_in-set_field key s (field name v fields) h =
    let (here, rest) = or_parts _ _ h in
    if_elim (λ fs. any_float_in fs ≡ false) (str_eq name key) _ _ (λ _. rest)
      (λ _.
        if_elim (λ fs. any_float_in fs ≡ false) (str_lt key name) _ _ (λ _. h)
          (λ _. neither_holds _ _ here (any_float_in-set_field key s fields rest)))

digest-float :
    {B : Type 0} (lib : Library B) (v : Json) (d : String)
    → digest lib v ≡ some d
    → has_float v ≡ false
unfolding digest canonical_json
digest-float lib v d h = ground arith

module _ {B : Type 0} (moment : Moment B) (kind : String) (fields : Fields) (w : Writer B)
    (proper : IsProper fields) where
  base : Fields
  base = base_fields moment kind (w.sequence + 1) w

  base-is_ordered : is_ordered_dict base ≡ true
  unfolding base base_fields dict set_field is_ordered_dict all_above str_lt text_or_null
  base-is_ordered = elim (Option-cases w.previous_digest) [
    | inl e ↦ rw e refl
    | inr (d, e) ↦ rw e refl
  ]

  undigested-is_ordered : is_ordered_dict (undigested moment kind fields w) ≡ true
  unfolding undigested base
  undigested-is_ordered = update-is_ordered_dict _ fields base-is_ordered proper.in_order

  undigested-no_digest : has_field "event_digest" (undigested moment kind fields w) ≡ false
  unfolding undigested base_fields dict set_field has_field str_lt
  undigested-no_digest =
      has_field-update "event_digest" (base_fields moment kind (w.sequence + 1) w) fields
      ∙ proper.no_common.1.1.1.1.1.1.1.1.0

  -- A field that `event` sets keeps its value.
  undigested-get :
      (key : String)
      → has_field key fields ≡ false
      → get_field key (undigested moment kind fields w) ≡ get_field key base
  unfolding undigested base
  undigested-get key h = get_field-update key _ fields h

-- What the verifier reads in a record.
pub record IsWhole {B : Type 0} (lib : Library B) (moment : Moment B) (kind d : String)
    (w : Writer B) (body whole : Fields) : Type 0 where
  pub version : get_field "schema_version" whole ≡ int (pos 1)
  pub event_id : get_field "event_id" whole ≡ str moment.event_id
  pub sequence : get_field "sequence" whole ≡ int (pos (w.sequence + 1))
  pub event_type : get_field "event_type" whole ≡ str kind
  pub run_id : get_field "run_id" whole ≡ str w.run_id
  pub session_id : get_field "session_id" whole ≡ str w.session_id
  pub previous : get_field "previous_digest" whole ≡ text_or_null w.previous_digest
  pub event_digest : get_field "event_digest" whole ≡ str d
  pub rest : remove "event_digest" whole ≡ body
  pub in_order : is_ordered (obj whole) ≡ true
  pub no_float : has_float (obj whole) ≡ false

module _ {B : Type 0} (lib : Library B) (moment : Moment B) (kind d : String) (fields : Fields)
    (w : Writer B) (proper : IsProper fields)
    (digested : digest lib (obj (undigested moment kind fields w)) ≡ some d) where
  body : Fields
  body = undigested moment kind fields w

  other :
      (key : String)
      → str_eq "event_digest" key ≡ false
      → has_field key fields ≡ false
      → get_field key (set_field "event_digest" (str d) body)
        ≡ get_field key (base_fields moment kind (w.sequence + 1) w)
  unfolding body base
  other key e h =
      get_field-set_field "event_digest" key (str d) (undigested moment kind fields w)
      ∙ (rw e (undigested-get moment kind fields w proper key h))

  pub event-IsWhole :
      IsWhole lib moment kind d w
        (undigested moment kind fields w)
        (set_field "event_digest" (str d) (undigested moment kind fields w))
  unfolding base_fields dict set_field get_field str_lt is_ordered has_float body
  event-IsWhole = record {
    version = other "schema_version" refl proper.no_common.0;
    event_id = other "event_id" refl proper.no_common.1.0;
    sequence = other "sequence" refl proper.no_common.1.1.0;
    event_type = other "event_type" refl proper.no_common.1.1.1.0;
    run_id = other "run_id" refl proper.no_common.1.1.1.1.0;
    session_id = other "session_id" refl proper.no_common.1.1.1.1.1.0;
    previous = other "previous_digest" refl proper.no_common.1.1.1.1.1.1.1.0;
    event_digest =
        get_field-set_field "event_digest" "event_digest" (str d) (undigested moment kind fields w);
    rest =
        remove-set_field "event_digest" (str d) _
          (undigested-no_digest moment kind fields w proper);
    in_order =
        set_field-is_ordered_dict "event_digest" (str d) _ refl
          (undigested-is_ordered moment kind fields w proper);
    no_float =
        any_float_in-set_field "event_digest" d (undigested moment kind fields w)
          (digest-float lib _ d digested);
  }
