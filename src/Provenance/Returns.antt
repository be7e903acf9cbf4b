-- ===== src/Provenance/Returns.antt =====
-- The lines that the loop of `verify` (src/verify_provenance.py) reads without an exception.
pub mod Summary
use tod_dl.Provenance.Verifier.{Final}
use tod_dl.Provenance.Verifier.{event_errors, final_errors}
use tod_dl.Provenance.Verifier.{safe_path}
use tod_dl.Provenance.Events.{
  is_wrong_digest, kind_errors, is_hashable, check_line, Reading, check_event, check_fields,
  check_lines, note_event, event_faults, is_kind,
}
use tod_dl.Provenance.Events.{load}
use tod_dl.Json.Dict.{has_field, remove}
use tod_dl.Json.Equal.{has_float, any_float_in}
use tod_dl.Provenance.{Library, digest, canonical_json, invalid, value, same}
use tod_dl.Json.{end, null, Fields, Json, obj, text_of, field, get_field, str, arr}
use mathlib.Core.Path.{subst}
use mathlib.Core.List.{append-nil}
use tod_dl.Provenance.Lines.{Parsed-cases}
use tod_dl.Base.{
  neither_holds, is_some, ℕ, ◌+◌, ◌-◌, ◌<◌, String, Bool, true, false, not, ◌&&◌, ◌||◌, Option,
  none, some, List, [], ◌∷◌, ◌++◌, ◌≡◌, refl, sym, ap, ◌∙◌, inl, inr, str_eq, All, and_parts,
  or_parts, Bool-cases, Option-cases, if_elim, ◌<>◌, decimal,
}

-- A value that is absent, or a text.
unfoldable pub is_text_or_absent : String → Fields → Bool
is_text_or_absent name fields =
    not (has_field name fields) || is_some (text_of (get_field name fields))

-- The paths of a finalized event are texts, where they are there.
unfoldable pub has_text_paths : Fields → Bool
unfolding is_text_or_absent
has_text_paths fields =
    is_text_or_absent "logical_relative_path" fields
    && is_text_or_absent "final_relative_path" fields

-- An event without floats, whose identifier and type can be looked up in a set.
pub record IsReadable (fields : Fields) : Type 0 where
  pub has_id : is_hashable (get_field "event_id" fields) ≡ true
  pub has_kind : is_hashable (get_field "event_type" fields) ≡ true
  pub no_float : any_float_in fields ≡ false
  pub paths : has_text_paths fields ≡ true

-- A line that holds such an event, or no dictionary, or does not parse.
abbrev pub IsReadableLine : {B : Type 0} → Library B → B → Type 0
IsReadableLine lib line = (fields : Fields) → load lib line ≡ value (obj fields) → IsReadable fields

pub remove-has_float :
    (key : String) (fields : Fields)
    → any_float_in fields ≡ false
    → any_float_in (remove key fields) ≡ false
unfolding has_float remove
remove-has_float key end h = refl
remove-has_float key (field name v fields) h =
    let (here, rest) = or_parts (has_float v) (any_float_in fields) h in
    if_elim (λ f. any_float_in f ≡ false) (str_eq name key) _ _ (λ _. rest)
      (λ _. neither_holds _ _ here (remove-has_float key fields rest))

-- A result that is there.
pub some-of : {A : Type 0} (o : Option A) → is_some o ≡ true → (x : A) × (o ≡ some x)
some-of none h = cc
some-of (some x) h = (x, refl)

All-snoc :
    (P : Fields → Type 0) (xs : List Fields) (x : Fields) → All P xs → P x → All P (xs ++ x ∷ [])
All-snoc P [] x h k = (k, tt)
All-snoc P (y ∷ xs) x h k = (h.0, All-snoc P xs x h.1 k)

module _ {B : Type 0} (lib : Library B) where
  kind_errors-returns :
      (fields : Fields) (kind : Json)
      → is_hashable kind ≡ true
      → is_some (kind_errors lib fields kind) ≡ true
  unfolding kind_errors is_hashable
  kind_errors-returns fields (str kind) h = refl
  kind_errors-returns fields (arr items) h = cc
  kind_errors-returns fields (obj more) h = cc
  kind_errors-returns fields null h = refl
  kind_errors-returns fields v h = refl

  is_wrong_digest-returns :
      (fields : Fields) (v : Json)
      → any_float_in fields ≡ false
      → is_some (is_wrong_digest lib fields v) ≡ true
  unfolding is_wrong_digest has_float digest canonical_json
  is_wrong_digest-returns fields (str actual) h =
      let fine = remove-has_float "event_digest" fields h in
      elim (Bool-cases (lib.is_hex_digest actual)) [
        | inl hex ↦ cc (fine, hex)
        | inr other ↦ cc (other)
      ]
  is_wrong_digest-returns fields null h = refl
  is_wrong_digest-returns fields v h = refl

  safe_path-returns :
      (name : String) (fields : Fields)
      → is_text_or_absent name fields ≡ true
      → is_some (safe_path lib name fields) ≡ true
  unfolding safe_path is_text_or_absent
  safe_path-returns name fields h = elim (Bool-cases (has_field name fields)) [
    | inr absent ↦ cc (absent)
    | inl there ↦ elim (Option-cases (text_of (get_field name fields))) [
      | inl e ↦ cc (there, e, h)
      | inr (path, e) ↦ cc (there, e)
    ]
  ]

  event_errors-returns :
      (destination : String → Final) (fields : Fields)
      → has_text_paths fields ≡ true
      → is_some (event_errors lib destination fields) ≡ true
  unfolding event_errors has_text_paths
  event_errors-returns destination fields h =
      let (logical, path) = and_parts _ _ h in
      let (found, e) = some-of _ (safe_path-returns "logical_relative_path" fields logical) in
      let (final, f) = some-of _ (safe_path-returns "final_relative_path" fields path) in
      elim (Parsed-cases found) [
        | inl (m, bad) ↦ cc (e, bad)
        | inr (l, good) ↦ elim (Parsed-cases final) [
          | inl (m, bad) ↦ cc (e, good, f, bad)
          | inr (relative, fine) ↦ cc (e, good, f, fine)
        ]
      ]

  pub final_errors-returns :
      (destination : String → Final) (events : List Fields)
      → All (λ event. has_text_paths event ≡ true) events
      → is_some (final_errors lib destination events) ≡ true
  unfolding final_errors
  final_errors-returns destination [] h = refl
  final_errors-returns destination (event ∷ events) h =
      let (here, e) = some-of _ (event_errors-returns destination event h.0) in
      let (rest, f) = some-of _ (final_errors-returns destination events h.1) in cc (e, f)

  module _ (run_id session_id : String) where
    check_fields-returns :
        (number : ℕ) (fields : Fields) (r : Reading)
        → IsReadable fields
        → (next : Reading) × (check_fields lib run_id session_id number fields r ≡ some next)
          × (next.finals ≡ r.finals)
    unfolding check_fields
    check_fields-returns number fields r h =
        let (kinds, e) =
          some-of _ (kind_errors-returns fields (get_field "event_type" fields) h.has_kind) in
        let (wrong, f) =
          some-of _ (is_wrong_digest-returns fields (get_field "event_digest" fields) h.no_float) in
        (
          record r {
            previous = text_of (get_field "event_digest" fields);
            seen = get_field "event_id" fields ∷ r.seen;
            errors = r.errors ++ event_faults lib run_id session_id number fields r kinds wrong;
          },
          cc (h.has_id, e, f),
          refl,
        )

    noted-finals :
        (fields : Fields) (r : Reading)
        → has_text_paths fields ≡ true
        → All (λ event. has_text_paths event ≡ true) r.finals
        → All (λ event. has_text_paths event ≡ true) (note_event fields r).finals
    unfolding note_event
    noted-finals fields r h finals =
        if_elim (λ more. All (λ event. has_text_paths event ≡ true) (r.finals ++ more))
          (is_kind "finalized" (get_field "event_type" fields)) _ _
          (λ _. All-snoc _ r.finals fields finals h) (λ _. rw (append-nil r.finals) finals)

    -- A value that can be read adds at most an event with such paths.
    check_event-returns :
        (number : ℕ) (v : Json) (r : Reading)
        → ((fields : Fields) → v ≡ obj fields → IsReadable fields)
        → All (λ event. has_text_paths event ≡ true) r.finals
        → (next : Reading) × (check_event lib run_id session_id number v r ≡ some next)
          × All (λ event. has_text_paths event ≡ true) next.finals
    unfolding check_event
    check_event-returns number (obj fields) r h finals =
        let (checked, e, same) = check_fields-returns number fields r (h fields refl) in
        (
          note_event fields checked,
          cc (e),
          noted-finals fields checked (h fields refl).paths
              (subst (All (λ event. has_text_paths event ≡ true)) (sym same) finals),
        )
    check_event-returns number null r h finals = (_, refl, finals)
    check_event-returns number v r h finals = (_, refl, finals)

    check_line-returns :
        (number : ℕ) (line : B) (r : Reading)
        → IsReadableLine lib line
        → All (λ event. has_text_paths event ≡ true) r.finals
        → (next : Reading) × (check_line lib run_id session_id number line r ≡ some next)
          × All (λ event. has_text_paths event ≡ true) next.finals
    unfolding check_line
    check_line-returns number line r h finals = elim (Parsed-cases (load lib line)) [
      | inl (message, e) ↦ (
        record r {
          errors =
              r.errors
              ++ ("events.jsonl line " <> decimal number <> ": invalid JSON: " <> message) ∷ [];
        },
        cc (e),
        finals,
      )
      | inr (v, e) ↦
          let (next, f, kept) =
            check_event-returns number v r (λ fields same. h fields (e ∙ ap value same)) finals in
          (next, cc (e, f), kept)
    ]

    pub check_lines-returns :
        (number : ℕ) (lines : List B) (r : Reading)
        → All (IsReadableLine lib) lines
        → All (λ event. has_text_paths event ≡ true) r.finals
        → (last : Reading) × (check_lines lib run_id session_id number lines r ≡ some last)
          × All (λ event. has_text_paths event ≡ true) last.finals
    unfolding check_lines
    check_lines-returns number [] r h finals = (r, refl, finals)
    check_lines-returns number (line ∷ lines) r h finals =
        let (next, e, kept) = check_line-returns number line r h.0 finals in
        let (last, f, all_kept) = check_lines-returns (number + 1) lines next h.1 kept in
        (last, cc (e, f), all_kept)
