-- ===== src/Provenance/Accepted.antt =====
-- A line that `event` writes is read by `verify` without errors.
use tod_dl.Provenance.{Library, digest, same, report, concat, is_subset, canonical_json}
use tod_dl.Provenance.Schema.{common, event_types, event_schema, schema_document}
use tod_dl.Provenance.Schema.Errors.{schema_errors}
use tod_dl.Provenance.Schema.Errors.Kinds.{schema_errors-names}
use tod_dl.Provenance.Writer.{Writer, Moment, text_or_null}
use tod_dl.Provenance.Events.{
  Reading, check_fields, check_event, check_line, kind_errors, known_kind_errors, is_wrong_digest,
  event_faults, differs, is_hashable, note_event, contradictions, is_contradictory, validations,
  same_names, event_fields, has_seen,
}
use tod_dl.Provenance.Whole.{IsWhole}
use tod_dl.Provenance.Written.{ReadsBack, load-dumps}
use tod_dl.Json.{Json, Fields, int, str, obj, get_field, text_of}
use tod_dl.Json.Equal.{eq_json, eq_json_refl, has_float}
use tod_dl.Json.Dict.{names, remove, ne_sym}
use tod_dl.Base.{
  if_elim, or_parts, neither_holds, ◌+◌, String, Bool, true, false, not, Option, none, some, List,
  [], ◌∷◌, ◌++◌, map, ◌≡◌, refl, sym, ap, ◌∙◌, inl, inr, str_eq, eq_iff, any, all, All, contains,
  and_parts, both_hold, Bool-cases, if◌then◌else◌, pos,
}

-- A validation that was unavailable has no value, and was not compared.
abbrev pub IsTruthful : Fields → Type 0
IsTruthful event = All (λ name. is_contradictory (get_field name event) ≡ false) validations

contradictions-nil :
    (event : Fields) (checks : List String)
    → All (λ name. is_contradictory (get_field name event) ≡ false) checks
    → contradictions event checks ≡ []
unfolding contradictions report
contradictions-nil event [] h = refl
contradictions-nil event (name ∷ checks) h = rw h.0 (contradictions-nil event checks h.1)

pub same_refl :
    {B : Type 0} (lib : Library B) (v w : Json) → has_float w ≡ false → v ≡ w → same lib v w ≡ true
same_refl lib v w f e = rw e (eq_json_refl lib.float_eq w f)

has_seen-ids :
    {B : Type 0} (lib : Library B) (id : String) (ids : List String)
    → contains id ids ≡ false
    → has_seen lib (str id) (map (λ s. str s) ids) ≡ false
unfolding has_seen any contains eq_json
has_seen-ids lib id [] h = refl
has_seen-ids lib id (s ∷ ids) h =
    let (here, rest) = or_parts _ _ h in
    neither_holds _ _ (ne_sym id s here) (has_seen-ids lib id ids rest)

digest-hex :
    {B : Type 0} (lib : Library B)
    → ((b : B) → lib.is_hex_digest (lib.sha256_hex b) ≡ true)
    → (v : Json) (d : String) → digest lib v ≡ some d
    → lib.is_hex_digest d ≡ true
unfolding digest canonical_json
digest-hex lib hex v d h = elim (Bool-cases (has_float v)) [
  | inl bad ↦ cc (bad, h)
  | inr fine ↦ cc (fine, h, hex (lib.dumps v))
]

pub no_faults : concat [] ≡ []
unfolding concat
no_faults = refl

pub no_fault :
    {xs : List String} (xss : List (List String))
    → xs ≡ []
    → concat xss ≡ []
    → concat (xs ∷ xss) ≡ []
unfolding concat
no_fault xss h k = rw h k

pub silent : (bad : Bool) (message : String) → bad ≡ false → report bad message ≡ []
unfolding report
silent bad message h = rw h refl

pub is_not-false : {b : Bool} → b ≡ true → not b ≡ false
is_not-false h = rw h refl

is_subset-left : (xs ys zs : List String) → is_subset (xs ++ ys) zs ≡ true → is_subset xs zs ≡ true
unfolding is_subset all
is_subset-left [] ys zs h = refl
is_subset-left (x ∷ xs) ys zs h =
    let (here, rest) = and_parts _ _ h in both_hold _ _ here (is_subset-left xs ys zs rest)

-- The tests of an event that raise nothing, and what they give.
all_pass :
    (hashable : Bool) (ks : Option (List String)) (wrong : Option Bool)
    (f : List String → Bool → Reading) {kinds : List String} {b : Bool}
    → hashable ≡ true
    → ks ≡ some kinds
    → wrong ≡ some b
    → (if not hashable then none else elim ks [
      | none ↦ none
      | some ks' ↦ elim wrong [ none ↦ none | some w ↦ some (f ks' w) ]
    ])
      ≡ some (f kinds b)
all_pass hashable ks wrong f h k l = rw (h, k, l) refl

pub clean_append : {xs ys : List String} → xs ≡ [] → ys ≡ [] → xs ++ ys ≡ []
clean_append h k = rw (h, k) refl

pub text_or_null-float : (o : Option String) → has_float (text_or_null o) ≡ false
unfolding text_or_null has_float
text_or_null-float none = refl
text_or_null-float (some s) = refl

-- The state of the loop after an event.
unfoldable pub after : {B : Type 0} → Moment B → String → Fields → Reading → Reading
after moment d whole r =
    note_event whole
      (record r { previous = some d; seen = str moment.event_id ∷ r.seen; errors = [] })

module _ {B : Type 0} (lib : Library B)
    (hex : (b : B) → lib.is_hex_digest (lib.sha256_hex b) ≡ true) (moment : Moment B)
    (kind d : String) (w : Writer B) (body whole : Fields) (schema : Json)
    (is_whole : IsWhole lib moment kind d w body whole) (known : contains kind event_types ≡ true)
    (digested : digest lib (obj body) ≡ some d)
    (found : event_schema schema_document kind ≡ some schema)
    (fits : schema_errors lib (obj whole) schema "$" ≡ []) where
  known_kind_errors-nil :
      (str_eq kind "finalized" ≡ true → IsTruthful whole) → known_kind_errors lib whole kind ≡ []
  unfolding known_kind_errors report
  known_kind_errors-nil truthful =
      rw (schema_errors-names lib kind "$" schema whole known found fits, found)
        (rw fits (
          if_elim (λ xs. xs ≡ []) (str_eq kind "finalized") _ _
            (λ e. contradictions-nil whole validations (truthful e)) (λ _. refl)))

  is_wrong_digest-right : is_wrong_digest lib whole (get_field "event_digest" whole) ≡ some false
  unfolding is_wrong_digest differs
  is_wrong_digest-right =
      let e : digest lib (obj (remove "event_digest" whole)) ≡ some d =
        ap (λ fs. digest lib (obj fs)) is_whole.rest ∙ digested in
      cc (is_whole.event_digest, e, digest-hex lib hex (obj body) d digested, (eq_iff d d).1 refl)

  has_common : is_subset common (names whole) ≡ true
  unfolding same_names
  has_common =
      is_subset-left common (event_fields kind) (names whole)
        (and_parts _ _ (schema_errors-names lib kind "$" schema whole known found fits)).1

  event_faults-silent :
      (r : Reading) (ids : List String)
      → r.previous ≡ w.previous_digest
      → r.seen ≡ map (λ s. str s) ids
      → contains moment.event_id ids ≡ false
      → event_faults lib w.run_id w.session_id (w.sequence + 1) whole r [] false ≡ []
  unfolding event_faults has_float
  event_faults-silent r ids previous seen fresh =
      no_fault _ (silent _ _ (is_not-false has_common)) (
        no_fault _ (silent _ _ (is_not-false (same_refl lib _ (int (pos 1)) refl is_whole.version)))
          (no_fault _ refl (
            no_fault _
              (silent _ _ (
                neither_holds _ _
                  (is_not-false (same_refl lib _ (str w.run_id) refl is_whole.run_id))
                  (is_not-false (same_refl lib _ (str w.session_id) refl is_whole.session_id))))
              (no_fault _
                (silent _ _ (
                  is_not-false
                    (same_refl lib _ (int (pos (w.sequence + 1))) refl is_whole.sequence)))
                (no_fault _
                  (silent _ _
                    (cc (is_whole.event_id, seen, has_seen-ids lib moment.event_id ids fresh)))
                  (no_fault _
                    (silent _ _ (
                      is_not-false (
                        same_refl lib _ (text_or_null r.previous) (text_or_null-float r.previous)
                          (is_whole.previous ∙ ap text_or_null (sym previous)))))
                    (no_fault _ (silent _ _ refl) no_faults)))))))

  kind_errors-nil :
      (str_eq kind "finalized" ≡ true → IsTruthful whole)
      → kind_errors lib whole (get_field "event_type" whole) ≡ some []
  unfolding kind_errors
  kind_errors-nil truthful =
      rw (is_whole.event_type, kind_errors) (rw (known, known_kind_errors-nil truthful) refl)

  noted : Reading → Option String → Json → List String → Reading
  noted r previous event_id errors = record r {
    previous = previous;
    seen = event_id ∷ r.seen;
    errors = errors;
  }

  check_fields-accepts :
      (r : Reading)
      → (str_eq kind "finalized" ≡ true → IsTruthful whole)
      → check_fields lib w.run_id w.session_id (w.sequence + 1) whole r
        ≡ some (
            noted r (text_of (get_field "event_digest" whole)) (get_field "event_id" whole) (
              r.errors ++ event_faults lib w.run_id w.session_id (w.sequence + 1) whole r [] false))
  unfolding check_fields noted
  check_fields-accepts r truthful =
      all_pass (is_hashable (get_field "event_id" whole)) _ _ _ (ap is_hashable is_whole.event_id)
        (kind_errors-nil truthful) is_wrong_digest-right

  pass_on :
      (r checked : Reading)
      → check_fields lib w.run_id w.session_id (w.sequence + 1) whole r ≡ some checked
      → check_event lib w.run_id w.session_id (w.sequence + 1) (obj whole) r
        ≡ some (note_event whole checked)
  unfolding check_event
  pass_on r checked e = cc (e)

  check_event-accepts :
      (r : Reading) (ids : List String)
      → (str_eq kind "finalized" ≡ true → IsTruthful whole)
      → r.errors ≡ []
      → r.previous ≡ w.previous_digest
      → r.seen ≡ map (λ s. str s) ids
      → contains moment.event_id ids ≡ false
      → check_event lib w.run_id w.session_id (w.sequence + 1) (obj whole) r
        ≡ some (after moment d whole r)
  unfolding after text_of noted
  check_event-accepts r ids truthful clean previous seen fresh =
      let faults = event_faults-silent r ids previous seen fresh in
      pass_on r _ (check_fields-accepts r truthful)
      ∙ (rw (is_whole.event_digest, is_whole.event_id, clean_append clean faults) refl)

  pub check_line-accepts :
      ReadsBack lib
      → (r : Reading) (ids : List String) → (str_eq kind "finalized" ≡ true → IsTruthful whole)
      → r.errors ≡ []
      → r.previous ≡ w.previous_digest
      → r.seen ≡ map (λ s. str s) ids
      → contains moment.event_id ids ≡ false
      → check_line lib w.run_id w.session_id (w.sequence + 1) (lib.dumps (obj whole)) r
        ≡ some (after moment d whole r)
  unfolding check_line
  check_line-accepts reads r ids truthful clean previous seen fresh = cc (
    load-dumps lib reads (obj whole) is_whole.in_order is_whole.no_float,
    check_event-accepts r ids truthful clean previous seen fresh,
  )
