-- ===== src/Provenance/Lines.antt =====
-- What the verifier has found of a line that it reports no error of.
use tod_dl.Provenance.{Library, Parsed, value, invalid, digest, same, report, concat}
use tod_dl.Provenance.Writer.{text_or_null}
use tod_dl.Provenance.Events.{
  load, Reading, check_fields, check_event, check_line, kind_errors, is_wrong_digest, event_faults,
  is_kind, differs, is_hashable, note_event,
}
use tod_dl.Json.{
  Json, null, Fields, int, str, arr, obj, boolean, float, get_field, text_of, is_text,
}
use tod_dl.Json.Dict.{remove}
use tod_dl.Json.Equal.{eq_json, eq_number, eq_ℤ, of_bool, is_null}
use tod_dl.Base.{
  pos, negsuc, ◌<>◌, decimal, ℕ, String, Bool, true, false, not, Option, none, some, List, [], ◌∷◌,
  ◌++◌, ◌≡◌, refl, sym, ap, ◌∙◌, ◌⊎◌, inl, inr, arith, str_eq, eq_iff, All, Option-cases,
  if◌then◌else◌,
}

-- Python: a float equals no text, not None, and at most one number.
pub record IsPython {B : Type 0} (lib : Library B) : Type 0 where
  pub float_text : (x s : String) → lib.float_eq x (str s) ≡ false
  pub float_null : (x : String) → lib.float_eq x null ≡ false
  pub float_one :
      (x : String) (m n : ℕ)
      → lib.float_eq x (int (pos m)) ≡ true
      → lib.float_eq x (int (pos n)) ≡ true
      → m ≡ n

pub nil_parts : (xs ys : List String) → xs ++ ys ≡ [] → (xs ≡ []) × (ys ≡ [])
nil_parts [] ys h = (refl, h)
nil_parts (x ∷ xs) ys h = cc

pub concat-nil : (xss : List (List String)) → concat xss ≡ [] → All (λ xs. xs ≡ []) xss
unfolding concat
concat-nil [] h = tt
concat-nil (xs ∷ more) h = ((nil_parts xs _ h).0, concat-nil more (nil_parts xs _ h).1)

pub report-nil : (bad : Bool) (message : String) → report bad message ≡ [] → bad ≡ false
unfolding report
report-nil true message h = cc
report-nil false message h = refl

pub not-false : (b : Bool) → not b ≡ false → b ≡ true
not-false true h = refl
not-false false h = sym h

module _ {B : Type 0} (lib : Library B) (python : IsPython lib) where
  pub same-text : (v : Json) (s : String) → same lib v (str s) ≡ true → v ≡ str s
  unfolding eq_json eq_number is_text
  same-text null s h = cc
  same-text (boolean b) s h = cc
  same-text (int n) s h = cc
  same-text (float x) s h = cc (python.float_text x s)
  same-text (str t) s h = ap str (sym ((eq_iff s t).0 h))
  same-text (arr items) s h = cc
  same-text (obj fields) s h = cc

  same-null : (v : Json) → same lib v null ≡ true → v ≡ null
  unfolding eq_json eq_number is_text
  same-null null h = refl
  same-null (boolean b) h = cc
  same-null (int n) h = cc
  same-null (float x) h = cc (python.float_null x)
  same-null (str t) h = cc
  same-null (arr items) h = cc
  same-null (obj fields) h = cc

  pub same-text_or_null :
      (v : Json) (o : Option String) → same lib v (text_or_null o) ≡ true → v ≡ text_or_null o
  unfolding text_or_null
  same-text_or_null v (some s) h = same-text v s h
  same-text_or_null v none h = same-null v h

  -- A value equals at most one number.
  pub same-numbers :
      (v : Json) (m n : ℕ)
      → same lib v (int (pos m)) ≡ true
      → same lib v (int (pos n)) ≡ true
      → m ≡ n
  unfolding eq_json eq_number eq_ℤ of_bool is_text is_null
  same-numbers null m n h k = cc
  same-numbers (boolean true) m n h k = ground arith
  same-numbers (boolean false) m n h k = ground arith
  same-numbers (int (pos a)) m n h k = ground arith
  same-numbers (int (negsuc a)) m n h k = cc
  same-numbers (float x) m n h k = python.float_one x m n h k
  same-numbers (str t) m n h k = cc
  same-numbers (arr items) m n h k = cc
  same-numbers (obj fields) m n h k = cc

  -- What a digest that is not wrong says.
  is_wrong_digest-false :
      (fields : Fields) (v : Json)
      → is_wrong_digest lib fields v ≡ some false
      → (d : String) × (v ≡ str d) × (digest lib (obj (remove "event_digest" fields)) ≡ some d)
  unfolding is_wrong_digest differs
  is_wrong_digest-false fields (str d) h =
      (d, refl, some_wanted (digest lib (obj (remove "event_digest" fields))) (ground arith))
    where
      some_wanted :
          (o : Option String)
          → elim o [ none ↦ none | some wanted ↦ some (not (str_eq d wanted)) ] ≡ some false
          → o ≡ some d
      some_wanted none h = cc
      some_wanted (some wanted) h = ground (arith, eq_iff d wanted)
  is_wrong_digest-false fields null h = cc
  is_wrong_digest-false fields _ h = cc

-- An event without errors: its digest is that of its other fields, and it names the digest before.
pub record IsLinked {B : Type 0} (lib : Library B) (fields : Fields) (r next : Reading)
    : Type 0 where
  pub event_digest : String
  pub has_digest : get_field "event_digest" fields ≡ str event_digest
  pub digested : digest lib (obj (remove "event_digest" fields)) ≡ some event_digest
  pub follows : get_field "previous_digest" fields ≡ text_or_null r.previous
  pub goes_on : next.previous ≡ some event_digest
  pub was_clean : r.errors ≡ []
  pub finals :
      next.finals
      ≡ r.finals
        ++ (if is_kind "finalized" (get_field "event_type" fields) then fields ∷ [] else [])

pub Parsed-cases :
    {A : Type 0} (p : Parsed A) → ((m : String) × (p ≡ invalid m)) ⊎ ((a : A) × (p ≡ value a))
Parsed-cases (value a) = inr (a, refl)
Parsed-cases (invalid m) = inl (m, refl)

pub snoc-ne-nil : (xs : List String) (x : String) → xs ++ x ∷ [] ≡ [] → ⊥
snoc-ne-nil [] x h = cc
snoc-ne-nil (y ∷ xs) x h = cc

-- A reading that notes one more error is not without errors.
one_more :
    (xs : List String) (x : String) (next : Reading)
    → next.errors ≡ xs ++ x ∷ []
    → next.errors ≡ []
    → ⊥
one_more xs x next e clean = snoc-ne-nil xs x (sym e ∙ clean)

errors_of : {a b : Reading} → some a ≡ some b → b.errors ≡ a.errors
errors_of h = cc (h)

-- Where the tests of an event raise nothing, they give its errors.
all_given :
    (hashable : Bool) (ks : Option (List String)) (w : Option Bool)
    (f : List String → Bool → Reading) {next : Reading}
    → (if not hashable then none else elim ks [
      | none ↦ none
      | some kinds ↦ elim w [ none ↦ none | some wrong ↦ some (f kinds wrong) ]
    ])
      ≡ some next
    → (kinds : List String) × (wrong : Bool) × (w ≡ some wrong) × (next ≡ f kinds wrong)
all_given false ks w f h = cc
all_given true none w f h = cc
all_given true (some kinds) none f h = cc
all_given true (some kinds) (some wrong) f h = (kinds, wrong, refl, cc)

module _ {B : Type 0} (lib : Library B) (python : IsPython lib) (run_id session_id : String) where
  event_faults-nil :
      (n : ℕ) (fields : Fields) (r : Reading) (kinds : List String) (wrong : Bool)
      → event_faults lib run_id session_id n fields r kinds wrong ≡ []
      → (wrong ≡ false) × (get_field "previous_digest" fields ≡ text_or_null r.previous)
  unfolding event_faults
  event_faults-nil n fields r kinds wrong h =
      let faults = concat-nil _ h in
      (
        report-nil wrong _ faults.1.1.1.1.1.1.1.0,
        same-text_or_null lib python _ r.previous
            (not-false _ (report-nil _ _ faults.1.1.1.1.1.1.0)),
      )

  -- What `check_fields` notes of an event.
  note : ℕ → Fields → Reading → List String → Bool → Reading
  note n fields r kinds wrong = record r {
    previous = text_of (get_field "event_digest" fields);
    seen = get_field "event_id" fields ∷ r.seen;
    errors = r.errors ++ event_faults lib run_id session_id n fields r kinds wrong;
  }

  check_fields-parts :
      (n : ℕ) (fields : Fields) (r next : Reading)
      → check_fields lib run_id session_id n fields r ≡ some next
      → (kinds : List String) × (wrong : Bool) × (is_wrong_digest lib fields
            (get_field "event_digest" fields)
          ≡ some wrong)
        × (next ≡ note n fields r kinds wrong)
  unfolding check_fields note
  check_fields-parts n fields r next h =
      all_given (is_hashable (get_field "event_id" fields))
        (kind_errors lib fields (get_field "event_type" fields))
        (is_wrong_digest lib fields (get_field "event_digest" fields))
        (unfold note in note n fields r) h

  check_event-parts :
      (n : ℕ) (fields : Fields) (r next : Reading)
      → check_event lib run_id session_id n (obj fields) r ≡ some next
      → (kinds : List String) × (wrong : Bool) × (is_wrong_digest lib fields
            (get_field "event_digest" fields)
          ≡ some wrong)
        × (next ≡ note_event fields (note n fields r kinds wrong))
  unfolding check_event
  check_event-parts n fields r next h =
      elim (Option-cases (check_fields lib run_id session_id n fields r)) [
        | inl raises ↦ cc (raises, h)
        | inr (checked, e) ↦
            let (kinds, wrong, w, c) = check_fields-parts n fields r checked e in
            (kinds, wrong, w, cc (e, h, c))
      ]

  -- An event that is read without errors is linked to the one before it.
  pub check_event-IsLinked :
      (n : ℕ) (fields : Fields) (r next : Reading)
      → check_event lib run_id session_id n (obj fields) r ≡ some next
      → next.errors ≡ []
      → IsLinked lib fields r next
  unfolding note_event note text_of
  check_event-IsLinked n fields r next h clean =
      let (kinds, wrong, w, e) = check_event-parts n fields r next h in
      let errors = sym (ap (λ (x : Reading). x.errors) e) ∙ clean in
      let (was, faults) = nil_parts r.errors _ errors in
      let (right, follows) = event_faults-nil n fields r kinds wrong faults in
      let (d, has, digested) =
        is_wrong_digest-false lib python fields _ (w ∙ ap (λ (b : Bool). some b) right) in
      record {
        event_digest = d;
        has_digest = has;
        digested = digested;
        follows = follows;
        goes_on = ap (λ (x : Reading). x.previous) e ∙ ap text_of has;
        was_clean = was;
        finals = ap (λ (x : Reading). x.finals) e;
      }

  -- What is no dictionary leaves an error.
  check_value-IsLinked :
      (n : ℕ) (v : Json) (r next : Reading)
      → check_event lib run_id session_id n v r ≡ some next
      → next.errors ≡ []
      → (fields : Fields) × (v ≡ obj fields) × IsLinked lib fields r next
  unfolding check_event
  check_value-IsLinked n (obj fields) r next h clean =
      (fields, refl, unfold check_event in check_event-IsLinked n fields r next h clean)
  check_value-IsLinked n null r next h clean = absurd (one_more r.errors _ next (errors_of h) clean)
  check_value-IsLinked n (boolean b) r next h clean =
      absurd (one_more r.errors _ next (errors_of h) clean)
  check_value-IsLinked n (int b) r next h clean =
      absurd (one_more r.errors _ next (errors_of h) clean)
  check_value-IsLinked n (float b) r next h clean =
      absurd (one_more r.errors _ next (errors_of h) clean)
  check_value-IsLinked n (str b) r next h clean =
      absurd (one_more r.errors _ next (errors_of h) clean)
  check_value-IsLinked n (arr b) r next h clean =
      absurd (one_more r.errors _ next (errors_of h) clean)

  -- A line that is read without errors is such an event.
  pub check_line-IsLinked :
      (n : ℕ) (line : B) (r next : Reading)
      → check_line lib run_id session_id n line r ≡ some next
      → next.errors ≡ []
      → (fields : Fields) × (load lib line ≡ value (obj fields)) × IsLinked lib fields r next
  unfolding check_line
  check_line-IsLinked n line r next h clean = elim (Parsed-cases (load lib line)) [
    | inl (message, e) ↦
        let text = "events.jsonl line " <> decimal n <> ": invalid JSON: " <> message in
        let noted : some (record r { errors = r.errors ++ text ∷ [] }) ≡ some next = cc (e, h) in
        absurd (one_more r.errors text next (errors_of noted) clean)
    | inr (v, e) ↦
        let (fields, o, linked) = check_value-IsLinked n v r next (cc (e, h)) clean in
        (fields, e ∙ ap (λ (x : Json). value x) o, linked)
  ]
