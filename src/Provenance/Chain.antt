-- ===== src/Provenance/Chain.antt =====
-- The chain of digests: what a summary signs of the events.
use tod_dl.Provenance.{Library, value, digest}
use tod_dl.Provenance.Events.{load, Reading, check_line, check_lines}
use tod_dl.Provenance.Lines.{IsPython, IsLinked, check_line-IsLinked}
use tod_dl.Provenance.Writer.{text_or_null}
use tod_dl.Provenance.Loaded.{load-IsOrdered, set_field-remove}
use tod_dl.Json.{Fields, end, field, str, obj, get_field}
use tod_dl.Json.Dict.{remove, has_field, is_ordered, is_ordered_dict, set_field}
use tod_dl.Base.{
  ℕ, ◌+◌, String, true, Option, none, some, List, [], ◌∷◌, map, ◌≡◌, refl, sym, ap, ◌∙◌, inl, inr,
  arith, All, length, Option-cases,
}

-- The lines of a record, read from one state to another, each linked to the one before.
pub data IsChain {B : Type 0} (lib : Library B) : List B → Reading → Reading → Type 0 where
  done : (r last : Reading) → r ≡ last → IsChain lib [] r last
  link :
      (line : B) (lines : List B) (fields : Fields) (r next last : Reading)
      → load lib line ≡ value (obj fields)
      → IsLinked lib fields r next
      → IsChain lib lines next last
      → IsChain lib (line ∷ lines) r last

module _ {B : Type 0} (lib : Library B) where
  IsChain-clean :
      {lines : List B} {r last : Reading}
      → IsChain lib lines r last
      → last.errors ≡ []
      → r.errors ≡ []
  IsChain-clean (done r last e) h = cc
  IsChain-clean (link line lines fields r next last loaded linked chain) h = linked.was_clean

  pub check_lines-IsChain :
      (python : IsPython lib) (run_id session_id : String) (n : ℕ) (lines : List B)
      (r last : Reading)
      → check_lines lib run_id session_id n lines r ≡ some last
      → last.errors ≡ []
      → IsChain lib lines r last
  unfolding check_lines
  check_lines-IsChain python run_id session_id n [] r last h clean = done r last (cc (h))
  check_lines-IsChain python run_id session_id n (line ∷ lines) r last h clean =
      elim (Option-cases (check_line lib run_id session_id n line r)) [
        | inl raises ↦ cc (raises, h)
        | inr (next, e) ↦
            let rest =
              check_lines-IsChain python run_id session_id (n + 1) lines next last (cc (e, h))
                clean in
            let (fields, loaded, linked) =
              check_line-IsLinked lib python run_id session_id n line r next e
                (IsChain-clean rest clean) in
            link line lines fields r next last loaded linked rest
      ]

-- No two different events of the two records have the same digest.
abbrev pub Distinguished : {B : Type 0} → Library B → B → B → Type 0
Distinguished lib line line' =
    (f g : Fields)
    → load lib line ≡ value (obj f)
    → load lib line' ≡ value (obj g)
    → digest lib (obj (remove "event_digest" f)) ≡ digest lib (obj (remove "event_digest" g))
    → remove "event_digest" f ≡ remove "event_digest" g

abbrev pub NoCollision : {B : Type 0} → Library B → List B → List B → Type 0
NoCollision lib lines lines' = All (λ line. All (Distinguished lib line) lines') lines

All-tail :
    {B : Type 0} (lib : Library B) (line' : B) (lines lines' : List B)
    → NoCollision lib lines (line' ∷ lines')
    → NoCollision lib lines lines'
All-tail lib line' [] lines' h = tt
All-tail lib line' (line ∷ lines) lines' h = (h.0.1, All-tail lib line' lines lines' h.1)

pub text_or_null-inj : (o p : Option String) → text_or_null o ≡ text_or_null p → o ≡ p
unfolding text_or_null
text_or_null-inj none none h = refl
text_or_null-inj none (some s) h = cc
text_or_null-inj (some s) none h = cc
text_or_null-inj (some s) (some t) h = cc

pub has_of_get :
    (key : String) (fields : Fields) (s : String)
    → get_field key fields ≡ str s
    → has_field key fields ≡ true
unfolding get_field has_field
has_of_get key end s h = cc
has_of_get key (field name v fields) s h = ground (arith, has_of_get key fields s)

-- An event's dictionary, from its digest and its other fields.
event-parts :
    (fields : Fields) (d : String)
    → is_ordered_dict fields ≡ true
    → get_field "event_digest" fields ≡ str d
    → fields ≡ set_field "event_digest" (str d) (remove "event_digest" fields)
event-parts fields d o h =
    sym (set_field-remove "event_digest" fields o (has_of_get "event_digest" fields d h))
    ∙ ap (λ v. set_field "event_digest" v (remove "event_digest" fields)) h

some-inj : {A : Type 0} (a b : A) → some a ≡ some b → a ≡ b
some-inj a b h = cc

module _ {B : Type 0} (lib : Library B) where
  same_fields :
      (line line' : B) {f g : Fields} {r r' next next' : Reading}
      → load lib line ≡ value (obj f)
      → load lib line' ≡ value (obj g)
      → (l : IsLinked lib f r next) (l' : IsLinked lib g r' next')
      → l.event_digest ≡ l'.event_digest
      → remove "event_digest" f ≡ remove "event_digest" g
      → f ≡ g
  same_fields line line' {f = f} {g = g} loaded loaded' l l' digests bodies =
      event-parts f l.event_digest (unfold is_ordered in load-IsOrdered lib line (obj f) loaded)
        l.has_digest
      ∙ ap (λ d. set_field "event_digest" (str d) (remove "event_digest" f)) digests
      ∙ ap (λ b. set_field "event_digest" (str l'.event_digest) b) bodies
      ∙ sym (
          event-parts g l'.event_digest
            (unfold is_ordered in load-IsOrdered lib line' (obj g) loaded') l'.has_digest)

  -- Two chains of the same length that end in the same digest are the same chain.
  pub IsChain-unique :
      {lines lines' : List B} {r r' last last' : Reading}
      → IsChain lib lines r last
      → IsChain lib lines' r' last'
      → NoCollision lib lines lines'
      → length lines ≡ length lines'
      → last.previous ≡ last'.previous
      → (map (load lib) lines ≡ map (load lib) lines') × (r.previous ≡ r'.previous)
  IsChain-unique (done r last e) (done r' last' e') apart n h = (refl, cc)
  IsChain-unique (done r last e) (link line' lines' g r' next' last' loaded' linked' chain') apart n
        h =
      absurd (omega arith)
  IsChain-unique (link line lines f r next last loaded linked chain) (done r' last' e') apart n h =
      absurd (omega arith)
  IsChain-unique (link line lines f r next last loaded linked chain)
        (link line' lines' g r' next' last' loaded' linked' chain') apart n h =
      let (rest, ends) =
        IsChain-unique chain chain' (All-tail lib line' lines lines' apart.1) (omega arith) h in
      let same_digest = some-inj _ _ (sym linked.goes_on ∙ ends ∙ linked'.goes_on) in
      let bodies =
        apart.0.0 f g loaded loaded'
          (linked.digested ∙ ap (λ (d : String). some d) same_digest ∙ sym linked'.digested) in
      let same_event = same_fields line line' loaded loaded' linked linked' same_digest bodies in
      (
        cc (loaded, loaded', rest, same_event),
        text_or_null-inj r.previous r'.previous (
            sym linked.follows
            ∙ ap (λ e. get_field "previous_digest" e) same_event
            ∙ linked'.follows),
      )
