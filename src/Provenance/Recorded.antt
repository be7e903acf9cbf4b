-- ===== src/Provenance/Recorded.antt =====
-- What `event` has done where it returns a record.
use tod_dl.Provenance.{Library, digest}
use tod_dl.Provenance.Schema.{event_types, event_schema}
use tod_dl.Provenance.Schema.Errors.{schema_errors}
use tod_dl.Provenance.Writer.{
  Writer, Moment, Answer, recorded, UrlCheck, clean, credentialed, broken, event, record_event,
  check_record, append_record, undigested, check_urls,
}
use tod_dl.Json.{Json, Fields, str, obj}
use tod_dl.Json.Dict.{set_field}
use tod_dl.Base.{
  ◌+◌, String, true, some, List, [], ◌∷◌, ◌++◌, ◌≡◌, refl, sym, ap, ◌∙◌, ◌⊎◌, inl, inr, str_eq,
  contains, Bool-cases, Option-cases, if◌then◌else◌,
}

-- The facts of a recorded event: the record, its digest, and the writer after it.
pub record IsRecorded {B : Type 0} (lib : Library B) (moment : Moment B) (kind : String)
    (fields : Fields) (w w' : Writer B) (whole : Fields) : Type 0 where
  pub event_digest : String
  pub schema : Json
  pub known : contains kind event_types ≡ true
  pub digested : digest lib (obj (undigested moment kind fields w)) ≡ some event_digest
  pub whole_lem :
      whole ≡ set_field "event_digest" (str event_digest) (undigested moment kind fields w)
  pub found : event_schema w.schema kind ≡ some schema
  pub fits : schema_errors lib (obj whole) schema "$" ≡ []
  pub after : w' ≡ record w {
    sequence = w.sequence + 1;
    events = w.events ++ lib.dumps (obj whole) ∷ [];
    previous_digest = some event_digest;
    finalized_count = if str_eq kind "finalized" then w.finalized_count + 1 else w.finalized_count;
  }

pub List-cases :
    (xs : List String) → (xs ≡ []) ⊎ ((x : String) × (ys : List String) × (xs ≡ x ∷ ys))
List-cases [] = inl refl
List-cases (x ∷ xs) = inr (x, xs, refl)

pub UrlCheck-cases : (c : UrlCheck) → (c ≡ clean) ⊎ ((c ≡ credentialed) ⊎ (c ≡ broken))
UrlCheck-cases clean = inl refl
UrlCheck-cases credentialed = inr (inl refl)
UrlCheck-cases broken = inr (inr refl)

module _ {B : Type 0} (lib : Library B) (moment : Moment B) (kind : String) (fields : Fields) where
  -- The writer after the append.
  appended : Fields → String → Writer B → Writer B
  appended body d w = record w {
    events = w.events ++ lib.dumps (obj body) ∷ [];
    previous_digest = some d;
    finalized_count = if str_eq kind "finalized" then w.finalized_count + 1 else w.finalized_count;
  }

  append_record-recorded :
      (body : Fields) (d : String) (w w' : Writer B) (whole : Fields)
      → append_record lib moment kind body d w ≡ (w', recorded whole)
      → (whole ≡ body) × (w' ≡ appended body d w)
  unfolding append_record appended
  append_record-recorded body d w w' whole h = elim (Option-cases moment.write_fault) [
    | inl fine ↦
        let e : (appended body d w, recorded body) ≡ (w', recorded whole) = cc (fine, h) in
        (cc (e), sym (ap (λ (p : Writer B × Answer). p.0) e))
    | inr (fault, e) ↦ cc (e, h)
  ]

  check_record-recorded :
      (body : Fields) (d : String) (w w' : Writer B) (whole : Fields)
      → check_record lib moment kind body d w ≡ (w', recorded whole)
      → (schema : Json) × (event_schema w.schema kind ≡ some schema)
        × (schema_errors lib (obj body) schema "$" ≡ [])
        × (whole ≡ body)
        × (w' ≡ appended body d w)
  unfolding check_record
  check_record-recorded body d w w' whole h = elim (Option-cases (event_schema w.schema kind)) [
    | inl e ↦ cc (e, h)
    | inr (schema, e) ↦ elim (List-cases (schema_errors lib (obj body) schema "$")) [
      | inr (problem, more, bad) ↦ cc (e, bad, h)
      | inl fine ↦
          let (whole_body, after) = append_record-recorded body d w w' whole (cc (e, fine, h)) in
          (schema, e, fine, whole_body, after)
    ]
  ]

  record_event-recorded :
      (w w' : Writer B) (whole : Fields)
      → contains kind event_types ≡ true
      → record_event lib moment kind fields w ≡ (w', recorded whole)
      → IsRecorded lib moment kind fields w w' whole
  unfolding record_event appended
  record_event-recorded w w' whole known h =
      elim (Option-cases (digest lib (obj (undigested moment kind fields w)))) [
        | inl e ↦ cc (e, h)
        | inr (d, e) ↦
            let (schema, found, fits, same_body, after) =
              check_record-recorded
                (set_field "event_digest" (str d) (undigested moment kind fields w)) d
                (record w { sequence = w.sequence + 1 }) w' whole (cc (e, h)) in
            record {
              event_digest = d;
              schema = schema;
              known = known;
              digested = e;
              whole_lem = same_body;
              found = found;
              fits = ap (λ (x : Fields). schema_errors lib (obj x) schema "$") same_body ∙ fits;
              after = after ∙ cc (same_body);
            }
      ]

  pub event-IsRecorded :
      (w w' : Writer B) (whole : Fields)
      → event lib moment kind fields w ≡ (w', recorded whole)
      → IsRecorded lib moment kind fields w w' whole
  unfolding event
  event-IsRecorded w w' whole h = elim (Bool-cases (contains kind event_types)) [
    | inr unknown ↦ cc (unknown, h)
    | inl known ↦ elim (UrlCheck-cases (check_urls lib fields)) [
      | inl fine ↦ record_event-recorded w w' whole known (cc (known, fine, h))
      | inr (inl bad) ↦ cc (known, bad, h)
      | inr (inr bad) ↦ cc (known, bad, h)
    ]
  ]
