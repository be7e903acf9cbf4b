-- ===== src/Provenance/Log.antt =====
-- `ProvenanceWriter` of src/provenance.py as an append-only log.
use tod_dl.Provenance.Schema.Errors.{schema_errors}
use tod_dl.Provenance.Schema.{event_schema, event_types}
use tod_dl.Json.Dict.{get_field-set_field, set_field}
use tod_dl.Provenance.Recorded.{event-IsRecorded, List-cases, UrlCheck-cases}
use tod_dl.Json.{Fields, Json, get_field, obj, null, str}
use tod_dl.Provenance.{Library, digest}
use tod_dl.Provenance.Writer.{
  Answer, Moment, Writer, event, opened, recorded, text_or_null, provenance_error, record_event,
  check_record, append_record, check_urls, undigested, join, other_error,
}
use mathlib.Core.Path.{subst}
use mathlib.Core.List.{map-append, append-nil, append_assoc}
use tod_dl.Base.{
  All, ℕ, ◌+◌, ◌-◌, String, none, List, [], ◌∷◌, ◌++◌, map, ◌≡◌, refl, sym, ap, ◌∙◌, ◌⊎◌, inl, inr,
  arith, str_eq, contains, Bool-cases, Option-cases, if◌then◌else◌, ◌<>◌,
}

-- A call of `event`.
pub record EventCall (B : Type 0) : Type 0 where
  pub moment : Moment B
  pub kind : String
  pub fields : Fields

-- The record that a call returns, with its type.
unfoldable pub returned : String → Answer → List (String × Fields)
returned kind (recorded whole) = (kind, whole) ∷ []
returned kind (provenance_error message) = []
returned kind other_error = []

-- Calls one after another: the writer, and the records that they return.
unfoldable pub record_all :
    {B : Type 0} → Library B → List (EventCall B) → Writer B → Writer B × List (String × Fields)
unfolding returned
record_all lib [] w = (w, [])
record_all lib (call ∷ calls) w =
    let (next, answer) = event lib call.moment call.kind call.fields w in
    let (last, more) = record_all lib calls next in (last, returned call.kind answer ++ more)

-- The digest of the last record.
unfoldable pub last_digest : Json → List (String × Fields) → Json
last_digest before [] = before
last_digest before (entry ∷ entries) = last_digest (get_field "event_digest" entry.1) entries

unfoldable pub finals : List (String × Fields) → ℕ
finals [] = 0
finals (entry ∷ entries) =
    let rest = finals entries in if str_eq entry.0 "finalized" then rest + 1 else rest

-- What the writer's state says of a log: the lines of the file, the digest that the next record names,
-- and the number of its finalized events.
pub record IsLog {B : Type 0} (lib : Library B) (entries : List (String × Fields)) (w : Writer B)
    : Type 0 where
  pub lines : w.events ≡ map (λ (entry : String × Fields). lib.dumps (obj entry.1)) entries
  pub previous : text_or_null w.previous_digest ≡ last_digest null entries
  pub counted : w.finalized_count ≡ finals entries

last_digest-snoc :
    (entries : List (String × Fields)) (before : Json) (entry : String × Fields)
    → last_digest before (entries ++ entry ∷ []) ≡ get_field "event_digest" entry.1
unfolding last_digest
last_digest-snoc [] before entry = refl
last_digest-snoc (first ∷ entries) before entry =
    last_digest-snoc entries (get_field "event_digest" first.1) entry

finals-snoc :
    (entries : List (String × Fields)) (kind : String) (whole : Fields)
    → finals (entries ++ (kind, whole) ∷ [])
      ≡ (if str_eq kind "finalized" then finals entries + 1 else finals entries)
unfolding finals
finals-snoc [] kind whole = refl
finals-snoc (entry ∷ entries) kind whole = ground (arith, finals-snoc entries kind whole)

module _ {B : Type 0} (lib : Library B) where
  opened-IsLog : (run_id session_id raw : String) → IsLog lib [] (opened lib run_id session_id raw)
  unfolding opened last_digest finals text_or_null
  opened-IsLog run_id session_id raw = record { lines = refl; previous = refl; counted = refl }

  recorded-IsLog :
      (moment : Moment B) (kind : String) (fields whole : Fields) (entries : List (String × Fields))
      (w w' : Writer B)
      → IsLog lib entries w
      → event lib moment kind fields w ≡ (w', recorded whole)
      → IsLog lib (entries ++ (kind, whole) ∷ []) w'
  unfolding text_or_null
  recorded-IsLog moment kind fields whole entries w w' log e =
      let rec = event-IsRecorded lib moment kind fields w w' whole e in
      subst (IsLog lib (entries ++ (kind, whole) ∷ [])) (sym rec.after) (record {
        lines =
            ap (λ ls. ls ++ lib.dumps (obj whole) ∷ []) log.lines
            ∙ sym (
                map-append (λ (entry : String × Fields). lib.dumps (obj entry.1)) entries
                  ((kind, whole) ∷ []));
        previous = sym (
            last_digest-snoc entries null (kind, whole)
            ∙ ap (get_field "event_digest") rec.whole_lem
            ∙ get_field-set_field "event_digest" "event_digest" (str rec.event_digest)
                (undigested moment kind fields w));
        counted =
            ap (λ n. if str_eq kind "finalized" then n + 1 else n) log.counted
            ∙ sym (finals-snoc entries kind whole);
      })

-- What a call leaves of the file where it does not return.
pub record IsKept {B : Type 0} (w w' : Writer B) : Type 0 where
  pub events : w'.events ≡ w.events
  pub previous : w'.previous_digest ≡ w.previous_digest
  pub counted : w'.finalized_count ≡ w.finalized_count

module _ {B : Type 0} (lib : Library B) (moment : Moment B) (kind : String) (fields : Fields)
    (written : moment.write_fault ≡ none) where
  -- Either a call returns a record, or it leaves the file.
  Outcome : Writer B → Writer B → Answer → Type 0
  Outcome w w' a =
      ((whole : Fields) × (a ≡ recorded whole)) ⊎ (IsKept w w' × (returned kind a ≡ []))

  refused :
      (w x w' : Writer B) (b a : Answer)
      → IsKept w x
      → returned kind b ≡ []
      → ◌≡◌ {A = Writer B × Answer} (x, b) (w', a)
      → Outcome w w' a
  unfolding Outcome
  refused w x w' b a kept silent h = inr (
    subst (IsKept w) (ap (λ (p : Writer B × Answer). p.0) h) kept,
    sym (ap (λ (p : Writer B × Answer). returned kind p.1) h) ∙ silent,
  )

  check_record-Outcome :
      (body : Fields) (d : String) (w x w' : Writer B) (a : Answer)
      → IsKept w x
      → check_record lib moment kind body d x ≡ (w', a)
      → Outcome w w' a
  unfolding Outcome check_record append_record returned
  check_record-Outcome body d w x w' a kept h = elim (Option-cases (event_schema x.schema kind)) [
    | inl e ↦
        refused w x w' (provenance_error "unknown provenance event type") a kept refl (cc (e, h))
    | inr (schema, e) ↦ elim (List-cases (schema_errors lib (obj body) schema "$")) [
      | inl fine ↦ inl (body, cc (e, fine, written, h))
      | inr (problem, more, bad) ↦
          refused w (record x { sequence = x.sequence - 1 }) w'
            (provenance_error ("event does not match the schema: " <> join (problem ∷ more))) a
            (record { events = kept.events; previous = kept.previous; counted = kept.counted }) refl
            (cc (e, bad, h))
    ]
  ]

  event-Outcome :
      (w w' : Writer B) (a : Answer) → event lib moment kind fields w ≡ (w', a) → Outcome w w' a
  unfolding event record_event returned
  event-Outcome w w' a h =
      let same : IsKept w w = record { events = refl; previous = refl; counted = refl } in
      elim (Bool-cases (contains kind event_types)) [
        | inr unknown ↦
            refused w w w' (provenance_error "unknown provenance event type") a same refl
              (cc (unknown, h))
        | inl known ↦ elim (UrlCheck-cases (check_urls lib fields)) [
          | inr (inl bad) ↦
              refused w w w'
                (provenance_error "provenance must not record a URL with user-info credentials") a
                same refl (cc (known, bad, h))
          | inr (inr bad) ↦ refused w w w' other_error a same refl (cc (known, bad, h))
          | inl fine ↦ elim (Option-cases (digest lib (obj (undigested moment kind fields w)))) [
            | inl e ↦
                refused w (record w { sequence = w.sequence + 1 }) w'
                  (provenance_error "provenance records must not contain floats") a
                  (record { events = refl; previous = refl; counted = refl }) refl
                  (cc (known, fine, e, h))
            | inr (d, e) ↦
                check_record-Outcome
                  (set_field "event_digest" (str d) (undigested moment kind fields w)) d w
                  (record w { sequence = w.sequence + 1 }) w' a
                  (record { events = refl; previous = refl; counted = refl })
                  (cc (known, fine, e, h))
          ]
        ]
      ]

module _ {B : Type 0} (lib : Library B) where
  kept-IsLog :
      {entries : List (String × Fields)} {w w' : Writer B}
      → IsLog lib entries w
      → IsKept w w'
      → IsLog lib entries w'
  kept-IsLog log kept = record {
    lines = kept.events ∙ log.lines;
    previous = ap text_or_null kept.previous ∙ log.previous;
    counted = kept.counted ∙ log.counted;
  }

  event-IsLog :
      (call : EventCall B) (entries : List (String × Fields)) (w w' : Writer B) (a : Answer)
      → call.moment.write_fault ≡ none
      → IsLog lib entries w
      → event lib call.moment call.kind call.fields w ≡ (w', a)
      → IsLog lib (entries ++ returned call.kind a) w'
  unfolding returned Outcome
  event-IsLog call entries w w' a written log h =
      elim (event-Outcome lib call.moment call.kind call.fields written w w' a h) [
        | inl (whole, e) ↦ rw e (
            recorded-IsLog lib call.moment call.kind call.fields whole entries w w' log
              (h ∙ ap (λ (b : Answer). (w', b)) e))
        | inr (kept, silent) ↦ rw silent (rw (append-nil entries) (kept-IsLog log kept))
      ]

  record_all-IsLog_after :
      (calls : List (EventCall B)) (entries : List (String × Fields)) (w : Writer B)
      → All (λ call. call.moment.write_fault ≡ none) calls
      → IsLog lib entries w
      → IsLog lib (entries ++ (record_all lib calls w).1) (record_all lib calls w).0
  unfolding record_all
  record_all-IsLog_after [] entries w written log = rw (append-nil entries) log
  record_all-IsLog_after (call ∷ calls) entries w written log =
      let (next, a) = event lib call.moment call.kind call.fields w in
      subst (λ es. IsLog lib es (record_all lib calls next).0)
        (append_assoc entries (returned call.kind a) (record_all lib calls next).1)
        (record_all-IsLog_after calls (entries ++ returned call.kind a) next written.1
          (event-IsLog call entries w next a written.0 log refl))

  -- The writer is an append-only log. Whatever calls of `event` follow its opening, as long as each
  -- append reaches the file, the file holds exactly the records that the calls have returned, in their
  -- order, the next record will name the digest of the last of them, and the number of finalized
  -- events is theirs; a call that raises leaves no line.
  pub record_all-IsLog :
      (run_id session_id raw : String) (calls : List (EventCall B))
      → All (λ call. call.moment.write_fault ≡ none) calls
      → IsLog lib
          (record_all lib calls (opened lib run_id session_id raw)).1
          (record_all lib calls (opened lib run_id session_id raw)).0
  record_all-IsLog run_id session_id raw calls written =
      record_all-IsLog_after calls [] (opened lib run_id session_id raw) written
        (opened-IsLog lib run_id session_id raw)
