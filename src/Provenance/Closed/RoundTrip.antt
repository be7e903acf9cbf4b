-- ===== src/Provenance/Closed/RoundTrip.antt =====
-- A record set that `ProvenanceWriter` writes and closes is accepted by `verify`.
use tod_dl.Provenance.Schema.{signature_pattern}
use tod_dl.Provenance.Closed.Fits.{signed_summary-fits}
use tod_dl.Provenance.Schema.Rules.{hex_pattern}
use mathlib.Core.Path.{subst}
use tod_dl.Provenance.{Library, canonical_json, digest}
use tod_dl.Provenance.Writer.{
  Writer, Moment, Answer, recorded, provenance_error, other_error, event, opened, Closing, close,
  closing_fields, unsigned_summary, write_summary, undigested, base_fields,
}
use tod_dl.Provenance.Verifier.{Final, verify}
use tod_dl.Provenance.Recorded.{event-IsRecorded}
use tod_dl.Provenance.Whole.{IsProper, event-IsWhole}
use tod_dl.Provenance.Written.{ReadsBack}
use tod_dl.Provenance.Sound.{Records, step-IsSound, Records-fingerprint, Records-IsSound}
use tod_dl.Json.{Fields, str, obj, get_field, Json}
use tod_dl.Json.Equal.{has_float}
use tod_dl.Json.Dict.{
  set_field, has_field, is_ordered, is_ordered_dict, dict, update, all_above, get_field-set_field,
}
use tod_dl.Base.{
  ◌+◌, String, Bool, true, false, Option, none, some, List, [], ◌∷◌, ◌≡◌, refl, sym, ap, ◌∙◌, inl,
  inr, contains, Bool-cases, Option-cases, str_lt,
}
use tod_dl.Provenance.Closed.Accepts.{verify-left}
use tod_dl.Provenance.Closed.{signed_summary, finished, left_by, trusting, IsFitting}

-- What `write_summary` has done where it returns.
write_summary-written :
    {B : Type 0} (lib : Library B) (closing : Closing) (fault : Option (Option B)) (w w' : Writer B)
    → write_summary lib closing fault w ≡ (w', true)
    → (has_float (obj (unsigned_summary closing w)) ≡ false)
      × (canonical_json lib (obj (unsigned_summary closing w))
          ≡ some (lib.dumps (obj (unsigned_summary closing w))))
      × (w' ≡ finished lib closing w)
unfolding write_summary canonical_json signed_summary finished
write_summary-written {B = B} lib closing fault w w' h =
    elim (Bool-cases (has_float (obj (unsigned_summary closing w)))) [
      | inl bad ↦ cc (bad, h)
      | inr fine ↦ elim (Option-cases fault) [
        | inr (left, e) ↦ cc (fine, e, h)
        | inl e ↦ (
          fine,
          rw fine refl,
          (let e' : (
            record w { summary = some (lib.dumps (obj (signed_summary lib closing w))) },
            true,
          )
                  ≡ (w', true) =
                cc (fine, e, h) in
              sym (ap (λ (p : Writer B × Bool). p.0) e')),
        )
      ]
    ]

answered :
    {B : Type 0} (lib : Library B) (closing : Closing) (fault : Option (Option B)) (w' : Writer B)
    (a : Writer B × Answer)
    → elim a.1 [
      | recorded fields ↦ write_summary lib closing fault a.0
      | provenance_error message ↦ (a.0, false)
      | other_error ↦ (a.0, false)
    ]
      ≡ (w', true)
    → (closed : Writer B) × (whole : Fields) × (a ≡ (closed, recorded whole))
      × (write_summary lib closing fault closed ≡ (w', true))
answered lib closing fault w' (w, recorded whole) h = (w, whole, refl, h)
answered lib closing fault w' (w, provenance_error message) h = cc
answered lib closing fault w' (w, other_error) h = cc

-- The parts of a `close` that returns: the event that closes the run, and the summary.
close-parts :
    {B : Type 0} (lib : Library B) (moment : Moment B) (closing : Closing)
    (fault : Option (Option B)) (w w' : Writer B)
    → close lib moment closing fault w ≡ (w', true)
    → (closed : Writer B) × (whole : Fields) × (event lib moment "run_closed"
          (closing_fields moment closing)
          w
        ≡ (closed, recorded whole))
      × (write_summary lib closing fault closed ≡ (w', true))
unfolding close
close-parts lib moment closing fault w w' h =
    answered lib closing fault w' (event lib moment "run_closed" (closing_fields moment closing) w)
      h

closing-IsProper :
    {B : Type 0} (moment : Moment B) (closing : Closing)
    → is_ordered closing.durable_outcome_counts ≡ true
    → IsProper (closing_fields moment closing)
unfolding closing_fields dict set_field is_ordered_dict is_ordered all_above str_lt has_field
closing-IsProper moment closing h = record {
  in_order = rw h refl;
  no_common = (refl, (refl, (refl, (refl, (refl, (refl, (refl, (refl, (refl, tt)))))))));
}

-- The record that closes the run holds the counts.
closing-counts :
    {B : Type 0} (moment : Moment B) (closing : Closing) (w : Writer B) (d : String)
    → get_field "durable_outcome_counts" (
        set_field "event_digest"
          (str d)
          (undigested moment "run_closed" (closing_fields moment closing) w))
      ≡ closing.durable_outcome_counts
unfolding undigested closing_fields dict set_field str_lt update
closing-counts moment closing w d =
    get_field-set_field "event_digest" "durable_outcome_counts" (str d)
      (undigested moment "run_closed" (closing_fields moment closing) w)
    ∙ get_field-set_field "durable_outcome_counts" "durable_outcome_counts"
        closing.durable_outcome_counts
        (set_field "closed_at" (str moment.now) (
          set_field "close_reason" (str closing.close_reason)
            (base_fields moment "run_closed" (w.sequence + 1) w)))

-- What the library and the key do: `json.loads` reads back what `json.dumps` wrote, `hexdigest` and the
-- fingerprint are 64 digits in hexadecimal, and the signatures of the key are valid texts of 86
-- characters.
pub record IsWorking {B : Type 0} (lib : Library B) (raw : String) : Type 0 where
  pub reads_back : ReadsBack lib
  pub hex : (bytes : B) → lib.is_hex_digest (lib.sha256_hex bytes) ≡ true
  pub digest_form : (bytes : B) → lib.search hex_pattern (lib.sha256_hex bytes) ≡ true
  pub key_form : lib.search hex_pattern (lib.fingerprint raw) ≡ true
  pub signature_form : (bytes : B) → lib.search signature_pattern (lib.signature bytes) ≡ true
  pub valid :
      (bytes : B)
      → (lib.decode_fault (lib.signature bytes) ≡ none)
        × (lib.signature_fault raw (lib.signature bytes) bytes ≡ none)

digest-form :
    {B : Type 0} (lib : Library B)
    → ((b : B) → lib.search hex_pattern (lib.sha256_hex b) ≡ true)
    → (v : Json) (d : String) → digest lib v ≡ some d
    → lib.search hex_pattern d ≡ true
unfolding digest canonical_json
digest-form lib form v d h = elim (Bool-cases (has_float v)) [
  | inl bad ↦ cc (bad, h)
  | inr fine ↦ cc (fine, h, form (lib.dumps v))
]

finished-IsFitting :
    {B : Type 0} (lib : Library B) (closing : Closing) (w : Writer B)
    → IsFitting lib closing (finished lib closing w)
    → IsFitting lib closing w
unfolding finished signed_summary unsigned_summary
finished-IsFitting lib closing w f = record {
  is_named = f.is_named;
  is_session = f.is_session;
  digests = f.digests;
  has_digests = f.has_digests;
  digests_ordered = f.digests_ordered;
  settings = f.settings;
  has_settings = f.has_settings;
  settings_ordered = f.settings_ordered;
  selected = f.selected;
  has_selected = f.has_selected;
  counts = f.counts;
  complete = f.complete;
  has_counts = f.has_counts;
  counts_ordered = f.counts_ordered;
  are_counted = f.are_counted;
  has_complete = f.has_complete;
  covers = f.covers;
}

module _ {B : Type 0} (lib : Library B) (destination : String → Final)
    (run_id session_id raw : String) (works : IsWorking lib raw) where
  closed-accepted :
      (moment : Moment B) (closing : Closing) (ids : List String) (w closed : Writer B)
      (whole : Fields)
      → Records lib destination (opened lib run_id session_id raw) ids w
      → contains moment.event_id ids ≡ false
      → IsFitting lib closing closed
      → has_float (obj (unsigned_summary closing closed)) ≡ false
      → canonical_json lib (obj (unsigned_summary closing closed))
        ≡ some (lib.dumps (obj (unsigned_summary closing closed)))
      → event lib moment "run_closed" (closing_fields moment closing) w ≡ (closed, recorded whole)
      → verify lib (left_by lib (finished lib closing closed) destination) (trusting raw) ≡ some []
  unfolding is_ordered
  closed-accepted moment closing ids w closed whole run fresh f fine c e =
      let fields = closing_fields moment closing in
      let rec = event-IsRecorded lib moment "run_closed" fields w closed whole e in
      let proper =
        closing-IsProper moment closing (ap is_ordered f.has_counts ∙ f.counts_ordered) in
      let (newest, sound) =
        Records-IsSound lib works.reads_back works.hex destination run_id session_id raw run in
      let step =
        step-IsSound lib works.reads_back works.hex destination moment "run_closed" fields whole w
          closed ids newest sound rec proper fresh (λ h. cc (h)) in
      let key =
        Records-fingerprint lib works.reads_back works.hex destination run_id session_id raw run in
      let same_key = ap (λ (x : Writer B). x.fingerprint) rec.after ∙ key in
      let fits =
        signed_summary-fits lib closing closed f rec.event_digest
          (ap (λ (x : Writer B). x.previous_digest) rec.after)
          (digest-form lib works.digest_form _ rec.event_digest rec.digested)
          (ap (lib.search hex_pattern) step.schema_hash ∙ works.digest_form _)
          (ap (lib.search hex_pattern) same_key ∙ works.key_form) works.signature_form in
      verify-left lib closing closed f raw (sym same_key) (moment.event_id ∷ ids) whole destination
        step works.reads_back works.valid c fine fits
        (ap (get_field "event_type") rec.whole_lem
          ∙ (event-IsWhole lib moment "run_closed" rec.event_digest fields w proper
              rec.digested).event_type)
        (ap (get_field "durable_outcome_counts") rec.whole_lem
          ∙ closing-counts moment closing w rec.event_digest)

  -- A run records events, each under a new identifier, with fields in order that name none of the
  -- writer's own, and, where it is finalized, true to what was checked and with its file in place. Then
  -- `close` returns, with a new identifier and values of the types that the summary has, where the run
  -- and the session have names of the right form and the counts hold the finalized items. `verify`
  -- finds no error in the record that this leaves, with the writer's key, if `json` reads back what it
  -- wrote, digests are hexadecimal, and the signatures of the key are valid texts of 86 characters.
  pub close-verify :
      {ids : List String} {w : Writer B}
      → Records lib destination (opened lib run_id session_id raw) ids w
      → (moment : Moment B) (closing : Closing) (fault : Option (Option B)) (w' : Writer B)
      → contains moment.event_id ids ≡ false
      → IsFitting lib closing w'
      → close lib moment closing fault w ≡ (w', true)
      → verify lib (left_by lib w' destination) (trusting raw) ≡ some []
  close-verify {ids = ids} {w = w} run moment closing fault w' fresh f h =
      let (closed, whole, e, written) = close-parts lib moment closing fault w w' h in
      let (fine, c, after) = write_summary-written lib closing fault closed w' written in
      ap (λ x. verify lib (left_by lib x destination) (trusting raw)) after
      ∙ closed-accepted moment closing ids w closed whole run fresh
          (finished-IsFitting lib closing closed (subst (IsFitting lib closing) after f)) fine c e
