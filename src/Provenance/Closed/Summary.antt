-- ===== src/Provenance/Closed/Summary.antt =====
-- The summary that a writer signs passes each check that `verify` makes of it.
use tod_dl.Provenance.{Library, canonical_json, report, is_subset}
use tod_dl.Provenance.Schema.{summary_fields}
use tod_dl.Provenance.Writer.{Writer, Closing, unsigned_summary, text_or_null}
use tod_dl.Provenance.Events.{same_names, is_kind}
use tod_dl.Provenance.Verifier.{
  content, Final, load_json, identity_errors, key_errors, is_other, signature_errors,
  check_signature, fault_errors, closing_errors, is_closed_by, count_errors, int_of,
}
use tod_dl.Provenance.Whole.{any_float_in-set_field}
use tod_dl.Provenance.Written.{ReadsBack, load-dumps}
use tod_dl.Provenance.Accepted.{
  clean_append, text_or_null-float, no_fault, no_faults, silent, is_not-false, same_refl,
}
use tod_dl.Provenance.Sound.{IsSound}
use tod_dl.Json.{Fields, end, field, int, str, obj, get_field}
use tod_dl.Json.Equal.{has_float, any_float_in}
use tod_dl.Json.Dict.{
  set_field, names, has_field, is_ordered, is_ordered_dict, dict, all_above, remove-set_field,
  set_field-is_ordered_dict,
}
use tod_dl.Base.{
  or_parts, if_elim, neither_holds, ℕ, ◌+◌, ◌≤◌, String, Bool, true, false, not, ◌&&◌, none, some,
  List, [], ◌≡◌, refl, sym, ap, ◌∙◌, inl, inr, arith, str_eq, all, contains, length, le→leb,
  both_hold, Option-cases, pos, str_lt,
}
use tod_dl.Provenance.Closed.{signed_summary, trusting, IsFitting}

pub has_float-get :
    (key : String) (fields : Fields)
    → any_float_in fields ≡ false
    → has_float (get_field key fields) ≡ false
unfolding has_float get_field
has_float-get key end h = refl
has_float-get key (field name v fields) h =
    let (here, rest) = or_parts _ _ h in
    if_elim (λ x. has_float x ≡ false) (str_eq name key) _ _ (λ _. here)
      (λ _. has_float-get key fields rest)

pub has_of_int :
    (key : String) (fields : Fields) (n : ℕ)
    → get_field key fields ≡ int (pos n)
    → has_field key fields ≡ true
unfolding get_field has_field
has_of_int key end n h = cc
has_of_int key (field name v fields) n h = ground (arith, has_of_int key fields n)

-- Counts that hold all finalized events are no error.
pub count_errors-covered :
    {B : Type 0} (lib : Library B) (counts : Fields) (finals n complete : ℕ)
    → finals ≡ n
    → get_field "complete" counts ≡ int (pos complete)
    → n ≤ complete
    → count_errors lib finals (obj counts) (int (pos n)) ≡ some []
unfolding count_errors int_of has_float report
count_errors-covered lib counts finals n complete e c h =
    rw
      (
        same_refl lib (int (pos n)) (int (pos finals)) refl (ap (λ (m : ℕ). int (pos m)) (sym e)),
        has_of_int "complete" counts complete c,
        c,
      )
      (ap
        (λ (b : Bool).
          some
            (report (not b) "summary.json: completed-item count does not match finalized events"))
        (le→leb (n + 0) (complete + 0) (omega arith)))

all_closed : (b : Bool) {c : Bool} → c ≡ true → b && not c ≡ false
all_closed b h = ground arith

module _ {B : Type 0} (lib : Library B) (closing : Closing) (w : Writer B)
    (f : IsFitting lib closing w) where
  pub unsigned-is_ordered : is_ordered_dict (unsigned_summary closing w) ≡ true
  unfolding unsigned_summary dict set_field is_ordered is_ordered_dict all_above str_lt text_or_null
  unsigned-is_ordered = elim (Option-cases w.previous_digest) [
    | inl e ↦
        rw
          (
            e, f.has_digests, f.has_settings, f.has_selected, f.has_counts, f.counts_ordered,
            f.digests_ordered, f.settings_ordered,
          )
          refl
    | inr (d, e) ↦
        rw
          (
            e, f.has_digests, f.has_settings, f.has_selected, f.has_counts, f.counts_ordered,
            f.digests_ordered, f.settings_ordered,
          )
          refl
  ]

  pub unsigned-no_signature : has_field "signature" (unsigned_summary closing w) ≡ false
  unfolding unsigned_summary dict set_field has_field str_lt
  unsigned-no_signature = refl

  pub signed-names : same_names (names (signed_summary lib closing w)) summary_fields ≡ true
  unfolding signed_summary unsigned_summary dict set_field names same_names str_lt is_subset all
      contains
  signed-names = refl

  pub summary-no_float :
      has_float (obj (unsigned_summary closing w)) ≡ false
      → has_float (obj (signed_summary lib closing w)) ≡ false
  unfolding signed_summary has_float
  summary-no_float h = any_float_in-set_field "signature" _ (unsigned_summary closing w) h

  pub summary-load :
      ReadsBack lib
      → has_float (obj (unsigned_summary closing w)) ≡ false
      → load_json lib "summary.json" (content (lib.dumps (obj (signed_summary lib closing w))))
        ≡ (obj (signed_summary lib closing w), [])
  unfolding load_json signed_summary is_ordered
  summary-load reads h = cc (
      load-dumps lib reads (obj (signed_summary lib closing w))
        (set_field-is_ordered_dict "signature" _ (unsigned_summary closing w) refl
          unsigned-is_ordered)
        (summary-no_float h))

  pub identity_errors-nil :
      (schema : B)
      → w.schema_sha256 ≡ lib.sha256_hex schema
      → identity_errors lib w.run_id w.session_id (content schema) (signed_summary lib closing w)
        ≡ []
  unfolding identity_errors signed_summary unsigned_summary dict set_field get_field str_lt
      has_float
  identity_errors-nil schema e =
      clean_append
        (clean_append (silent _ _ (is_not-false signed-names)) (
          silent _ _ (
            neither_holds _ _ (is_not-false (same_refl lib (str w.run_id) (str w.run_id) refl refl))
              (is_not-false (same_refl lib (str w.session_id) (str w.session_id) refl refl)))))
        (silent _ _ (
          is_not-false (
            same_refl lib (str w.schema_sha256) (str (lib.sha256_hex schema)) refl
              (ap (λ (x : String). str x) e))))

  module _ (raw : String) (key : lib.fingerprint raw ≡ w.fingerprint) where
    pub key_errors-nil : key_errors lib (trusting raw) (signed_summary lib closing w) ≡ []
    unfolding key_errors trusting signed_summary unsigned_summary dict set_field get_field str_lt
        has_float is_other
    key_errors-nil =
        clean_append
          (silent _ _ (
            is_not-false (
              same_refl lib (str w.fingerprint) (str (lib.fingerprint raw)) refl
                (ap (λ (x : String). str x) (sym key)))))
          (silent _ _ refl)

    pub signature-has : has_field "signature" (signed_summary lib closing w) ≡ true
    unfolding signed_summary unsigned_summary dict set_field has_field str_lt
    signature-has = refl

    pub signature-get :
        get_field "signature" (signed_summary lib closing w)
        ≡ str (lib.signature (lib.dumps (obj (unsigned_summary closing w))))
    unfolding signed_summary unsigned_summary dict set_field get_field str_lt
    signature-get = refl

    pub check_signature-nil :
        ((bytes : B)
          → (lib.decode_fault (lib.signature bytes) ≡ none)
            × (lib.signature_fault raw (lib.signature bytes) bytes ≡ none))
        → canonical_json lib (obj (unsigned_summary closing w))
          ≡ some (lib.dumps (obj (unsigned_summary closing w)))
        → check_signature lib raw
            (str (lib.signature (lib.dumps (obj (unsigned_summary closing w)))))
            (unsigned_summary closing w)
          ≡ some []
    unfolding check_signature fault_errors
    check_signature-nil valid c =
        let (decoded, right) = valid (lib.dumps (obj (unsigned_summary closing w))) in
        cc (c, decoded, right)

    pub signature_errors-nil :
        ((bytes : B)
          → (lib.decode_fault (lib.signature bytes) ≡ none)
            × (lib.signature_fault raw (lib.signature bytes) bytes ≡ none))
        → canonical_json lib (obj (unsigned_summary closing w))
          ≡ some (lib.dumps (obj (unsigned_summary closing w)))
        → signature_errors lib (trusting raw) (signed_summary lib closing w) ≡ some []
    unfolding signature_errors trusting signed_summary
    signature_errors-nil valid c = cc (
      signature-has,
      signature-get,
      remove-set_field "signature"
          (str (lib.signature (lib.dumps (obj (unsigned_summary closing w)))))
          (unsigned_summary closing w) unsigned-no_signature,
      check_signature-nil valid c,
    )

  -- The last event closes the run with the counts of the summary.
  pub is_closed :
      (ids : List String) (whole : Fields) (destination : String → Final)
      (s : IsSound lib destination w ids (some (obj whole)))
      → get_field "event_type" whole ≡ str "run_closed"
      → get_field "durable_outcome_counts" whole ≡ closing.durable_outcome_counts
      → has_float (obj (unsigned_summary closing w)) ≡ false
      → is_closed_by lib (signed_summary lib closing w) s.last.last_event ≡ true
  unfolding is_closed_by signed_summary unsigned_summary dict set_field get_field str_lt has_float
  is_closed ids whole destination s kind counts fine = rw s.ends_with (
      both_hold _ _ (ap (is_kind "run_closed") kind) (
        same_refl lib _ closing.durable_outcome_counts
          (has_float-get "durable_outcome_counts" (unsigned_summary closing w) fine) counts))

  pub closing_errors-nil :
      (ids : List String) (whole : Fields) (destination : String → Final)
      → (s : IsSound lib destination w ids (some (obj whole)))
      → get_field "event_type" whole ≡ str "run_closed"
      → get_field "durable_outcome_counts" whole ≡ closing.durable_outcome_counts
      → has_float (obj (unsigned_summary closing w)) ≡ false
      → closing_errors lib (signed_summary lib closing w) w.events s.last ≡ []
  unfolding closing_errors signed_summary unsigned_summary dict set_field get_field str_lt has_float
  closing_errors-nil ids whole destination s kind counts fine =
      no_fault _
        (silent _ _ (
          is_not-false (
            same_refl lib (int (pos w.sequence)) (int (pos (length w.events))) refl
              (ap (λ (n : ℕ). int (pos n)) s.sequence))))
        (no_fault _
          (silent _ _ (
            is_not-false (
              same_refl lib (text_or_null w.previous_digest) (text_or_null s.last.previous)
                (text_or_null-float s.last.previous) (ap text_or_null (sym s.previous)))))
          (no_fault _
            (silent _ _ (all_closed _ (is_closed ids whole destination s kind counts fine)))
            no_faults))

  pub count_errors-nil :
      (finals : ℕ)
      → finals ≡ w.finalized_count
      → count_errors lib finals
          (get_field "durable_outcome_counts" (signed_summary lib closing w))
          (get_field "session_finalized_count" (signed_summary lib closing w))
        ≡ some []
  unfolding count_errors signed_summary unsigned_summary dict set_field get_field str_lt
  count_errors-nil finals e =
      ap (λ v. count_errors lib finals v (int (pos w.finalized_count))) f.has_counts
      ∙ count_errors-covered lib f.counts finals w.finalized_count f.complete e f.has_complete
          f.covers
