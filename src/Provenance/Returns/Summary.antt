-- ===== src/Provenance/Returns/Summary.antt =====
-- Where `verify` of src/verify_provenance.py returns a list of errors, and is not left by an exception.
use tod_dl.Provenance.Returns.{
  is_text_or_absent, IsReadableLine, remove-has_float, some-of, final_errors-returns,
  check_lines-returns,
}
use tod_dl.Provenance.Verifier.{
  load_json, start_errors, file_faults, verify, verify_at, verify_summary, lines_of, dict_of,
  Record,
}
use tod_dl.Provenance.Verifier.{Trust, unreadable, content}
use tod_dl.Provenance.Verifier.{check_signature, count_errors, int_of, is_below, signature_errors}
use tod_dl.Provenance.Events.{nothing_read}
use tod_dl.Json.Dict.{has_field, remove}
use tod_dl.Json.Equal.{has_float, any_float_in}
use tod_dl.Provenance.{Library, canonical_json, same}
use tod_dl.Json.{null, Fields, Json, obj, text_of, get_field, str, float, int, boolean}
use tod_dl.Base.{
  is_some, ℕ, String, true, false, some, ◌≡◌, refl, inl, inr, All, length, Bool-cases, Option-cases,
  if_elim, if◌then◌else◌, ℤ, pos, signed,
}

-- `fields.get(name, default)`
present-text :
    (name default : String) (fields : Fields)
    → is_text_or_absent name fields ≡ true
    → is_some (text_of (if has_field name fields then get_field name fields else str default))
      ≡ true
unfolding is_text_or_absent text_of
present-text name default fields h =
    if_elim (λ v. is_some (text_of v) ≡ true) (has_field name fields) (get_field name fields)
      (str default) (λ there. cc (there, h)) (λ _. refl)

-- A summary without floats, whose signature is a text and whose number of complete items is a number,
-- where they are there.
pub record IsReadableSummary (summary : Fields) : Type 0 where
  pub no_float : any_float_in summary ≡ false
  pub signature : is_text_or_absent "signature" summary ≡ true
  pub complete :
      (counts : Fields)
      → get_field "durable_outcome_counts" summary ≡ obj counts
      → has_field "complete" counts ≡ true
      → is_some (int_of (get_field "complete" counts)) ≡ true

module _ {B : Type 0} (lib : Library B) where
  is_below-returns :
      (n : ℤ) (v : Json) → is_some (int_of v) ≡ true → is_some (is_below lib n v) ≡ true
  unfolding is_below int_of
  is_below-returns n (float x) h = refl
  is_below-returns n null h = cc
  is_below-returns n (int m) h = refl
  is_below-returns n (boolean b) h = refl
  is_below-returns n v h = cc

  count_errors-returns :
      (finals : ℕ) (counts session : Json)
      → ((values : Fields)
          → counts ≡ obj values
          → has_field "complete" values ≡ true
          → is_some (int_of (get_field "complete" values)) ≡ true)
      → is_some (count_errors lib finals counts session) ≡ true
  unfolding count_errors
  count_errors-returns finals (obj values) session h = elim (Option-cases (int_of session)) [
    | inl e ↦ cc (e)
    | inr (n, e) ↦ elim (Bool-cases (same lib (int n) (int (pos finals)))) [
      | inr other ↦ cc (e, other)
      | inl equal ↦
          let below =
            if_elim (λ v. is_some (is_below lib n v) ≡ true) (has_field "complete" values)
              (get_field "complete" values) (int (pos 0))
              (λ there. is_below-returns n (get_field "complete" values) (h values refl there))
              (λ absent. is_below-returns n (int (pos 0)) refl) in
          let (b, f) = some-of _ below in cc (e, equal, f)
    ]
  ]
  count_errors-returns finals null session h = refl
  count_errors-returns finals v session h = refl

  check_signature-returns :
      (raw : String) (v : Json) (unsigned : Fields)
      → is_some (text_of v) ≡ true
      → any_float_in unsigned ≡ false
      → is_some (check_signature lib raw v unsigned) ≡ true
  unfolding check_signature text_of canonical_json has_float
  check_signature-returns raw (str signature) unsigned h k =
      elim (Option-cases (lib.decode_fault signature)) [
        | inl e ↦ cc (e, k)
        | inr (message, e) ↦ cc (e)
      ]
  check_signature-returns raw null unsigned h k = cc
  check_signature-returns raw v unsigned h k = cc

  signature_errors-returns :
      (trust : Trust) (summary : Fields)
      → IsReadableSummary summary
      → is_some (signature_errors lib trust summary) ≡ true
  unfolding signature_errors
  signature_errors-returns trust summary s = elim (Option-cases trust.public_key) [
    | inl e ↦ cc (e)
    | inr (unreadable message, e) ↦ cc (e)
    | inr (content raw, e) ↦
        let checked =
          check_signature-returns raw
            (if has_field "signature" summary then get_field "signature" summary else str "")
            (remove "signature" summary) (present-text "signature" "" summary s.signature)
            (remove-has_float "signature" summary s.no_float) in
        cc (e, checked)
  ]

  pub verify-returns :
      (files : Record B) (trust : Trust)
      → ((summary : Fields)
          → dict_of (load_json lib "summary.json" files.summary).0 ≡ some summary
          → IsReadableSummary summary)
      → All (IsReadableLine lib) (lines_of files.events)
      → is_some (verify lib files trust) ≡ true
  unfolding verify verify_at verify_summary nothing_read
  verify-returns files trust readable lines = elim (Option-cases files.path) [
    | inl e ↦ cc (e)
    | inr (place, e) ↦
        elim (Option-cases (dict_of (load_json lib "summary.json" files.summary).0)) [
          | inl f ↦ cc (e, f)
          | inr (summary, f) ↦
              let s = readable summary f in
              let (signed, g) = some-of _ (signature_errors-returns trust summary s) in
              let (r, k, finals) =
                check_lines-returns lib place.0 place.1 1 (lines_of files.events)
                  (nothing_read (
                    start_errors lib place.0 place.1 files trust summary (file_faults lib files)
                      signed))
                  lines tt in
              let (counted, c) = some-of _ (
                count_errors-returns (length r.finals) (get_field "durable_outcome_counts" summary)
                  (get_field "session_finalized_count" summary) s.complete) in
              let (undelivered, d) =
                some-of _ (final_errors-returns lib files.destination r.finals finals) in
              cc (e, f, g, k, c, d)
        ]
  ]
