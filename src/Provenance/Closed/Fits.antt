-- ===== src/Provenance/Closed/Fits.antt =====
-- The summary that a writer signs fits the schema of summaries.
use tod_dl.Provenance.Schema.{signature_pattern, summary_schema}
use tod_dl.Provenance.Accepted.{clean_append, silent, is_not-false}
use tod_dl.Provenance.Writer.{Closing, Writer, unsigned_summary, text_or_null}
use tod_dl.Provenance.Closed.{are_counts, IsFitting, signed_summary}
use tod_dl.Json.Dict.{dict, set_field, has_field}
use tod_dl.Provenance.Schema.Rules.{
  hex, counts, hex_pattern, non_empty, nullable_hex, typed, with_pattern, uuid, uuid_pattern,
}
use tod_dl.Json.{
  end, null, nil, cons, Fields, Items, Json, int, cons, get_field, get, field, obj, arr, str,
  items_of,
}
use tod_dl.Json.Equal.{eq_json, eq_number}
use tod_dl.Provenance.Schema.Rules.{at_least}
use tod_dl.Provenance.{Library, report}
use tod_dl.Provenance.Schema.Errors.{
  rule_of, free, schema_errors, items_errors, has_type, fields_errors,
}
use tod_dl.Base.{
  ℕ, ◌+◌, String, true, none, some, [], ◌∷◌, ◌≡◌, refl, ap, ◌∙◌, arith, leb, pos, negsuc, ◌<>◌,
  str_lt, neither_holds,
}

-- A schema without `items`.
items_errors-free :
    {B : Type 0} (lib : Library B) (items : Items) (place : String) (n : ℕ)
    → items_errors lib items none place n ≡ []
unfolding schema_errors
items_errors-free lib nil place n = refl
items_errors-free lib (cons v items) place n = items_errors-free lib items place (n + 1)

-- A schema without `properties` and `additionalProperties`.
fields_errors-free :
    {B : Type 0} (lib : Library B) (fields : Fields) (schema : Json) (place : String)
    → ((name : String) → rule_of name schema ≡ free)
    → fields_errors lib fields schema place ≡ []
unfolding schema_errors
fields_errors-free lib end schema place h = refl
fields_errors-free lib (field name v fields) schema place h =
    cc (h name, fields_errors-free lib fields schema place h)

leb-zero : (n : ℕ) → leb 0 n ≡ true
leb-zero n = ground arith

leb_refl : (n : ℕ) → leb n n ≡ true
leb_refl n = ground arith

count-fits :
    {B : Type 0} (lib : Library B) (n : ℕ) (place : String)
    → schema_errors lib (int (pos n)) (at_least 0) place ≡ []
unfolding schema_errors at_least dict set_field str_lt has_field get_field report has_type get
count-fits lib n place =
    clean_append
      (silent _ _
        (neither_holds _ _ (is_not-false (leb-zero (n + 0))) (is_not-false (leb_refl (n + 0)))))
      refl

counts-nil :
    {B : Type 0} (lib : Library B) (values : Fields) (place : String)
    → are_counts values ≡ true
    → fields_errors lib values counts place ≡ []
unfolding schema_errors counts at_least dict set_field str_lt has_field get_field report get
    are_counts
counts-nil lib end place h = refl
counts-nil lib (field name (int (pos n)) values) place h =
    clean_append (count-fits lib n (place <> "." <> name)) (counts-nil lib values place h)
counts-nil lib (field name (int (negsuc n)) values) place h = cc
counts-nil lib (field name null values) place h = cc
counts-nil lib (field name v values) place h = cc

counts-fit :
    {B : Type 0} (lib : Library B) (values : Fields) (place : String)
    → are_counts values ≡ true
    → schema_errors lib (obj values) counts place ≡ []
unfolding schema_errors counts dict set_field str_lt has_field get_field report get
counts-fit lib values place h = counts-nil lib values place h

text-fits :
    {B : Type 0} (lib : Library B) (pattern s place : String)
    → lib.search pattern s ≡ true
    → schema_errors lib (str s) (with_pattern pattern) place ≡ []
unfolding schema_errors with_pattern dict set_field str_lt has_field get_field report get
text-fits lib pattern s place h =
    clean_append
      (clean_append (silent _ _ (is_not-false h))
        (silent _ _ (is_not-false (leb-zero (lib.text_length s + 0)))))
      refl

digest-fits :
    {B : Type 0} (lib : Library B) (s place : String)
    → lib.search hex_pattern s ≡ true
    → schema_errors lib (str s) nullable_hex place ≡ []
unfolding schema_errors nullable_hex items_of dict set_field str_lt has_field get_field report get
digest-fits lib s place h =
    clean_append
      (clean_append (silent _ _ (is_not-false h))
        (silent _ _ (is_not-false (leb-zero (lib.text_length s + 0)))))
      refl

name-fits :
    {B : Type 0} (lib : Library B) (s place : String)
    → leb 1 (lib.text_length s) ≡ true
    → schema_errors lib (str s) non_empty place ≡ []
unfolding schema_errors non_empty dict set_field str_lt has_field get_field report get
name-fits lib s place h =
    clean_append (silent _ _ (is_not-false (ap (leb 1) (omega arith) ∙ h))) refl

list-fits :
    {B : Type 0} (lib : Library B) (items : Items) (place : String)
    → schema_errors lib (arr items) (typed "array") place ≡ []
unfolding schema_errors typed dict set_field str_lt has_field get_field report get
list-fits lib items place = items_errors-free lib items place 0

settings-fit :
    {B : Type 0} (lib : Library B) (fields : Fields) (place : String)
    → schema_errors lib (obj fields) (typed "object") place ≡ []
unfolding schema_errors typed dict set_field str_lt has_field get_field report get
settings-fit lib fields place = fields_errors-free lib fields (typed "object") place (λ name. refl)

same-fits :
    {B : Type 0} (lib : Library B) (schema : Json) {v w : Json} (place : String)
    → v ≡ w
    → schema_errors lib w schema place ≡ []
    → schema_errors lib v schema place ≡ []
same-fits lib schema place e h = ap (λ x. schema_errors lib x schema place) e ∙ h

version-fits :
    {B : Type 0} (lib : Library B) (place : String)
    → schema_errors lib (int (pos 1)) (obj (dict (("const", int (pos 1)) ∷ []))) place ≡ []
unfolding schema_errors eq_json eq_number dict set_field str_lt has_field get_field report get
version-fits lib place = refl

module _ {B : Type 0} (lib : Library B) (closing : Closing) (w : Writer B)
    (f : IsFitting lib closing w) (last : String) (previous : w.previous_digest ≡ some last)
    (last_form : lib.search hex_pattern last ≡ true)
    (schema_form : lib.search hex_pattern w.schema_sha256 ≡ true)
    (key_form : lib.search hex_pattern w.fingerprint ≡ true)
    (signature_form : (bytes : B) → lib.search signature_pattern (lib.signature bytes) ≡ true) where
  pub signed_summary-fits :
      schema_errors lib (obj (signed_summary lib closing w)) summary_schema "$" ≡ []
  unfolding schema_errors summary_schema signed_summary unsigned_summary counts hex uuid
      with_pattern non_empty nullable_hex typed at_least dict set_field str_lt has_field get_field
      report get text_or_null
  signed_summary-fits =
      clean_append
        (same-fits lib counts _ f.has_counts
          (counts-fit lib f.counts "$.durable_outcome_counts" f.are_counted))
        (clean_append (count-fits lib w.sequence "$.event_count") (
          clean_append
            (same-fits lib nullable_hex _ (ap text_or_null previous)
              (digest-fits lib last "$.final_event_digest" last_form))
            (clean_append
              (same-fits lib (typed "array") _ f.has_digests
                (list-fits lib f.digests "$.queue_input_digests"))
              (clean_append (name-fits lib w.run_id "$.run_id" f.is_named) (
                clean_append
                  (text-fits lib hex_pattern w.schema_sha256 "$.schema_sha256" schema_form)
                  (clean_append (version-fits lib "$.schema_version") (
                    clean_append
                      (same-fits lib (at_least 0) _ f.has_selected
                        (count-fits lib f.selected "$.selected_item_count"))
                      (clean_append
                        (same-fits lib (typed "object") _ f.has_settings
                          (settings-fit lib f.settings "$.selection_settings"))
                        (clean_append (count-fits lib w.finalized_count "$.session_finalized_count")
                          (clean_append
                            (text-fits lib uuid_pattern w.session_id "$.session_id" f.is_session)
                            (clean_append
                              (text-fits lib signature_pattern
                                (lib.signature (lib.dumps (obj (unsigned_summary closing w))))
                                "$.signature" (signature_form _))
                              (clean_append
                                (text-fits lib hex_pattern w.fingerprint "$.signing_key_fingerprint"
                                  key_form)
                                refl))))))))))))
