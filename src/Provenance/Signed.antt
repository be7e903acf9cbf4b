-- ===== src/Provenance/Signed.antt =====
-- What a record set that verifies promises: its summary fixes its events, and its finalized files are
-- in place. A summary that is no dictionary promises nothing.
use mathlib.Core.Path.{subst}
use mathlib.Core.List.{append-nil, append_assoc}
use tod_dl.Provenance.{Library, Parsed, value, same, relative_text}
use tod_dl.Provenance.Events.{load, Reading, is_kind, nothing_read}
use tod_dl.Provenance.Lines.{
  IsPython, nil_parts, concat-nil, report-nil, not-false, same-text, Parsed-cases,
  same-text_or_null, same-numbers,
}
use tod_dl.Provenance.Chain.{
  IsChain, done, link, check_lines-IsChain, IsChain-unique, NoCollision, text_or_null-inj,
}
use tod_dl.Provenance.Verified.{verify-IsVerified}
use tod_dl.Provenance.Verifier.{
  Record, Trust, Final, present, missing, fault, verify, load_json, dict_of, lines_of, final_errors,
  event_errors, safe_path, file_errors,
}
use tod_dl.Json.{Json, null, Fields, int, str, obj, get_field, text_of}
use tod_dl.Json.Dict.{has_field}
use tod_dl.Base.{
  ℕ, String, true, Option, none, some, List, [], ◌∷◌, ◌++◌, map, ◌≡◌, refl, sym, ap, ◌∙◌, inl, inr,
  All, Bool-cases, Option-cases, if◌then◌else◌, pos,
}

module _ {B : Type 0} (lib : Library B) (python : IsPython lib) where
  -- Where two record sets have the same summary, a dictionary, and `verify` accepts both, then their
  -- lines hold the same events in the same order, if no two different events share a digest, and
  -- floats compare as Python's do.
  pub verify-fixes :
      (files files' : Record B) (trust trust' : Trust) (summary : Fields)
      → dict_of (load_json lib "summary.json" files.summary).0 ≡ some summary
      → dict_of (load_json lib "summary.json" files'.summary).0 ≡ some summary
      → NoCollision lib (lines_of files.events) (lines_of files'.events)
      → verify lib files trust ≡ some []
      → verify lib files' trust' ≡ some []
      → map (load lib) (lines_of files.events) ≡ map (load lib) (lines_of files'.events)
  verify-fixes files files' trust trust' summary s s' apart h h' =
      let v = verify-IsVerified lib files trust summary s h in
      let v' = verify-IsVerified lib files' trust' summary s' h' in
      let chain =
        check_lines-IsChain lib python v.run_id v.session_id 1 (lines_of files.events) _ v.last
          v.reads v.clean in
      let chain' =
        check_lines-IsChain lib python v'.run_id v'.session_id 1 (lines_of files'.events) _ v'.last
          v'.reads v'.clean in
      (IsChain-unique lib chain chain' apart (same-numbers lib python _ _ _ v.counted v'.counted) (
        text_or_null-inj _ _ (
          sym (same-text_or_null lib python _ _ v.ends_in)
          ∙ same-text_or_null lib python _ _ v'.ends_in))).0

-- A finalized event whose paths are safe and whose file is in place, with its size and its hash.
pub record IsDelivered {B : Type 0} (lib : Library B) (destination : String → Final)
    (event : Fields) : Type 0 where
  pub path : String
  pub relative : String
  pub size : ℕ
  pub hash : String
  pub has_path : get_field "final_relative_path" event ≡ str path
  pub is_safe : relative_text lib path ≡ some relative
  pub in_place : destination relative ≡ present size hash
  pub has_size : same lib (get_field "byte_count" event) (int (pos size)) ≡ true
  pub has_hash : get_field "sha256" event ≡ str hash

-- The finalized events that lines hold.
pub finalized : {B : Type 0} → Library B → List B → List Fields
finalized lib [] = []
finalized lib (line ∷ lines) = elim (load lib line) [
  | value (obj fields) ↦
      (if is_kind "finalized" (get_field "event_type" fields) then fields ∷ [] else [])
      ++ finalized lib lines
  | _ ↦ finalized lib lines
]

text_of-some : (v : Json) (s : String) → text_of v ≡ some s → v ≡ str s
unfolding text_of
text_of-some (str t) s h = cc
text_of-some null s h = cc
text_of-some v s h = cc

pub both_empty :
    (a b : Option (List String))
    → elim a [
      | none ↦ none
      | some errors ↦ elim b [ none ↦ none | some more ↦ some (errors ++ more) ]
    ]
      ≡ some []
    → (a ≡ some []) × (b ≡ some [])
both_empty none b h = cc
both_empty (some errors) none h = cc
both_empty (some errors) (some more) h =
    let (x, y) = nil_parts errors more (cc (h)) in
    (ap (λ (l : List String). some l) x, ap (λ (l : List String). some l) y)

module _ {B : Type 0} (lib : Library B) (python : IsPython lib) where
  file_errors-nil :
      (destination : String → Final) (path relative : String) (event : Fields) (found : Final)
      → get_field "final_relative_path" event ≡ str path
      → relative_text lib path ≡ some relative
      → destination relative ≡ found
      → file_errors lib relative event found ≡ []
      → IsDelivered lib destination event
  unfolding file_errors
  file_errors-nil destination path relative event missing p q d h = cc
  file_errors-nil destination path relative event (fault message) p q d h = cc
  file_errors-nil destination path relative event (present size hash) p q d h =
      let faults = concat-nil _ h in
      record {
        path = path;
        relative = relative;
        size = size;
        hash = hash;
        has_path = p;
        is_safe = q;
        in_place = d;
        has_size = not-false _ (report-nil _ _ faults.0);
        has_hash = same-text lib python _ hash (not-false _ (report-nil _ _ faults.1.0));
      }

  -- A path that is read is a text, and safe.
  safe_path-value :
      (name : String) (event : Fields) (relative : String)
      → safe_path lib name event ≡ some (value relative)
      → (path : String) × (get_field name event ≡ str path)
        × (relative_text lib path ≡ some relative)
  unfolding safe_path
  safe_path-value name event relative h = elim (Bool-cases (has_field name event)) [
    | inr absent ↦ cc (absent, h)
    | inl there ↦ elim (Option-cases (text_of (get_field name event))) [
      | inl e ↦ cc (there, e, h)
      | inr (path, e) ↦ (
        path,
        text_of-some (get_field name event) path e,
        elim (Option-cases (relative_text lib path)) [
          | inl u ↦ cc (there, e, u, h)
          | inr (r, u) ↦ cc (there, e, u, h)
        ],
      )
    ]
  ]

  event_errors-nil :
      (destination : String → Final) (event : Fields)
      → event_errors lib destination event ≡ some []
      → IsDelivered lib destination event
  unfolding event_errors
  event_errors-nil destination event h =
      elim (Option-cases (safe_path lib "logical_relative_path" event)) [
        | inl e ↦ cc (e, h)
        | inr (logical, e) ↦ elim (Parsed-cases logical) [
          | inl (m, bad) ↦ cc (e, bad, h)
          | inr (l, good) ↦ elim (Option-cases (safe_path lib "final_relative_path" event)) [
            | inl f ↦ cc (e, good, f, h)
            | inr (final, f) ↦ elim (Parsed-cases final) [
              | inl (m, bad) ↦ cc (e, good, f, bad, h)
              | inr (relative, fine) ↦
                  let (path, p, q) =
                    safe_path-value "final_relative_path" event relative
                      (f ∙ ap (λ (x : Parsed String). some x) fine) in
                  file_errors-nil destination path relative event (destination relative) p q refl
                    (cc (e, good, f, fine, h))
            ]
          ]
        ]
      ]

  final_errors-nil :
      (destination : String → Final) (events : List Fields)
      → final_errors lib destination events ≡ some []
      → All (IsDelivered lib destination) events
  unfolding final_errors
  final_errors-nil destination [] h = tt
  final_errors-nil destination (event ∷ events) h =
      let (fine, rest) =
        both_empty (event_errors lib destination event) (final_errors lib destination events) h in
      (event_errors-nil destination event fine, final_errors-nil destination events rest)

  IsChain-finals :
      {lines : List B} {r last : Reading}
      → IsChain lib lines r last
      → last.finals ≡ r.finals ++ finalized lib lines
  unfolding finalized
  IsChain-finals (done r last e) = cc (append-nil r.finals)
  IsChain-finals (link line lines fields r next last loaded linked chain) =
      IsChain-finals chain
      ∙ ap (λ fs. fs ++ finalized lib lines) linked.finals
      ∙ append_assoc r.finals _ (finalized lib lines)
      ∙ cc (loaded)

  -- Where the summary is a dictionary and `verify` accepts the record, the file of each finalized
  -- event is in place below the destination, with the size and the hash of the event, if floats
  -- compare as Python's do.
  pub verify-IsDelivered :
      (files : Record B) (trust : Trust) (summary : Fields)
      → dict_of (load_json lib "summary.json" files.summary).0 ≡ some summary
      → verify lib files trust ≡ some []
      → All (IsDelivered lib files.destination) (finalized lib (lines_of files.events))
  unfolding nothing_read
  verify-IsDelivered files trust summary s h =
      let v = verify-IsVerified lib files trust summary s h in
      let chain =
        check_lines-IsChain lib python v.run_id v.session_id 1 (lines_of files.events) _ v.last
          v.reads v.clean in
      subst (All (IsDelivered lib files.destination)) (IsChain-finals chain)
        (final_errors-nil files.destination v.last.finals v.delivered)
