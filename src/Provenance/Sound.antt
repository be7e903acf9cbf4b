-- ===== src/Provenance/Sound.antt =====
-- The events that a run records: the verifier reads them all without an error.
use mathlib.Core.Path.{subst}
use mathlib.Core.List.{append-nil}
use tod_dl.Provenance.{Library, value, relative_text}
use tod_dl.Provenance.Schema.{schema_document, event_schema}
use tod_dl.Provenance.Writer.{undigested, Writer, Moment, recorded, event, opened}
use tod_dl.Provenance.Events.{Reading, nothing_read, check_line, check_lines, is_kind, note_event}
use tod_dl.Provenance.Verifier.{Final, present, final_errors, event_errors, safe_path, file_errors}
use tod_dl.Provenance.Recorded.{IsRecorded, event-IsRecorded}
use tod_dl.Provenance.Whole.{IsProper, IsWhole, event-IsWhole}
use tod_dl.Provenance.Written.{ReadsBack}
use tod_dl.Provenance.Signed.{both_empty}
use tod_dl.Provenance.Chain.{has_of_get}
use tod_dl.Provenance.Accepted.{
  no_fault, no_faults, silent, is_not-false, same_refl, IsTruthful, after, check_line-accepts,
}
use tod_dl.Json.{Json, Fields, int, str, obj, get_field, text_of}
use tod_dl.Json.Equal.{has_float}
use tod_dl.Base.{
  ℕ, ◌+◌, String, true, false, Option, none, some, List, [], ◌∷◌, ◌++◌, map, ◌≡◌, refl, sym, ap,
  ◌∙◌, inl, inr, arith, str_eq, contains, length, Bool-cases, Option-cases, if_elim, if◌then◌else◌,
  pos,
}

-- A finalized event whose paths are safe, and whose file is in place with its size and its hash.
pub record IsFiled {B : Type 0} (lib : Library B) (destination : String → Final) (event : Fields)
    : Type 0 where
  pub logical : String
  pub logical_relative : String
  pub path : String
  pub relative : String
  pub size : ℕ
  pub hash : String
  pub has_logical : get_field "logical_relative_path" event ≡ str logical
  pub is_safe_logical : relative_text lib logical ≡ some logical_relative
  pub has_path : get_field "final_relative_path" event ≡ str path
  pub is_safe : relative_text lib path ≡ some relative
  pub in_place : destination relative ≡ present size hash
  pub has_size : get_field "byte_count" event ≡ int (pos size)
  pub has_hash : get_field "sha256" event ≡ str hash

-- The events of a run, each under a new identifier, with proper fields, and, where it is finalized,
-- true to what was checked and to the destination.
pub data Records {B : Type 0} (lib : Library B) (destination : String → Final) (w : Writer B)
    : List String → Writer B → Type 0 where
  start : Records lib destination w [] w
  more :
      {ids : List String} {before later : Writer B}
      → Records lib destination w ids before
      → (moment : Moment B) (kind : String) (fields whole : Fields)
      → event lib moment kind fields before ≡ (later, recorded whole)
      → IsProper fields
      → contains moment.event_id ids ≡ false
      → (str_eq kind "finalized" ≡ true → IsTruthful whole × IsFiled lib destination whole)
      → Records lib destination w (moment.event_id ∷ ids) later

-- What the verifier makes of the lines that a writer has written.
pub record IsSound {B : Type 0} (lib : Library B) (destination : String → Final) (w : Writer B)
    (ids : List String) (newest : Option Json) : Type 0 where
  pub last : Reading
  pub reads : check_lines lib w.run_id w.session_id 1 w.events (nothing_read []) ≡ some last
  pub clean : last.errors ≡ []
  pub ends_with : last.last_event ≡ newest
  pub previous : last.previous ≡ w.previous_digest
  pub seen : last.seen ≡ map (λ s. str s) ids
  pub sequence : w.sequence ≡ length w.events
  pub schema : w.schema ≡ schema_document
  pub schema_hash : w.schema_sha256 ≡ lib.sha256_hex (lib.dumps schema_document)
  pub finals : length last.finals ≡ w.finalized_count
  pub delivered : final_errors lib destination last.finals ≡ some []

module _ {B : Type 0} (lib : Library B) where
  -- A line's number is one more than that of the lines before it.
  check_lines-snoc :
      (run_id session_id : String) (n : ℕ) (lines : List B) (line : B) (r last following : Reading)
      → check_lines lib run_id session_id n lines r ≡ some last
      → check_line lib run_id session_id (length lines + n) line last ≡ some following
      → check_lines lib run_id session_id n (lines ++ line ∷ []) r ≡ some following
  unfolding check_lines
  check_lines-snoc run_id session_id n [] line r last following h k =
      let first : check_line lib run_id session_id n line last ≡ some following =
        ap (λ m. check_line lib run_id session_id m line last) (omega arith) ∙ k in
      cc (h, first)
  check_lines-snoc run_id session_id n (other ∷ lines) line r last following h k =
      elim (Option-cases (check_line lib run_id session_id n other r)) [
        | inl e ↦ cc (e, h)
        | inr (mid, e) ↦
            let rest =
              check_lines-snoc run_id session_id (n + 1) lines line mid last following (cc (e, h))
                (ap (λ k'. check_line lib run_id session_id k' line last) (omega arith) ∙ k) in
            cc (e, rest)
      ]

  safe_path-safe :
      (name : String) (event : Fields) (path relative : String)
      → get_field name event ≡ str path
      → relative_text lib path ≡ some relative
      → safe_path lib name event ≡ some (value relative)
  unfolding safe_path text_of
  safe_path-safe name event path relative p q = cc (has_of_get name event path p, p, q)

  file_errors-filed :
      (relative : String) (event : Fields) (size : ℕ) (hash : String)
      → get_field "byte_count" event ≡ int (pos size)
      → get_field "sha256" event ≡ str hash
      → file_errors lib relative event (present size hash) ≡ []
  unfolding file_errors has_float
  file_errors-filed relative event size hash p q =
      no_fault _ (silent _ _ (is_not-false (same_refl lib _ (int (pos size)) refl p)))
        (no_fault _ (silent _ _ (is_not-false (same_refl lib _ (str hash) refl q))) no_faults)

  event_errors-filed :
      (destination : String → Final) (event : Fields)
      → IsFiled lib destination event
      → event_errors lib destination event ≡ some []
  unfolding event_errors
  event_errors-filed destination event f = cc (
    safe_path-safe "logical_relative_path" event f.logical f.logical_relative f.has_logical
        f.is_safe_logical,
    safe_path-safe "final_relative_path" event f.path f.relative f.has_path f.is_safe,
    f.in_place,
    file_errors-filed f.relative event f.size f.hash f.has_size f.has_hash,
  )

  final_errors-snoc :
      (destination : String → Final) (events : List Fields) (event : Fields)
      → final_errors lib destination events ≡ some []
      → event_errors lib destination event ≡ some []
      → final_errors lib destination (events ++ event ∷ []) ≡ some []
  unfolding final_errors
  final_errors-snoc destination [] event h k = cc (k)
  final_errors-snoc destination (first ∷ events) event h k =
      let (here, rest) =
        both_empty (event_errors lib destination first) (final_errors lib destination events) h in
      cc (here, final_errors-snoc destination events event rest k)

length-snoc {ℓ} : {A : Type ℓ} (xs : List A) (x : A) → length (xs ++ x ∷ []) ≡ length xs + 1
length-snoc [] x = omega arith
length-snoc (y ∷ xs) x = omega (arith, length-snoc xs x)

module _ {B : Type 0} (lib : Library B) (reads_back : ReadsBack lib)
    (hex : (b : B) → lib.is_hex_digest (lib.sha256_hex b) ≡ true)
    (destination : String → Final) where
  length-finals :
      (finals : List Fields) (whole : Fields) (kind : String) (count : ℕ)
      → length finals ≡ count
      → length (finals ++ (if str_eq kind "finalized" then whole ∷ [] else []))
        ≡ (if str_eq kind "finalized" then count + 1 else count)
  length-finals finals whole kind count h =
      if_elim (λ n. length (finals ++ (if str_eq kind "finalized" then whole ∷ [] else [])) ≡ n)
        (str_eq kind "finalized") _ _ (λ e. rw e (length-snoc finals whole ∙ ap (λ n. n + 1) h))
        (λ e. rw e (ap length (append-nil finals) ∙ h))

  finals-delivered :
      (finals : List Fields) (whole : Fields) (kind : String)
      → final_errors lib destination finals ≡ some []
      → (str_eq kind "finalized" ≡ true → IsTruthful whole × IsFiled lib destination whole)
      → final_errors lib destination
          (finals ++ (if str_eq kind "finalized" then whole ∷ [] else []))
        ≡ some []
  finals-delivered finals whole kind h placed = elim (Bool-cases (str_eq kind "finalized")) [
    | inl e ↦ rw e (
        final_errors-snoc lib destination finals whole h
          (event_errors-filed lib destination whole (placed e).1))
    | inr e ↦ rw e (ap (final_errors lib destination) (append-nil finals) ∙ h)
  ]

  pub step-IsSound :
      (moment : Moment B) (kind : String) (fields whole : Fields) (w later : Writer B)
      (ids : List String) (newest : Option Json)
      → IsSound lib destination w ids newest
      → IsRecorded lib moment kind fields w later whole
      → IsProper fields
      → contains moment.event_id ids ≡ false
      → (str_eq kind "finalized" ≡ true → IsTruthful whole × IsFiled lib destination whole)
      → IsSound lib destination later (moment.event_id ∷ ids) (some (obj whole))
  unfolding after note_event is_kind
  step-IsSound moment kind fields whole w later ids newest s rec proper fresh placed =
      let body = undigested moment kind fields w in
      let d = rec.event_digest in
      let is_whole : IsWhole lib moment kind d w body whole =
        subst (IsWhole lib moment kind d w body) (sym rec.whole_lem)
          (event-IsWhole lib moment kind d fields w proper rec.digested) in
      let found = ap (λ x. event_schema x kind) (sym s.schema) ∙ rec.found in
      let line =
        check_line-accepts lib hex moment kind d w body whole rec.schema is_whole rec.known
          rec.digested found rec.fits reads_back s.last ids (λ e. (placed e).0) s.clean s.previous
          s.seen fresh in
      let lines =
        check_lines-snoc lib w.run_id w.session_id 1 w.events (lib.dumps (obj whole))
          (nothing_read []) s.last _ s.reads
          (ap (λ n. check_line lib w.run_id w.session_id n (lib.dumps (obj whole)) s.last)
              (omega (arith, s.sequence))
            ∙ line) in
      subst (λ x. IsSound lib destination x (moment.event_id ∷ ids) (some (obj whole)))
        (sym rec.after)
        (record {
          last = after moment d whole s.last;
          reads = lines;
          clean = refl;
          ends_with = refl;
          previous = refl;
          seen = ap (λ (x : List Json). str moment.event_id ∷ x) s.seen;
          sequence =
              ap (λ n. n + 1) s.sequence ∙ sym (length-snoc w.events (lib.dumps (obj whole)));
          schema = s.schema;
          schema_hash = s.schema_hash;
          finals =
              ap (λ b. length (s.last.finals ++ (if b then whole ∷ [] else [])))
                (ap (is_kind "finalized") is_whole.event_type)
              ∙ length-finals s.last.finals whole kind w.finalized_count s.finals;
          delivered =
              ap
                (λ b.
                  final_errors lib destination (s.last.finals ++ (if b then whole ∷ [] else [])))
                (ap (is_kind "finalized") is_whole.event_type)
              ∙ finals-delivered s.last.finals whole kind s.delivered placed;
        })

  opened-IsSound :
      (run_id session_id raw : String)
      → IsSound lib destination (opened lib run_id session_id raw) [] none
  unfolding opened nothing_read check_lines final_errors
  opened-IsSound run_id session_id raw = record {
    last = nothing_read [];
    reads = refl;
    clean = refl;
    ends_with = refl;
    previous = refl;
    seen = refl;
    sequence = refl;
    schema = refl;
    schema_hash = refl;
    finals = refl;
    delivered = refl;
  }

  -- Where a run has recorded events as `Records` says, the loop of `verify` over its lines reports no
  -- error, ends at the writer's digest and number of finalized events, and finds their files in place,
  -- if `json` reads back what it wrote and digests are hexadecimal.
  pub Records-IsSound :
      (run_id session_id raw : String) {ids : List String} {w : Writer B}
      → Records lib destination (opened lib run_id session_id raw) ids w
      → (newest : Option Json) × IsSound lib destination w ids newest
  Records-IsSound run_id session_id raw start = (none, opened-IsSound run_id session_id raw)
  Records-IsSound run_id session_id raw
        (more {before = before} {later = later} run moment kind fields whole e proper fresh
          placed) =
      let (newest, sound) = Records-IsSound run_id session_id raw run in
      (
        some (obj whole),
        step-IsSound moment kind fields whole before later _ newest sound
            (event-IsRecorded lib moment kind fields before later whole e) proper fresh placed,
      )

  pub Records-fingerprint :
      (run_id session_id raw : String) {ids : List String} {w : Writer B}
      → Records lib destination (opened lib run_id session_id raw) ids w
      → w.fingerprint ≡ lib.fingerprint raw
  unfolding opened
  Records-fingerprint run_id session_id raw start = refl
  Records-fingerprint run_id session_id raw
        (more {before = before} {later = later} run moment kind fields whole e proper fresh
          placed) =
      ap (λ (x : Writer B). x.fingerprint)
        (event-IsRecorded lib moment kind fields before later whole e).after
      ∙ Records-fingerprint run_id session_id raw run
