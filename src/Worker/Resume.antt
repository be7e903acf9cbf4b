-- ===== src/Worker/Resume.antt =====
-- When `transfer` (src/tod-dl.py) resumes a partial file without an expected checksum.
use tod_dl.Worker.Sound.{and_then-returned}
use text.Mathlib.TextPositions.{eq_refl}
use tod_dl.Worker.Outcomes.{IsVacuous, and_then-cases, option-cases, if-cases}
use tod_dl.Files.{Node, size_of}
use tod_dl.Manifest.{Row, Clock}
use tod_dl.Worker.{
  ◌>>◌, ◌>>=◌, ◌>>◌, returned, ◌>>◌, System, Outcome, World, pure, modify, Step, node_at,
}
use tod_dl.Worker.Representation.{
  Probe, observed_of, check_representation, classify_representation, enter_representation_review,
  same_text, is_none, recheck_unavailable, resume_recheck, staging_of, recheck_available,
}
use tod_dl.Worker.Transfer.{resume_gate, Engine, Gate, with_generation, go}
use tod_dl.Base.{
  String, Bool, true, false, not, ◌&&◌, ◌||◌, Option, none, some, ◌∷◌, ◌≡◌, refl, sym, ap, ◌∙◌, inl,
  inr, arith, str_eq, eq_iff, ◌==◌, Bool-cases, if◌then◌else◌, is_truthy, lookup, ◌⊎◌,
}

decided :
    (a b c : Bool)
    → str_eq
        (if a
          then "confirmed_unchanged"
          else if b
          then "changed"
          else if c
          then "changed"
          else "unconfirmed")
        "confirmed_unchanged"
      ≡ a
decided true b c = refl
decided false true c = refl
decided false false true = refl
decided false false false = refl

same_text_sound : (a b : Option String) → same_text a b ≡ true → a ≡ b
unfolding same_text
same_text_sound none none h = refl
same_text_sound (some a) (some b) h = ap some ((eq_iff a b).0 h)
same_text_sound none (some b) h = cc
same_text_sound (some a) none h = cc

-- The code's word for an unchanged file says that there are two entity tags, and that they agree.
abbrev HasSameTag : Row → Option Probe → Type 0
HasSameTag row head =
    (probe : Probe) × (observed_of head ≡ some probe)
    × (is_truthy row.etag ≡ true)
    × (is_truthy probe.etag ≡ true)
    × (row.etag ≡ probe.etag)

classify-confirmed :
    (row : Row) (probe : Probe)
    → str_eq (classify_representation row.etag row.last_modified probe) "confirmed_unchanged" ≡ true
    → (is_truthy row.etag && is_truthy probe.etag && same_text row.etag probe.etag) ≡ true
unfolding classify_representation
classify-confirmed row probe h = sym (decided _ _ _) ∙ h

-- The check on a reading of the validators.
judged :
    (row : Row) (head o : Option Probe)
    → observed_of head ≡ o
    → str_eq
        (elim o as (λ _. String × Option Probe) [
          | none ↦ ("unconfirmed", none)
          | some observed ↦
              (classify_representation row.etag row.last_modified observed, some observed)
        ]).0
        "confirmed_unchanged"
      ≡ true
    → HasSameTag row head
judged row head none e h = cc
judged row head (some probe) e h =
    let tags = classify-confirmed row probe h in
    (
      probe,
      e,
      ground (arith, tags),
      ground (arith, tags),
      same_text_sound _ _ (ground (arith, tags)),
    )

confirmed-HasSameTag :
    (row : Row) (head : Option Probe)
    → str_eq (check_representation head row.etag row.last_modified).0 "confirmed_unchanged" ≡ true
    → HasSameTag row head
unfolding check_representation
confirmed-HasSameTag row head h = judged row head (observed_of head) refl h

module _ (sys : System) (eng : Engine) (row : Row) (staging : String) where
  abbrev Q : Outcome Gate × World → Type 0
  Q o = (fields : Row → Row) → o.0 ≡ returned (go fields) → HasSameTag row eng.head

  Q-IsVacuous : IsVacuous Q
  Q-IsVacuous = record { at_raised = λ error w f e. cc; at_exited = λ w f e. cc }

  abbrev decision : String
  decision = (check_representation eng.head row.etag row.last_modified).0

  gate-Q :
      (w : World)
      → Q (
          (if not (str_eq decision "confirmed_unchanged")
              then enter_representation_review sys eng.clock row.url staging decision
                  (check_representation eng.head row.etag row.last_modified).1
                >> pure Gate.stop
              else modify (λ w. record w { resume_confirmed = row.url ∷ w.resume_confirmed })
                >> pure (Gate.go (with_generation sys eng row)))
            w)
  gate-Q w = elim (Bool-cases (str_eq decision "confirmed_unchanged")) [
    | inl e ↦ rw e (λ fields f. confirmed-HasSameTag row eng.head e)
    | inr e ↦ rw e (and_then-cases Q Q-IsVacuous _ _ _ (λ u e f g. cc))
  ]

  -- A transfer goes on with a partial file, where no checksum is expected and a validator is on
  -- record, only if the server answered the HEAD request with an entity tag that equals the recorded
  -- one. A recorded date of modification alone never suffices.
  pub resume_gate-HasSameTag :
      (partial : Option Node) (w : World)
      → (size_of partial == 0) ≡ false
      → is_truthy row.expected_sha256 ≡ false
      → (is_truthy row.etag || is_truthy row.last_modified) ≡ true
      → (fields : Row → Row) → (resume_gate sys eng row staging partial w).0 ≡ returned (go fields)
      → HasSameTag row eng.head
  unfolding resume_gate
  resume_gate-HasSameTag partial w some_bytes unchecked recorded =
      rw (resume_gate, some_bytes, unchecked, recorded) (gate-Q w)

-- What lets an item that was unavailable go back to the queue with its partial file.
abbrev pub IsProtected : Row → Option Probe → Option Node → Type 0
IsProtected row head node =
    (is_none row.staging_generation ≡ true)
    ⊎ ((size_of node == 0) ≡ true)
    ⊎ (is_truthy row.expected_sha256 ≡ true)
    ⊎ HasSameTag row head

other_answer :
    (text : String)
    → str_eq text "recheck_available" ≡ false
    → (P : Type 0) → Outcome.returned text ≡ returned "recheck_available"
    → P
other_answer text h P e = cc (eq_refl "recheck_available")

module _ (sys : System) (clock : Clock) (row : Row) (head : Option Probe) where
  abbrev there : World → Option Node
  there w = lookup (staging_of sys clock row.url row.staging_path) w.files

  abbrev R : Option Node → Outcome String × World → Type 0
  R staged o = o.0 ≡ returned "recheck_available" → IsProtected row head staged

  R-IsVacuous : (staged : Option Node) → IsVacuous (R staged)
  R-IsVacuous staged = record { at_raised = λ error w e. cc; at_exited = λ w e. cc }

  or-cases : (a b : Bool) → (a || b) ≡ true → (a ≡ true) ⊎ (b ≡ true)
  or-cases true b h = inl refl
  or-cases false b h = inr h

  nothing_to_keep :
      (staged : Option Node)
      → (is_none row.staging_generation || size_of staged == 0) ≡ true
      → IsProtected row head staged
  nothing_to_keep staged h = elim (or-cases (is_none row.staging_generation) _ h) [
    | inl e ↦ inl e
    | inr e ↦ inr (inl e)
  ]

  resume_recheck-IsProtected :
      (staging : String) (staged : Option Node) (probe : Probe) (w : World)
      → observed_of head ≡ some probe
      → R staged (resume_recheck sys clock row.url row staging staged probe w)
  unfolding resume_recheck
  resume_recheck-IsProtected staging staged probe w seen =
      let decision = classify_representation row.etag row.last_modified probe in
      let fresh =
        recheck_available sys clock row.url "recheck: available again; admitted as fresh work" in
      let summed =
        recheck_available sys clock row.url
          "recheck: available again; expected checksum protects the resume" in
      let review : Step String =
        enter_representation_review sys clock row.url staging decision (some probe)
        >> pure "recheck_review" in
      let same =
        recheck_available sys clock row.url
          "recheck: available again; representation confirmed unchanged" in
      let judge : Step String =
        if not (str_eq decision "confirmed_unchanged") then review else same in
      let guarded : Step String = if is_truthy row.expected_sha256 then summed else judge in
      if-cases (R staged) (is_none row.staging_generation || size_of staged == 0) fresh guarded w
        (λ t f. nothing_to_keep staged t)
        (λ t.
          if-cases (R staged) (is_truthy row.expected_sha256) summed judge w
            (λ t f. inr (inr (inl t)))
            (λ t.
              if-cases (R staged) (not (str_eq decision "confirmed_unchanged")) review same w
                (λ t.
                  and_then-cases (R staged) (R-IsVacuous staged) _ _ _
                    (λ u e. other_answer "recheck_review" refl _))
                (λ t f. inr (inr (inr (judged row head (some probe) seen (ground (arith, t))))))))

  -- An item that was unavailable goes back to the queue only if it has no staging generation, if its
  -- staging file is empty or absent, if a checksum is expected, or if the server answered with the
  -- entity tag on record. Where the source did not answer with 200 or 206, nothing changes.
  pub recheck_unavailable-IsProtected :
      (w : World)
      → ((recheck_unavailable sys clock row.url row head w).0 ≡ returned "recheck_available"
          → IsProtected row head (there w))
        × (observed_of head ≡ none
            → (recheck_unavailable sys clock row.url row head w)
              ≡ (returned "still_unavailable", w))
  unfolding recheck_unavailable
  recheck_unavailable-IsProtected w = (
    option-cases (R (there w)) (observed_of head) (pure "still_unavailable")
        (λ observed. node_at (staging_of sys clock row.url row.staging_path) >>= λ staged.
          resume_recheck sys clock row.url row (staging_of sys clock row.url row.staging_path)
            staged observed)
        w (λ e. other_answer "still_unavailable" refl _)
        (λ probe e.
          and_then-returned (R (there w)) _ (there w) _ _ refl
            (resume_recheck-IsProtected _ (there w) probe w e)),
    λ absent. rw (recheck_unavailable, absent) refl,
  )
