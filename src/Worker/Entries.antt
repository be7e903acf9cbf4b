-- ===== src/Worker/Entries.antt =====
-- Which entries of the tree a transfer can change (`transfer` of src/tod-dl.py): those of its own
-- staging file, of its control file and of the fresh candidate, and paths where nothing was.
use tod_dl.Worker.{returned, Outcome, and_then, Step}
use tod_dl.Worker.Failures.{
  is_incomplete_body_failure, is_disk_full_failure, is_access_denied_failure,
  is_unavailable_failure,
}
use tod_dl.Manifest.{Clock, Row}
use tod_dl.Worker.Representation.{enter_representation_review, Probe}
use tod_dl.Worker.Keeps.{
  Keeps, and_then-Keeps, if-Keeps, option-Keeps, got-Keeps, attempt_event-Keeps,
  candidate_event-Keeps, clear_transfer_telemetry-Keeps, fail_disk_full-Keeps,
  fail_access_denied-Keeps, fail_unavailable-Keeps, fail_retry-Keeps, check_io-Keeps,
  hit_failpoint-Keeps,
}
use tod_dl.Worker.Transfer.Promotion.{ensure_part, ensure_parts, check_io}
use tod_dl.Worker.Transfer.{set_node, Engine, capture_response}
use tod_dl.Worker.Events.{control_of, move_candidate, clear_transfer_telemetry, link_candidate}
use tod_dl.Files.{Node, Files, is_link, is_dir, exists}
use tod_dl.Worker.{System, World, raise, pure, put_node, ◌>>◌, unlink, value_error}
use tod_dl.Worker.Transfer.{give_up, fail_attempt, run_aria2}
use tod_dl.Worker.Transfer.Promotion.{ensure_safe_parent, record_intent, ensure_part, ensure_parts}
use tod_dl.Base.{
  refl, ℕ, String, Bool, false, not, ◌&&◌, ◌||◌, Option, none, some, List, [], ◌∷◌, ◌≡◌, inl, inr,
  arith, str_eq, eq_iff, lookup, insert, erase, lookup-insert, lookup-erase, ltb, Option-cases, any,
  ◌+◌, ap, sym, ◌∙◌,
}

-- The names that a transfer with this staging file removes or writes over.
unfoldable pub is_own : System → String → String → Bool
is_own sys staging path =
    str_eq staging path
    || str_eq (control_of sys staging) path
    || any (λ name. str_eq (control_of sys name) path) (sys.candidate_names staging)

-- The logs of the attempt that a transfer makes.
unfoldable pub is_log : System → Row → String → Bool
is_log sys row path =
    str_eq (sys.log_path row.url (row.attempts + 1)) path
    || str_eq (sys.response_path row.url (row.attempts + 1)) path

returned_name : (a b : String) → Outcome.returned a ≡ Outcome.returned b → a ≡ b
returned_name a b e = cc

module _ (p : String) (n : Node) where
  abbrev pub Has : Files → Type 0
  Has files = lookup p files ≡ some n

  insert_ne-Has :
      (path : String) (node : Node) (files : Files)
      → str_eq path p ≡ false
      → Has files
      → Has (insert path node files)
  insert_ne-Has path node files ne h = rw (lookup-insert path p node files, ne) h

  pub insert_free-Has :
      (path : String) (node : Node) (files : Files)
      → lookup path files ≡ none
      → Has files
      → Has (insert path node files)
  insert_free-Has path node files free h =
      rw (lookup-insert path p node files) (ground (arith, eq_iff path p))

  pub erase_ne-Has :
      (path : String) (files : Files) → str_eq path p ≡ false → Has files → Has (erase path files)
  erase_ne-Has path files ne h = rw (lookup-erase path p files, ne) h

  set_node_ne-Has :
      (path : String) (node : Option Node) (files : Files)
      → str_eq path p ≡ false
      → Has files
      → Has (set_node path node files)
  unfolding set_node
  set_node_ne-Has path none files ne h = erase_ne-Has path files ne h
  set_node_ne-Has path (some node) files ne h = insert_ne-Has path node files ne h

  made-Has :
      (sys : System) (dir : String) (w : World)
      → lookup dir w.files ≡ none
      → Has w.files
      → Has (ensure_part sys dir none w).1.files
  unfolding ensure_part check_io and_then
  made-Has sys dir w free h = elim (Option-cases (sys.mkdir_error dir)) [
    | inl e ↦ rw (e, check_io) (insert_free-Has dir (Node.directory 0) w.files free h)
    | inr (exc, e) ↦ rw (e, check_io) h
  ]

  ensure_part-Has :
      (sys : System) (dir : String) (w : World)
      → Has w.files
      → Has (ensure_part sys dir (lookup dir w.files) w).1.files
  unfolding ensure_part
  ensure_part-Has sys dir w h = elim (Option-cases (lookup dir w.files)) [
    | inl e ↦ rw e (made-Has sys dir w e h)
    | inr (node, e) ↦ rw e (
        if-Keeps Has (is_link (some node)) (raise _) _ w h
          (if-Keeps Has (not (is_dir (some node))) (raise _) (pure tt) w h h))
  ]

  pub ensure_parts-Has : (sys : System) (dirs : List String) → Keeps Has (ensure_parts sys dirs)
  unfolding ensure_parts
  ensure_parts-Has sys [] w h = h
  ensure_parts-Has sys (dir ∷ dirs) w h =
      got-Keeps Has _ _ w
        (and_then-Keeps Has _ _ _ (ensure_part-Has sys dir w h) (λ u. ensure_parts-Has sys dirs))

  pub ensure_safe_parent-Has :
      (sys : System) (target : String) → Keeps Has (ensure_safe_parent sys target)
  unfolding ensure_safe_parent
  ensure_safe_parent-Has sys target w h =
      option-Keeps Has (sys.below sys.destination target) (raise (value_error "not in the subpath"))
        _ w h
        (λ dirs. got-Keeps Has _ _ w (
          and_then-Keeps Has _ _ _
            (if-Keeps Has (is_link (lookup sys.destination w.files)) (raise _) (pure tt) w h h)
            (λ u. ensure_parts-Has sys dirs)))

  pub record_intent-Has :
      (sys : System) (eng : Engine) (row : Row) (target stored staging : String) (worker : ℕ)
      (digest : String)
      → Keeps Has (record_intent sys eng row target stored staging worker digest)
  unfolding record_intent
  record_intent-Has sys eng row target stored staging worker digest w h =
      and_then-Keeps Has _ _ _ (ensure_safe_parent-Has sys target w h) (λ u w h.
        and_then-Keeps Has _ _ _ (check_io-Keeps Has eng.flush_error w h) (λ u w h.
          got-Keeps Has _ _ w (and_then-Keeps Has _ _ _ h (λ u. hit_failpoint-Keeps Has _))))

  module _ (sys : System) (staging : String) (other : is_own sys staging p ≡ false) where
    -- The entry stays, and it is not that of the control file beside the candidate.
    Linked : Outcome String × World → Type 0
    Linked o =
        Has o.1.files
        × ((name : String) → o.0 ≡ returned name → str_eq (control_of sys name) p ≡ false)

    -- The name that the link takes is free, and no other entry is changed.
    link_candidate-Linked :
        (node : Node) (names : List String) (w : World)
        → any (λ name. str_eq (control_of sys name) p) names ≡ false
        → Has w.files
        → Linked (link_candidate sys node names w)
    unfolding link_candidate any Linked
    link_candidate-Linked node [] w clear h = (h, λ name e. cc)
    link_candidate-Linked node (name ∷ names) w clear h =
        elim (Option-cases (lookup name w.files)) [
          | inr (other, e) ↦
              rw (e, link_candidate) (link_candidate-Linked node names w (ground (arith, clear)) h)
          | inl e ↦
              rw (e, link_candidate)
                (
                  insert_free-Has name node w.files e h,
                  λ x f.
                      ap (λ (c : String). str_eq (control_of sys c) p)
                        (sym (returned_name name x f))
                      ∙ ground (arith, clear),
                )
        ]

    after_link-Has :
        (o : Outcome String) (rest : String → Step String) (w : World)
        → Linked (o, w)
        → ((name : String) → str_eq (control_of sys name) p ≡ false → Keeps Has (rest name))
        → Has (and_then o rest w).1.files
    unfolding and_then Linked
    after_link-Has (Outcome.returned name) rest w h k = k name (h.1 name refl) w h.0
    after_link-Has (Outcome.raised error) rest w h k = h.0
    after_link-Has Outcome.exited rest w h k = h.0

    pub move_candidate-Has : Keeps Has (move_candidate sys staging)
    unfolding move_candidate is_own
    move_candidate-Has w h = got-Keeps Has _ _ w (
        option-Keeps Has (lookup staging w.files) (raise _) _ w h (λ node.
          after_link-Has _ _ _
            (link_candidate-Linked node (sys.candidate_names staging) w (ground arith) h)
            (λ name beside w h.
              and_then-Keeps Has _ _ _ (erase_ne-Has _ _ (ground arith) h) (λ u w h.
                got-Keeps Has _ _ w (
                  and_then-Keeps Has _ _ _
                    (if-Keeps Has (exists (lookup (control_of sys staging) w.files)) _ _ w
                      (option-Keeps Has (lookup (control_of sys staging) w.files) (pure tt)
                        (λ a. put_node (control_of sys name) a >> unlink (control_of sys staging)) w
                        h
                        (λ a.
                          and_then-Keeps Has _ _ _ (insert_ne-Has _ a _ beside h)
                            (λ u w h. erase_ne-Has _ _ (ground arith) h)))
                      h)
                    (λ u w h. h))))))

    pub enter_representation_review-Has :
        (clock : Clock) (url decision : String) (observed : Option Probe)
        → Keeps Has (enter_representation_review sys clock url staging decision observed)
    unfolding enter_representation_review
    enter_representation_review-Has clock url decision observed w h =
        and_then-Keeps Has _ _ _ (move_candidate-Has w h) (λ c w h.
          and_then-Keeps Has _ _ _ (candidate_event-Keeps Has _ _ _ _ _ _ w h)
            (λ u w h. and_then-Keeps Has _ _ _ h (λ u. clear_transfer_telemetry-Keeps Has _)))

    module _ (eng : Engine) (row : Row) where
      pub give_up-Has :
          (digest : Option String) (reason detail : String) (fields : Row → Row)
          → Keeps Has (give_up sys eng row staging digest reason detail fields)
      unfolding give_up
      give_up-Has digest reason detail fields w h =
          and_then-Keeps Has _ _ _ (attempt_event-Keeps Has _ _ _ _ w h) (λ u w h.
            and_then-Keeps Has _ _ _ (move_candidate-Has w h) (λ c w h.
              and_then-Keeps Has _ _ _ (candidate_event-Keeps Has _ _ _ _ _ _ w h) (λ u w h.
                got-Keeps Has _ _ w (
                  and_then-Keeps Has _ _ _ h (λ u w h.
                    and_then-Keeps Has _ _ _ (clear_transfer_telemetry-Keeps Has _ w h)
                      (λ u w h. h))))))

      pub fail_attempt-Has :
          (worker size : ℕ) (stalled : Bool)
          → Keeps Has (fail_attempt sys eng row worker staging size stalled)
      unfolding fail_attempt
      fail_attempt-Has worker size stalled w h =
          if-Keeps Has (ltb 0 size && is_incomplete_body_failure sys eng.error && stalled) _ _ w
            (give_up-Has none "incomplete_body" eng.error (λ r. r) w h)
            (if-Keeps Has (is_disk_full_failure sys eng.error) _ _ w
              (fail_disk_full-Keeps Has _ _ _ worker size w h)
              (if-Keeps Has (is_access_denied_failure sys eng.error) _ _ w
                (fail_access_denied-Keeps Has _ _ _ worker size w h)
                (if-Keeps Has (is_unavailable_failure sys eng.error) _ _ w
                  (fail_unavailable-Keeps Has _ _ _ worker size w h)
                  (fail_retry-Keeps Has _ _ _ worker size w h))))

      pub run_aria2-Has : is_log sys row p ≡ false → Keeps Has (run_aria2 sys eng row staging)
      unfolding run_aria2 is_own is_log capture_response
      run_aria2-Has unlogged w h =
          and_then-Keeps Has _ _ _ (set_node_ne-Has _ _ _ (ground (arith, unlogged)) h) (λ u w h.
            and_then-Keeps Has _ _ _ (set_node_ne-Has _ _ _ (ground (arith, unlogged)) h) (λ u w h.
              and_then-Keeps Has _ _ _
                (set_node_ne-Has _ _ _ (ground arith) (set_node_ne-Has _ _ _ (ground arith) h))
                (λ u w h.
                  option-Keeps Has eng.aria2_error (pure (eng.ok, eng.error))
                    (λ error. clear_transfer_telemetry row.url >> raise error) w h
                    (λ e.
                      and_then-Keeps Has _ _ _ (clear_transfer_telemetry-Keeps Has _ w h)
                        (λ u w h. h)))))
