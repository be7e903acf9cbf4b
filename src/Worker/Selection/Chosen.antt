-- ===== src/Worker/Selection/Chosen.antt =====
-- What `scope_run` leaves in `run_items` (src/tod-dl.py).
use tod_dl.Worker.Outcomes.{IsVacuous, if-cases, and_then-cases}
use tod_dl.Files.{Node, node_bytes, exists}
use tod_dl.Controller.Changes.{db-apply_projection_change}
use tod_dl.Worker.{update, pure, returned, ◌>>=◌, ◌>>◌}
use native.Mathlib.Numerals.{unary_clauses}
use tod_dl.Worker.Events.{finalized_event}
use tod_dl.Worker.Representation.{change}
use tod_dl.Worker.Selection.{
  compare_existing, note_existing, reconcile_existing_file, Entry, scope_loop, select_entry,
  is_full, resolved_storage_target,
}
use tod_dl.Status.{Status}
use tod_dl.Controller.{
  Controller, commit_transition, provenance_event, transition, Evidence, OsError,
}
use tod_dl.Worker.{System, and_then, Outcome, Step, World}
use tod_dl.Manifest.{RunItem, Clock, log_transition, Row, advance_revision, find_row, Db}
use tod_dl.Base.{
  ℕ, zero, suc, ◌+◌, String, not, Option, none, some, List, [], ◌∷◌, ◌++◌, map, ◌≡◌, refl, ap, ◌∙◌,
  inl, inr, arith, str_eq, eq_iff, filter, if_elim, Option-cases, is_truthy, sym, lookup,
}

-- The ranks 0, 1, … below a number.
unfoldable pub upto : ℕ → List ℕ
upto zero = []
upto (suc n) = upto n ++ n ∷ []

module _ (items : List RunItem) (id : String) where
  -- The selected items and the run stay the same.
  abbrev pub Same : Controller → Type 0
  Same c = (c.db.run_items ≡ items) × (c.run_id ≡ id)

  and_then-Same :
      {A B : Type 0} (o : Outcome A) (rest : A → Step B) (w : World)
      → Same w.controller
      → ((a : A) (v : World) → Same v.controller → Same (rest a v).1.controller)
      → Same (and_then o rest w).1.controller
  unfolding and_then
  and_then-Same (Outcome.returned a) rest w h k = k a w h
  and_then-Same (Outcome.raised error) rest w h k = h
  and_then-Same Outcome.exited rest w h k = h

  commit_transition-Same :
      (sha256_hex : String → String) (clock : Clock) (url : String) (status : Status)
      (detail : Option String) (fields : Row → Row) (row : Row) (c : Controller)
      → Same c
      → Same (commit_transition sha256_hex clock url status detail fields row c)
  unfolding commit_transition log_transition advance_revision
  commit_transition-Same sha256_hex clock url status detail fields row c h =
      let kept = db-apply_projection_change sha256_hex _ _ _ _ _ in
      (ap (λ (d : Db). d.run_items) kept.0 ∙ h.0, kept.1 ∙ h.1)

  transition-Same :
      (sha256_hex : String → String) (clock : Clock) (url : String) (status : Status)
      (detail : Option String) (fields : Row → Row) (c : Controller)
      → Same c
      → Same (transition sha256_hex none clock url status detail fields c).0
  unfolding transition
  transition-Same sha256_hex clock url status detail fields c h =
      elim (Option-cases (find_row url c.db.downloads)) [
        | inl e ↦ rw (e, transition) h
        | inr (row, e) ↦
            rw (e, transition)
              (commit_transition-Same sha256_hex clock url status detail fields row c h)
      ]

  provenance_event-Same :
      (event : Evidence) (c : Controller) → Same c → Same (provenance_event event c).0
  unfolding provenance_event
  provenance_event-Same event c h = ground (arith, h.0, h.1)

module _ (sys : System) (clock : Clock) (legacy : String → Option String)
    (read_error : String → Option OsError) (max_files : ℕ) (items : List RunItem)
    (id : String) where
  abbrev S : World → Type 0
  S w = Same items id w.controller

  change-Same :
      (url : String) (status : Status) (detail : Option String) (fields : Row → Row) (w : World)
      → S w
      → S (change sys clock url status detail fields w).1
  change-Same url status detail fields w h =
      transition-Same items id sys.sha256_hex clock url status detail fields w.controller h

  compare_existing-Same :
      (entry : Entry) (stored : String) (node : Node) (expected : String) (w : World)
      → S w
      → S (compare_existing sys clock legacy read_error max_files entry stored node expected w).1
  unfolding compare_existing finalized_event
  compare_existing-Same entry stored node expected w h =
      if_elim (λ (m : Step Unit). S (m w).1)
        (not (str_eq (sys.lower (sys.sha256 (node_bytes node))) (sys.lower expected))) _ _
        (λ _. change-Same _ _ _ _ w h)
        (λ _.
          and_then-Same items id _ _ _
            (and_then-Same items id _ _ _ h λ event v h.
              and_then-Same items id _ _ _ h
                λ u v h. provenance_event-Same items id _ v.controller h)
            λ u v h. change-Same _ _ _ _ v h)

  reconcile_existing_file-Same :
      (entry : Entry) (stored target : String) (node : Node) (w : World)
      → S w
      → S
          (reconcile_existing_file sys clock legacy read_error max_files entry stored target node
            w).1
  unfolding reconcile_existing_file
  reconcile_existing_file-Same entry stored target node w h =
      if_elim (λ (m : Step Unit). S (m w).1) (not (is_truthy entry.expected_sha256)) _ _
        (λ _. change-Same _ _ _ _ w h)
        (λ _. elim (Option-cases (read_error target)) [
          | inl e ↦ rw e (compare_existing-Same entry stored node _ w h)
          | inr (exc, e) ↦ rw e (change-Same _ _ _ _ w h)
        ])

  pub note_existing-Same :
      (entry : Entry) (at : String × String) (node : Option Node) (w : World)
      → S w
      → S (note_existing sys clock legacy read_error max_files entry at node w).1
  unfolding note_existing
  note_existing-Same entry at none w h = h
  note_existing-Same entry at (some node) w h = and_then-Same items id _ _ w h λ tracked v h.
      if_elim (λ (m : Step Unit). S (m v).1) tracked _ _ (λ _. h)
        (λ _. reconcile_existing_file-Same entry at.0 at.1 node v h)

abbrev pub ranks_of : World → List ℕ
ranks_of w =
    map (λ item. item.queue_rank)
      (filter (λ item. str_eq item.run_id w.controller.run_id) w.controller.db.run_items)

ranks-append :
    (id url : String) (rank : ℕ) (items : List RunItem)
    → map
        (λ item. item.queue_rank)
        (filter
          (λ item. str_eq item.run_id id)
          (items ++ record { run_id = id; url = url; queue_rank = rank } ∷ []))
      ≡ map (λ item. item.queue_rank) (filter (λ item. str_eq item.run_id id) items) ++ rank ∷ []
unfolding filter
ranks-append id url rank [] = rw ((eq_iff id id).1 refl) refl
ranks-append id url rank (item ∷ items) = ground (arith, ranks-append id url rank items)

upto-suc : (n : ℕ) → upto (n + 1) ≡ upto n ++ n ∷ []
unfolding upto
upto-suc n = simp unary_clauses refl

module _ (sys : System) (clock : Clock) (legacy : String → Option String)
    (read_error : String → Option OsError) (max_files : ℕ) where
  -- If it returns, the items of the run have the ranks below the number of the selected.
  abbrev pub Ranked : Outcome (ℕ × ℕ) × World → Type 0
  Ranked o = (r : ℕ × ℕ) → o.0 ≡ returned r → ranks_of o.1 ≡ upto r.0

  pub Ranked-IsVacuous : IsVacuous Ranked
  Ranked-IsVacuous = record { at_raised = λ error w r e. cc; at_exited = λ w r e. cc }

  ranks-Same :
      (v w : World)
      → Same w.controller.db.run_items w.controller.run_id v.controller
      → ranks_of v ≡ ranks_of w
  ranks-Same v w h = rw (h.0, h.1) refl

  select_entry-ranks :
      (entry : Entry) (n : ℕ) (w : World)
      → ranks_of w ≡ upto n
      → ranks_of (select_entry sys clock legacy read_error max_files entry n w).1 ≡ upto (n + 1)
  unfolding select_entry
  select_entry-ranks entry n w h =
      ranks-append w.controller.run_id entry.url n w.controller.db.run_items
      ∙ ap (λ ranks. ranks ++ n ∷ []) h
      ∙ sym (upto-suc n)

  pub scope_loop-Ranked :
      (entries : List Entry) (selected existing : ℕ) (w : World)
      → ranks_of w ≡ upto selected
      → Ranked (scope_loop sys clock legacy read_error max_files entries selected existing w)
  unfolding scope_loop
  scope_loop-Ranked [] selected existing w h = λ r e. cc
  scope_loop-Ranked (entry ∷ entries) selected existing w h =
      if-cases Ranked (is_full max_files selected) _ _ w (λ full r e. cc)
        (λ room. and_then-cases Ranked Ranked-IsVacuous _ _ _ (λ files e.
          let at = resolved_storage_target sys clock legacy read_error max_files entry files in
          let noted =
            (note_existing sys clock legacy read_error max_files entry at (lookup at.1 files)
              w).1 in
          if-cases Ranked (exists (lookup at.1 files)) _ _ _
            (λ there. and_then-cases Ranked Ranked-IsVacuous _ _ _ (λ u e1.
              scope_loop-Ranked entries selected (existing + 1) noted (
                ranks-Same noted w (
                  note_existing-Same sys clock legacy read_error max_files w.controller.db.run_items
                    w.controller.run_id entry at (lookup at.1 files) w (refl, refl))
                ∙ h)))
            (λ absent. and_then-cases Ranked Ranked-IsVacuous _ _ _ (λ u e1.
              scope_loop-Ranked entries (selected + 1) existing
                (select_entry sys clock legacy read_error max_files entry selected w).1
                (select_entry-ranks entry selected w h)))))

  advanced-ranks :
      (w : World)
      → ranks_of (record w {
        controller = record (w.controller) {
          db = (advance_revision w.controller.run_id w.controller.db).0;
        };
      })
        ≡ ranks_of w
  unfolding advance_revision
  advanced-ranks w = refl

  pub select_all-Ranked :
      (entries : List Entry) (w : World)
      → ranks_of w ≡ []
      → Ranked (
          (do
            counts ← scope_loop sys clock legacy read_error max_files entries 0 0
            update (λ c. record c { db = (advance_revision c.run_id c.db).0 })
            pure counts)
            w)
  select_all-Ranked entries w h = and_then-cases Ranked Ranked-IsVacuous _ _ _ (λ counts e1.
      and_then-cases Ranked Ranked-IsVacuous _ _ _ (λ u e2 r e.
        advanced-ranks (scope_loop sys clock legacy read_error max_files entries 0 0 w).1
        ∙ scope_loop-Ranked entries 0 0 w (h ∙ unfold upto in refl) counts e1
        ∙ cc))
