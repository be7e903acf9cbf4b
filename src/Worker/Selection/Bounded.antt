-- ===== src/Worker/Selection/Bounded.antt =====
-- A dry run counts what `scope_run` selects, and the selection is bounded (src/tod-dl.py).
use tod_dl.Worker.Selection.Chosen.{Ranked, select_all-Ranked, ranks_of, upto}
use mathlib.Core.Path.{subst, sym, ap}
use mathlib.Core.List.{[], ◌∷◌}
use tod_dl.Worker.Sound.{and_then-returned}
use tod_dl.Worker.Keeps.{Keeps, and_then-Keeps, if-Keeps, option-Keeps, finalized_event-Keeps}
use tod_dl.Worker.Outcomes.{IsVacuous, if-cases, and_then-cases}
use tod_dl.Files.{Files, Node, exists, node_bytes}
use tod_dl.Controller.{OsError, Controller}
use tod_dl.Manifest.{Clock, RunItem, advance_revision}
use tod_dl.Worker.{
  ◌>>=◌, gets, ◌>>=◌, ◌>>◌, returned, System, Outcome, World, pure, or_text, Step, update,
}
use tod_dl.Worker.Selection.{
  scope_loop, select_entry, resolved_storage_target, is_full, dry_run, note_existing,
  reconcile_existing_file, compare_existing, Entry, scope_run, start_revision,
}
use tod_dl.Base.{
  length, length, filter, ℕ, ◌+◌, String, Bool, true, false, not, Option, none, some, List, ◌≡◌,
  refl, str_eq, lookup, is_truthy, if◌then◌else◌, ◌==◌, Bool-cases, ◌≤◌, inl, inr, arith, ◌∙◌,
}

returned_injective : (a b : ℕ × ℕ) → Outcome.returned a ≡ returned b → a ≡ b
returned_injective a b e = cc

module _ (sys : System) (clock : Clock) (legacy : String → Option String)
    (read_error : String → Option OsError) (max_files : ℕ) where
  abbrev place : Entry → Files → String × String
  place = resolved_storage_target sys clock legacy read_error max_files

  abbrev is_there : Entry → Files → Bool
  is_there entry files = exists (lookup (place entry files).1 files)

  abbrev dry : Files → List Entry → ℕ → ℕ → ℕ × ℕ
  dry = dry_run sys clock legacy read_error max_files

  dry-full :
      (files : Files) (entry : Entry) (entries : List Entry) (selected existing : ℕ)
      → is_full max_files selected ≡ true
      → dry files (entry ∷ entries) selected existing ≡ (selected, existing)
  unfolding dry_run
  dry-full files entry entries selected existing full = rw (dry_run, full) refl

  dry-there :
      (files : Files) (entry : Entry) (entries : List Entry) (selected existing : ℕ)
      → is_full max_files selected ≡ false
      → is_there entry files ≡ true
      → dry files (entry ∷ entries) selected existing ≡ dry files entries selected (existing + 1)
  unfolding dry_run
  dry-there files entry entries selected existing open_ there = rw (dry_run, open_, there) refl

  dry-missing :
      (files : Files) (entry : Entry) (entries : List Entry) (selected existing : ℕ)
      → is_full max_files selected ≡ false
      → is_there entry files ≡ false
      → dry files (entry ∷ entries) selected existing ≡ dry files entries (selected + 1) existing
  unfolding dry_run
  dry-missing files entry entries selected existing open_ there = rw (dry_run, open_, there) refl

  module _ (P : Files → Type 0) where
    compare_existing-Keeps :
        (entry : Entry) (stored : String) (node : Node) (expected : String)
        → Keeps P
            (compare_existing sys clock legacy read_error max_files entry stored node expected)
    unfolding compare_existing
    compare_existing-Keeps entry stored node expected w p =
        if-Keeps P (not (str_eq (sys.lower (sys.sha256 (node_bytes node))) (sys.lower expected))) _
          _ w p
          (and_then-Keeps P _ _ _ (finalized_event-Keeps P sys _ _ _ _ _ _ _ w p) (λ u w p. p))

    reconcile_existing_file-Keeps :
        (entry : Entry) (stored target : String) (node : Node)
        → Keeps P
            (reconcile_existing_file sys clock legacy read_error max_files entry stored target node)
    unfolding reconcile_existing_file
    reconcile_existing_file-Keeps entry stored target node w p =
        if-Keeps P (not (is_truthy entry.expected_sha256)) _ _ w p (
          option-Keeps P (read_error target) _ _ w
            (compare_existing-Keeps entry stored node (or_text entry.expected_sha256 "") w p)
            (λ exc. p))

    note_existing-Keeps :
        (entry : Entry) (at : String × String) (node : Option Node)
        → Keeps P (note_existing sys clock legacy read_error max_files entry at node)
    unfolding note_existing
    note_existing-Keeps entry at none w p = p
    note_existing-Keeps entry at (some node) w p = and_then-Keeps P _ _ _ p (λ tracked w p.
        if-Keeps P tracked (pure tt)
          (reconcile_existing_file sys clock legacy read_error max_files entry at.0 at.1 node) w p
          (reconcile_existing_file-Keeps entry at.0 at.1 node w p))

  abbrev Counts : Files → List Entry → ℕ → ℕ → Outcome (ℕ × ℕ) × World → Type 0
  Counts files entries selected existing o =
      (r : ℕ × ℕ) → o.0 ≡ returned r → dry files entries selected existing ≡ r

  Counts-IsVacuous :
      (files : Files) (entries : List Entry) (selected existing : ℕ)
      → IsVacuous (Counts files entries selected existing)
  Counts-IsVacuous files entries selected existing = record {
    at_raised = λ error w r e. cc;
    at_exited = λ w r e. cc;
  }

  abbrev loop : List Entry → ℕ → ℕ → Step (ℕ × ℕ)
  loop = scope_loop sys clock legacy read_error max_files

  abbrev note : Entry → Files → Step Unit
  note entry files =
      note_existing sys clock legacy read_error max_files entry (place entry files)
        (lookup (place entry files).1 files)

  -- One entry, where the others are counted right.
  entry-Counts :
      (entry : Entry) (entries : List Entry) (selected existing : ℕ) (w : World)
      → is_full max_files selected ≡ false
      → ((selected existing : ℕ) (v : World)
          → v.files ≡ w.files
          → Counts w.files entries selected existing (loop entries selected existing v))
      → Counts w.files (entry ∷ entries) selected existing (
          (if is_there entry w.files
              then note entry w.files >> loop entries selected (existing + 1)
              else select_entry sys clock legacy read_error max_files entry selected
                >> loop entries (selected + 1) existing)
            w)
  unfolding select_entry
  entry-Counts entry entries selected existing w room ih =
      let Q = Counts w.files (entry ∷ entries) selected existing in
      let v = Counts-IsVacuous w.files (entry ∷ entries) selected existing in
      if-cases Q (is_there entry w.files) _ _ w
        (λ there. and_then-cases Q v _ _ _ (λ u e1 r e.
          dry-there w.files entry entries selected existing room there
          ∙ ih selected (existing + 1) _
              (note_existing-Keeps (λ files. files ≡ w.files) entry (place entry w.files)
                (lookup (place entry w.files).1 w.files) w refl)
              r e))
        (λ absent. and_then-cases Q v _ _ _ (λ u e1 r e.
          dry-missing w.files entry entries selected existing room absent
          ∙ ih (selected + 1) existing _ refl r e))

  scope_loop-Counts :
      (entries : List Entry) (selected existing : ℕ) (w : World)
      → Counts w.files entries selected existing (loop entries selected existing w)
  unfolding scope_loop
  scope_loop-Counts [] selected existing w = λ r e. unfold dry_run in cc
  scope_loop-Counts (entry ∷ entries) selected existing w =
      let Q = Counts w.files (entry ∷ entries) selected existing in
      let after = entry-Counts entry entries selected existing w in
      let ih = λ (s e : ℕ) (v : World) (kept : v.files ≡ w.files).
        subst (λ (f : Files). Counts f entries s e (loop entries s e v)) kept
          (scope_loop-Counts entries s e v) in
      elim (Bool-cases (is_full max_files selected)) [
        | inl full ↦ rw full (λ r e. dry-full w.files entry entries selected existing full ∙ cc)
        | inr room ↦ rw room (and_then-returned Q _ w.files _ _ refl (after room ih))
      ]

  dry_run-bounded :
      (files : Files) (entries : List Entry) (selected existing : ℕ)
      → (max_files == 0) ≡ false
      → selected ≤ max_files
      → (dry files entries selected existing).0 ≤ max_files
  dry_run-bounded files [] selected existing some_bound low = unfold dry_run in low
  dry_run-bounded files (entry ∷ entries) selected existing some_bound low =
      elim (Bool-cases (is_full max_files selected)) [
        | inl full ↦ rw (dry-full files entry entries selected existing full) low
        | inr open_ ↦ elim (Bool-cases (is_there entry files)) [
          | inl there ↦
              rw (dry-there files entry entries selected existing open_ there)
                (dry_run-bounded files entries selected (existing + 1) some_bound low)
          | inr absent ↦ rw (dry-missing files entry entries selected existing open_ absent) (
              dry_run-bounded files entries (selected + 1) existing some_bound
                (unfold is_full in ground arith))
        ]
      ]

  start_revision_lem :
      (c : Controller)
      → ((start_revision sys clock legacy read_error max_files c).db.run_items ≡ c.db.run_items)
        × ((start_revision sys clock legacy read_error max_files c).run_id ≡ c.run_id)
  unfolding start_revision
  start_revision_lem c = (ground arith, ground arith)

  abbrev items_of_run : Controller → List RunItem
  items_of_run c = filter (λ item. str_eq item.run_id c.run_id) c.db.run_items

  still_fresh :
      (c : Controller)
      → items_of_run c ≡ []
      → length (items_of_run (start_revision sys clock legacy read_error max_files c)) ≡ 0
  still_fresh c fresh = rw ((start_revision_lem c).1, (start_revision_lem c).0, fresh) refl

  abbrev HasRanks : Outcome (ℕ × ℕ) × World → Type 0
  HasRanks = Ranked sys clock legacy read_error max_files

  select_all : List Entry → Step (ℕ × ℕ)
  select_all entries = do
    counts ← loop entries 0 0
    update (λ c. record c { db = (advance_revision c.run_id c.db).0 })
    pure counts

  select_all-Counts :
      (entries : List Entry) (w : World) → Counts w.files entries 0 0 (select_all entries w)
  unfolding select_all
  select_all-Counts entries w =
      let Q = Counts w.files entries 0 0 in
      let v = Counts-IsVacuous w.files entries 0 0 in
      and_then-cases Q v _ _ _ (λ counts e1.
        and_then-returned Q _ tt _ _ refl
          (λ r e. scope_loop-Counts entries 0 0 w counts e1 ∙ returned_injective counts r e))

  decide : List Entry → ℕ → Step (ℕ × ℕ)
  decide entries previous = if not (previous == 0) then pure (previous, 0) else select_all entries

  scope_run-Counts :
      (entries : List Entry) (w : World)
      → items_of_run w.controller ≡ []
      → Counts w.files entries 0 0 (scope_run sys clock legacy read_error max_files entries w)
  unfolding scope_run select_all decide
  scope_run-Counts entries w fresh =
      let Q = Counts w.files entries 0 0 in
      let started = start_revision sys clock legacy read_error max_files w.controller in
      let v = record w { controller = started } in
      and_then-returned Q _ tt
        (λ u. gets (λ w. length (items_of_run w.controller)) >>= decide entries) v refl
        (and_then-returned Q (returned (length (items_of_run started))) 0 (decide entries) v
          (ap returned (still_fresh w.controller fresh)) (select_all-Counts entries v))

  decide-Ranked :
      (entries : List Entry) (w : World) → ranks_of w ≡ [] → HasRanks (decide entries 0 w)
  unfolding decide select_all
  decide-Ranked entries w h = select_all-Ranked sys clock legacy read_error max_files entries w h

  scope_run-Ranked :
      (entries : List Entry) (w : World)
      → items_of_run w.controller ≡ []
      → HasRanks (scope_run sys clock legacy read_error max_files entries w)
  unfolding scope_run select_all decide
  scope_run-Ranked entries w fresh =
      let started = start_revision sys clock legacy read_error max_files w.controller in
      let v = record w { controller = started } in
      let none_yet : ranks_of v ≡ [] =
        rw ((start_revision_lem w.controller).1, (start_revision_lem w.controller).0, fresh) refl in
      and_then-returned HasRanks _ tt
        (λ u. gets (λ w. length (items_of_run w.controller)) >>= decide entries) v refl
        (and_then-returned HasRanks (returned (length (items_of_run started))) 0 (decide entries) v
          (ap returned (still_fresh w.controller fresh)) (decide-Ranked entries v none_yet))

  pub scope_run-dry_run :
      (entries : List Entry) (w : World) (counts : ℕ × ℕ)
      → filter (λ item. str_eq item.run_id w.controller.run_id) w.controller.db.run_items ≡ []
      → (scope_run sys clock legacy read_error max_files entries w).0 ≡ returned counts
      → (dry w.files entries 0 0 ≡ counts)
        × (ranks_of (scope_run sys clock legacy read_error max_files entries w).1 ≡ upto counts.0)
        × ((max_files == 0) ≡ false → counts.0 ≤ max_files)
  scope_run-dry_run entries w counts fresh e =
      let same = scope_run-Counts entries w fresh counts e in
      (
        same,
        scope_run-Ranked entries w fresh counts e,
        λ limited. rw (sym same) (dry_run-bounded w.files entries 0 0 limited (omega arith)),
      )
