-- ===== src/Worker/Completion.antt =====
-- `transfer` (src/tod-dl.py) returns "complete" only after its checks.
use tod_dl.Worker.Failures.{expected_size_from_response}
use tod_dl.Controller.{Headers}
use tod_dl.Worker.Transfer.Promotion.{validate, size_mismatch}
use tod_dl.Worker.Sound.{and_then-returned}
use tod_dl.Worker.Outcomes.{
  Good, IsVacuous, Good-IsVacuous, Never-Good, and_then-cases, if-cases, option-cases,
  returned-Never,
}
use tod_dl.Worker.Checked.{IsChecked, fail_attempt-Never, skip_existing-Never, validate-Good}
use tod_dl.Worker.Events.{control_of, response_of, clear_transfer_telemetry, no_response}
use tod_dl.Manifest.{Row}
use tod_dl.Files.{Node, Files, exists, size_of}
use mathlib.Core.Path.{subst}
use text.Mathlib.TextPositions.{eq_refl}
use tod_dl.Worker.{◌>>=◌, returned, ◌>>=◌, ◌>>◌, System, Outcome, World, pure, raise, node_at}
use tod_dl.Worker.Transfer.{
  resume_gate, admit, set_node, run_aria2, Engine, Gate, fail_attempt, capture_response,
}
use tod_dl.Worker.Transfer.Run.{
  transfer, attempt, begin, skip_existing, own_target, own_staging, own_stored,
}
use tod_dl.Base.{
  ℕ, String, Bool, true, false, Option, none, some, List, ◌≡◌, refl, sym, ◌∙◌, str_eq, lookup,
  insert, length, lookup-insert, lookup-erase, if◌then◌else◌,
}

set_node-same :
    (path : String) (node : Option Node) (files : Files)
    → lookup path (set_node path node files) ≡ node
unfolding set_node
set_node-same path none files = rw (lookup-erase path path files, eq_refl path) refl
set_node-same path (some node) files = rw (lookup-insert path path node files, eq_refl path) refl

set_node_ne :
    (path other : String) (node : Option Node) (files : Files)
    → str_eq path other ≡ false
    → lookup other (set_node path node files) ≡ lookup other files
unfolding set_node
set_node_ne path other none files ne = rw (lookup-erase path other files, ne) refl
set_node_ne path other (some node) files ne = rw (lookup-insert path other node files, ne) refl

module _ (sys : System) (eng : Engine) (row : Row) where
  abbrev staging : String
  staging = own_staging sys eng row

  -- What aria2 left is what is found.
  abbrev Left : World → Type 0
  Left w = (lookup staging w.files ≡ eng.staged) × (response_of row.url w ≡ eng.response)

  abbrev Leaves : Outcome (Bool × String) × World → Type 0
  Leaves o = (x : Bool × String) → o.0 ≡ returned x → Left o.1

  module _ (alone : str_eq (control_of sys staging) staging ≡ false) where
    response_of-insert :
        (responses : List (String × Headers))
        → (elim (lookup row.url (insert row.url eng.response responses)) as (λ _. Headers) [
          | none ↦ no_response
          | some headers ↦ headers
        ])
          ≡ eng.response
    response_of-insert responses =
        rw (lookup-insert row.url row.url eng.response responses, eq_refl row.url) refl

    run_aria2-Leaves : (w : World) → Leaves (run_aria2 sys eng row staging w)
    unfolding run_aria2 response_of capture_response
    run_aria2-Leaves w =
        let V : IsVacuous Leaves = record {
          at_raised = λ error w x e. cc;
          at_exited = λ w x e. cc;
        } in
        and_then-returned Leaves _ tt _ _ refl (
          and_then-returned Leaves _ tt _ _ refl (
            and_then-returned Leaves _ tt _ _ refl (
              option-cases Leaves eng.aria2_error (pure (eng.ok, eng.error))
                (λ error. clear_transfer_telemetry row.url >> raise error) _
                (λ t x e. (
                  set_node_ne (control_of sys staging) staging eng.control _ alone
                      ∙ set_node-same staging eng.staged _,
                  response_of-insert w.attempt_responses,
                ))
                (λ error t. and_then-cases Leaves V _ _ _ (λ u e x f. cc)))))

    module _ (apart : str_eq staging (own_target sys eng row) ≡ false) where
      abbrev F : World → Type 0
      F = IsChecked sys row (own_target sys eng row) staging eng.staged eng.response

      F-IsVacuous : IsVacuous (Good F)
      F-IsVacuous = Good-IsVacuous F

      outcome-Good :
          (worker size : ℕ) (result : Bool × String) (stalled failed : Bool) (w : World)
          → Left w
          → Good F (
              (if failed
                  then fail_attempt sys
                      (record eng { error = result.1 })
                      row
                      worker
                      staging
                      size
                      stalled
                  else validate sys eng row
                      (own_target sys eng row)
                      (own_stored sys eng row)
                      staging
                      worker)
                w)
      outcome-Good worker size result stalled true w left = Never-Good F _ (
          fail_attempt-Never sys (record eng { error = result.1 }) row worker staging size stalled
            w)
      outcome-Good worker size result stalled false w left = λ e.
          let checked =
            validate-Good sys eng row (own_target sys eng row) (own_stored sys eng row) staging
              worker apart w e in
          record {
            bytes = checked.bytes;
            fetched = sym left.0 ∙ checked.fetched;
            agrees = checked.agrees;
            whole =
                subst
                  (λ (h : Headers).
                    size_mismatch (expected_size_from_response sys h) (length checked.bytes) ≡ none)
                  left.1 checked.whole;
            finished = checked.finished;
          }

      attempt-Good :
          (worker : ℕ) (fields : Row → Row) (w : World)
          → Good F (attempt sys eng row worker fields w)
      unfolding attempt
      attempt-Good worker fields w = and_then-cases (Good F) F-IsVacuous _ _ _ (λ u e1.
          and_then-cases (Good F) F-IsVacuous _ _ _ (λ u e2.
            and_then-cases (Good F) F-IsVacuous _ _ _ (λ u e3.
              and_then-cases (Good F) F-IsVacuous _ _ _ (λ result e4.
                let left = run_aria2-Leaves _ result e4 in
                and_then-returned (Good F) _ _ _ _ refl (
                  and_then-returned (Good F) _ _ _ _ refl (
                    and_then-returned (Good F) _ _ _ _ refl
                      (outcome-Good worker _ result _ _ _ left)))))))

      begin-Good : (worker : ℕ) (gate : Gate) (w : World) → Good F (begin sys eng row worker gate w)
      unfolding begin
      begin-Good worker Gate.stop w = Never-Good F _ (λ x. returned-Never "review" x refl)
      begin-Good worker (Gate.go fields) w = attempt-Good worker fields w

      admitted-Good :
          (w : World)
          → Good F (
              (do
                worker ← admit sys eng row staging
                partial ← node_at staging
                gate ← resume_gate sys eng row staging partial
                begin sys eng row worker gate)
                w)
      admitted-Good w = and_then-cases (Good F) F-IsVacuous _ _ _ (λ worker e1.
          and_then-cases (Good F) F-IsVacuous _ _ _ (λ partial e2.
            and_then-cases (Good F) F-IsVacuous _ _ _ (λ gate e3. begin-Good worker gate _)))

      -- A transfer whose own names differ (the staging file from its control file and from the
      -- target) returns "complete" only if aria2 left a regular staging file whose hash agrees with
      -- the expected one, if the item has one, and whose length agrees with the one that the
      -- response announces, if it announces one. Then the item is complete with the hash of these
      -- bytes, the target holds them, and nothing is left at the staging path.
      pub transfer-checks :
          (w : World)
          → (transfer sys eng row w).0 ≡ returned "complete"
          → IsChecked sys row
              (own_target sys eng row)
              staging
              eng.staged
              eng.response
              (transfer sys eng row w).1
      unfolding transfer
      transfer-checks w =
          and_then-returned (Good F) _ (lookup (own_target sys eng row) w.files) _ _ refl (
            if-cases (Good F) (exists (lookup (own_target sys eng row) w.files))
              (skip_existing sys eng row (size_of (lookup (own_target sys eng row) w.files))) _ w
              (λ t. Never-Good F _ (skip_existing-Never sys eng row _ w)) (λ t. admitted-Good w))
