-- ===== src/Worker/Integrity.antt =====
-- What a transfer that returns "complete" has checked and left (`transfer`, src/tod-dl.py).
mod Changes
use tod_dl.Worker.Integrity.Changes.{change-found, hit_failpoint-controller}
use tod_dl.Worker.Entries.{record_intent-Has}
use tod_dl.Telemetry.{Call}
use tod_dl.Worker.Sound.{and_then-returned}
use tod_dl.Worker.Representation.{change}
use tod_dl.Worker.Keeps.{
  hit_failpoint-Keeps, check_io-Keeps, clear_transfer_telemetry-Keeps, finalized_event-Keeps,
  handle-Keeps, and_then-Keeps, refuse_promotion-Keeps,
}
use tod_dl.Worker.Outcomes.{
  Good, IsVacuous, Good-IsVacuous, Never, and_then-cases, Never-IsVacuous, returned-Never,
  Never-Good, handle-cases,
}
use tod_dl.Worker.Recovery.Completes.{IsFinished}
use tod_dl.Manifest.{Row, find_row}
use tod_dl.Worker.Transfer.{Engine}
use tod_dl.Controller.{Error, notify, os_error, Controller}
use tod_dl.Status.{Status}
use tod_dl.Files.{file, Files, Node}
use mathlib.Core.Option.{some-injective}
use text.Mathlib.TextPositions.{eq_refl}
use tod_dl.Worker.{
  ◌>>=◌, ◌>>◌, returned, System, hit_failpoint, World, Outcome, Step, unlink, tell_all, pure, catch,
  put_node,
}
use tod_dl.Worker.Transfer.Promotion.{
  promote, record_intent, link_target, complete_promotion, check_io, refuse_promotion,
  yield_to_existing,
}
use tod_dl.Base.{
  ℕ, String, Bool, false, Option, none, some, List, ◌≡◌, refl, sym, ap, ◌∙◌, inl, inr, str_eq,
  lookup, insert, lookup-insert, lookup-erase, Option-cases,
}

module _ (sys : System) (eng : Engine) (row : Row) (target stored staging : String) (worker : ℕ)
    (apart : str_eq staging target ≡ false) where
  module _ (bytes : List ℕ) where
    abbrev Fin : World → Type 0
    Fin = IsFinished row.url target staging (sys.sha256 bytes) bytes

    abbrev G : Outcome String × World → Type 0
    G = Good Fin

    v : IsVacuous G
    v = Good-IsVacuous Fin

    abbrev H : Files → Type 0
    H files = lookup target files ≡ some (file bytes)

    refuse_promotion-Never :
        (digest : String) (fields : Row → Row) (exc : Error) (w : World)
        → Never (refuse_promotion sys eng row target stored staging worker digest fields exc w)
    unfolding refuse_promotion
    refuse_promotion-Never digest fields exc w = and_then-cases Never Never-IsVacuous _ _ _ (λ n e.
        and_then-cases Never Never-IsVacuous _ _ _ (λ u e.
          and_then-cases Never Never-IsVacuous _ _ _ (λ u e. λ x. returned-Never "review" x refl)))

    yield_to_existing-Never :
        (digest : String) (w : World)
        → Never (yield_to_existing sys eng row target stored staging worker digest w)
    unfolding yield_to_existing
    yield_to_existing-Never digest w = and_then-cases Never Never-IsVacuous _ _ _ (λ c e.
        and_then-cases Never Never-IsVacuous _ _ _ (λ u e.
          and_then-cases Never Never-IsVacuous _ _ _ (λ m e.
            and_then-cases Never Never-IsVacuous _ _ _ (λ u e.
              and_then-cases Never Never-IsVacuous _ _ _
                (λ u e. λ x. returned-Never "candidate" x refl)))))

    -- From the commit on.
    commit-Good :
        (size : ℕ) (w : World)
        → H w.files
        → G (
            (do
              change sys eng.clock row.url Status.complete none
                  (λ r. record r { bytes = some size; sha256 = some (sys.sha256 bytes) })
              hit_failpoint "post_completion_commit"
              unlink staging
              change sys eng.clock row.url Status.complete
                  (some "staging cleanup complete")
                  (λ r. record r { cleanup_completed_at = some eng.clock.stamp })
              tell_all (Call.item_event "info" "complete" "transfer complete" row.url worker)
              pure "complete")
              w)
    unfolding notify
    commit-Good size w p =
        let set = λ (r : Row). record r { bytes = some size; sha256 = some (sys.sha256 bytes) } in
        let w1 = (change sys eng.clock row.url Status.complete none set w).1 in
        let w2 = (hit_failpoint "post_completion_commit" w1).1 in
        let w3 = (unlink staging w2).1 in
        let p2 = hit_failpoint-Keeps H "post_completion_commit" w1 p in
        and_then-cases G v _ _ _ (λ u e1. and_then-cases G v _ _ _ (λ u e2.
          and_then-cases G v _ _ _ (λ u e3. and_then-cases G v _ _ _ (λ u e4.
            and_then-cases G v _ _ _ (λ u e5 e.
              let (r, found, after) =
                change-found sys eng.clock row.url Status.complete none set (λ r. refl) w e1 in
              let (q, found', after') =
                change-found sys eng.clock row.url Status.complete (some "staging cleanup complete")
                  (λ r. record r { cleanup_completed_at = some eng.clock.stamp }) (λ r. refl) w3
                  e4 in
              let same = some-injective q _ (
                sym found'
                ∙ ap (λ (c : Controller). find_row row.url c.db.downloads)
                    (hit_failpoint-controller "post_completion_commit" w1)
                ∙ after) in
              record {
                row = _;
                found = after';
                complete = refl;
                hashed = ap (λ (x : Row). x.sha256) same;
                cleaned = refl;
                final = rw (lookup-erase staging target w2.files, apart) p2;
                gone = rw (lookup-erase staging staging w2.files, eq_refl staging) refl;
              })))))

    complete_promotion-Good :
        (compared : Bool) (w : World)
        → H w.files
        → G (
            complete_promotion sys eng row target stored staging worker
              (sys.sha256 bytes)
              compared
              w)
    unfolding complete_promotion
    complete_promotion-Good compared w p =
        let w1 = (hit_failpoint "post_final_file_creation" w).1 in
        let p1 = hit_failpoint-Keeps H "post_final_file_creation" w p in
        let w2 = (check_io eng.directory_error w1).1 in
        let p2 = check_io-Keeps H eng.directory_error w1 p1 in
        and_then-cases G v _ _ _ (λ u e1. and_then-cases G v _ _ _ (λ u e2.
          and_then-cases G v _ _ _ (λ size e3. and_then-cases G v _ _ _ (λ u e4.
            and_then-cases G v _ _ _ (λ u e5. commit-Good size _ (
              clear_transfer_telemetry-Keeps H row.url _ (
                finalized_event-Keeps H sys row.url row.relative_path stored size (sys.sha256 bytes)
                  row.expected_sha256 compared w2 p2)))))))

    -- The branch on what is at the target.
    link-Good :
        (compared : Bool) (there : Option Node) (w : World)
        → G (
            (elim there as (λ _. Step String) [
              | some node ↦
                  yield_to_existing sys eng row target stored staging worker (sys.sha256 bytes)
              | none ↦ elim eng.link_error as (λ _. Step String) [
                | some exc ↦
                    refuse_promotion sys eng row target stored staging worker
                      (sys.sha256 bytes)
                      (λ r. record r { promotion_target = some target })
                      (os_error exc)
                | none ↦ do
                  put_node target (file bytes)
                  complete_promotion sys eng row target stored staging worker
                      (sys.sha256 bytes)
                      compared
              ]
            ])
              w)
    link-Good compared (some node) w =
        Never-Good Fin _ (yield_to_existing-Never (sys.sha256 bytes) w)
    link-Good compared none w = elim (Option-cases eng.link_error) [
      | inr (exc, e) ↦ rw e (Never-Good Fin _ (refuse_promotion-Never _ _ (os_error exc) w))
      | inl e ↦ rw e (
          and_then-returned G _ tt _ _ refl (
            complete_promotion-Good compared
              (record w { files = insert target (file bytes) w.files })
              (rw (lookup-insert target target (file bytes) w.files, eq_refl target) refl)))
    ]

    link_target-Good :
        (compared : Bool) (w : World)
        → lookup staging w.files ≡ some (file bytes)
        → G (link_target sys eng row target stored staging worker (sys.sha256 bytes) compared w)
    unfolding link_target
    link_target-Good compared w staged = and_then-cases G v _ _ _ (λ there e.
        and_then-returned G _ (some (file bytes)) _ _ (ap returned staged)
          (link-Good compared there w))

    abbrev Recorded : Outcome (Option String) × World → Type 0
    Recorded o = (a : Option String) → o.0 ≡ returned a → a ≡ none

    -- A refusal is not named "complete".
    abbrev Refused : Outcome (Option String) × World → Type 0
    Refused o = (x : String) → o.0 ≡ returned (some x) → str_eq x "complete" ≡ false

    intent_step : Step (Option String)
    intent_step =
        catch
          (record_intent sys eng row target stored staging worker (sys.sha256 bytes) >> pure none)
          (λ exc.
            refuse_promotion sys eng row target stored staging worker (sys.sha256 bytes) (λ r. r)
              exc
            >>= λ result. pure (some result))

    intent_step-Refused : (w : World) → Refused (intent_step w)
    unfolding intent_step
    intent_step-Refused w =
        let Refused-IsVacuous : IsVacuous Refused = record {
          at_raised = λ error w x e. cc;
          at_exited = λ w x e. cc;
        } in
        let Recorded-IsVacuous : IsVacuous Recorded = record {
          at_raised = λ error w a e. cc;
          at_exited = λ w a e. cc;
        } in
        handle-cases Refused Refused-IsVacuous _ _ _
          (λ a e x f. cc (
            and_then-cases Recorded Recorded-IsVacuous
              (record_intent sys eng row target stored staging worker (sys.sha256 bytes) w).0
              (λ u. pure none) _ (λ u e b f. cc) a e))
          (λ exc w. and_then-cases Refused Refused-IsVacuous _ _ _ (λ result e x f.
            cc (refuse_promotion-Never (sys.sha256 bytes) (λ r. r) exc w result e)))

    intent_step-keeps :
        (w : World)
        → lookup staging w.files ≡ some (file bytes)
        → lookup staging (intent_step w).1.files ≡ some (file bytes)
    unfolding intent_step
    intent_step-keeps w staged =
        let K = λ (files : Files). lookup staging files ≡ some (file bytes) in
        handle-Keeps K _ _ _
          (and_then-Keeps K _ _ _
            (record_intent-Has staging (file bytes) sys eng row target stored staging worker _ w
              staged)
            (λ u w h. h))
          (λ exc w h.
            and_then-Keeps K _ _ _
              (refuse_promotion-Keeps K sys eng row target stored staging worker _ _ _ w h)
              (λ r w h. h))

    after-Good :
        (compared : Bool) (stopped : Option String) (w : World)
        → lookup staging w.files ≡ some (file bytes)
        → ((x : String) → stopped ≡ some x → str_eq x "complete" ≡ false)
        → G (
            (elim stopped as (λ _. Step String) [
              | some result ↦ pure result
              | none ↦
                  link_target sys eng row target stored staging worker (sys.sha256 bytes) compared
            ])
              w)
    after-Good compared none w staged h = link_target-Good compared w staged
    after-Good compared (some result) w staged h =
        Never-Good Fin (returned result, w) (λ x. returned-Never result x (h result refl))

    pub promote-Good :
        (compared : Bool) (w : World)
        → lookup staging w.files ≡ some (file bytes)
        → G (promote sys eng row target stored staging worker (sys.sha256 bytes) compared w)
    unfolding promote intent_step
    promote-Good compared w staged = and_then-cases G v _ _ _ (λ stopped e.
        after-Good compared stopped _ (intent_step-keeps w staged)
          (λ x f. intent_step-Refused w x (e ∙ ap returned f)))
