-- ===== src/Worker/Integrity/Changes.antt =====
-- What a call of `transition` that returned has found and left (src/tod-dl.py).
use tod_dl.Controller.Effect.{transition-Committed}
use tod_dl.Worker.Representation.{change}
use tod_dl.Manifest.Rows.{KeepsUrl}
use tod_dl.Manifest.{Clock, Row, find_row}
use tod_dl.Controller.{transition, runtime_error}
use tod_dl.Status.{Status}
use text.Mathlib.TextPositions.{eq_refl}
use tod_dl.Worker.{returned, raised, System, hit_failpoint, World, outcome_of, Outcome, is_here}
use tod_dl.Base.{String, Option, none, some, ◌≡◌, refl, ◌∙◌, inl, inr, Option-cases, if_elim, ◌<>◌}

change_absent :
    (sys : System) (clock : Clock) (url : String) (status : Status) (detail : Option String)
    (fields : Row → Row) (w : World)
    → find_row url w.controller.db.downloads ≡ none
    → (change sys clock url status detail fields w).0
      ≡ raised (runtime_error ("missing download row: " <> url))
unfolding transition outcome_of
change_absent sys clock url status detail fields w absent = rw (transition, absent) refl

-- A change that returned had a row to change.
pub change-found :
    (sys : System) (clock : Clock) (url : String) (status : Status) (detail : Option String)
    (fields : Row → Row) (keeps : KeepsUrl fields) (w : World)
    → (change sys clock url status detail fields w).0 ≡ returned tt
    → (r : Row) × (find_row url w.controller.db.downloads ≡ some r)
      × (find_row url (change sys clock url status detail fields w).1.controller.db.downloads
          ≡ some (fields (record r { status = status; updated_at = clock.stamp })))
unfolding transition outcome_of
change-found sys clock url status detail fields keeps w e =
    elim (Option-cases (find_row url w.controller.db.downloads)) [
      | inl absent ↦ cc (change_absent sys clock url status detail fields w absent)
      | inr (r, found) ↦ (
        r,
        found,
        (transition-Committed sys.sha256_hex clock url status detail fields keeps w.controller r
                found).1.rows
              url
            ∙ rw (eq_refl url) refl,
      )
    ]

pub hit_failpoint-controller :
    (name : String) (w : World) → (hit_failpoint name w).1.controller ≡ w.controller
unfolding hit_failpoint
hit_failpoint-controller name w =
    if_elim (λ (r : Outcome Unit × World). r.1.controller ≡ w.controller) (is_here name w.failpoint)
      _ _ (λ t. refl) (λ t. refl)
