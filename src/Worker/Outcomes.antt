-- ===== src/Worker/Outcomes.antt =====
-- Reasoning on the result of a step of `transfer` (src/tod-dl.py): the steps before it have returned.
use text.Mathlib.TextPositions.{eq_refl}
use tod_dl.Controller.{runtime_error, os_error, value_error, Error}
use tod_dl.Worker.{returned, raised, exited, Outcome, World, and_then, Step, handle}
use tod_dl.Base.{String, false, ◌≡◌, refl, str_eq, Bool, Option, none, true, if◌then◌else◌, some}

-- `Q` holds where no result is returned.
pub record IsVacuous {A : Type 0} (Q : Outcome A × World → Type 0) : Type 0 where
  pub at_raised : (error : Error) (w : World) → Q (raised error, w)
  pub at_exited : (w : World) → Q (exited, w)

pub and_then-cases :
    {A B : Type 0} (Q : Outcome B × World → Type 0)
    → IsVacuous Q
    → (o : Outcome A) (rest : A → Step B) (w : World) → ((a : A) → o ≡ returned a → Q (rest a w))
    → Q (and_then o rest w)
unfolding and_then
and_then-cases Q v (returned a) rest w h = h a refl
and_then-cases Q v (raised error) rest w h = v.at_raised error w
and_then-cases Q v exited rest w h = v.at_exited w

pub handle-cases :
    {A : Type 0} (Q : Outcome A × World → Type 0)
    → IsVacuous Q
    → (o : Outcome A) (handler : Error → Step A) (w : World)
    → ((a : A) → o ≡ returned a → Q (returned a, w))
    → ((e : Error) (w : World) → Q (handler e w))
    → Q (handle o handler w)
unfolding handle
handle-cases Q v (returned a) handler w h k = h a refl
handle-cases Q v (raised (runtime_error message)) handler w h k = k (runtime_error message) w
handle-cases Q v (raised (os_error exc)) handler w h k = k (os_error exc) w
handle-cases Q v (raised (value_error message)) handler w h k = v.at_raised (value_error message) w
handle-cases Q v exited handler w h k = v.at_exited w

-- What holds if the result is "complete".
abbrev pub Good : (World → Type 0) → Outcome String × World → Type 0
Good F o = o.0 ≡ returned "complete" → F o.1

pub Good-IsVacuous : (F : World → Type 0) → IsVacuous (Good F)
Good-IsVacuous F = record { at_raised = λ error w e. cc; at_exited = λ w e. cc }

-- The result is not "complete".
abbrev pub Never : Outcome String × World → Type 0
Never o = (x : String) → o.0 ≡ returned x → str_eq x "complete" ≡ false

pub Never-IsVacuous : IsVacuous Never
Never-IsVacuous = record { at_raised = λ error w x e. cc; at_exited = λ w x e. cc }

pub returned-Never :
    (text x : String)
    → str_eq text "complete" ≡ false
    → Outcome.returned text ≡ returned x
    → str_eq x "complete" ≡ false
returned-Never text x h e = cc

pub Never-Good : (F : World → Type 0) (o : Outcome String × World) → Never o → Good F o
Never-Good F o never e = cc (never "complete" e, eq_refl "complete")

module _ {A : Type 0} (Q : Outcome A × World → Type 0) where
  pub if-cases :
      (b : Bool) (m n : Step A) (w : World)
      → (b ≡ true → Q (m w))
      → (b ≡ false → Q (n w))
      → Q ((if b then m else n) w)
  if-cases true m n w h k = h refl
  if-cases false m n w h k = k refl

  pub option-cases :
      {B : Type 0} (o : Option B) (m : Step A) (f : B → Step A) (w : World)
      → (o ≡ none → Q (m w))
      → ((b : B) → o ≡ some b → Q (f b w))
      → Q ((elim o as (λ _. Step A) [ none ↦ m | some b ↦ f b ]) w)
  option-cases none m f w h k = h refl
  option-cases (some b) m f w h k = k b refl

-- A step of a method that ends with an answer other than "complete".
pub then-Never :
    {A : Type 0} (o : Outcome A) (rest : A → Step String) (w : World)
    → ((a : A) (w : World) → Never (rest a w))
    → Never (and_then o rest w)
then-Never o rest w h = and_then-cases Never Never-IsVacuous o rest w (λ a e. h a w)
