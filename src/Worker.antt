-- ===== src/Worker.antt =====
-- What the workers of `Downloader` (src/tod-dl.py) share: the state that a transfer changes, and the
-- steps that it is put together from.
pub mod Failures
pub mod Events
pub mod Representation
pub mod Transfer
pub mod Recovery
pub mod Keeps
pub mod Entries
pub mod Overwrites
pub mod Sound
pub mod Plain
pub mod Crash
pub mod Finishes
pub mod Outcomes
pub mod Integrity
pub mod Checked
pub mod Completion
pub mod Resume
pub mod Slots
pub mod Selection
use tod_dl.Files.{Node, Files}
use tod_dl.Telemetry.{Call}
use tod_dl.Controller.{OsError, value_error, Controller, Error, notify, Headers}
use tod_dl.Base.{
  ℕ, String, Bool, false, Option, none, some, List, str_eq, lookup, insert, erase, if◌then◌else◌,
}

-- What stands outside the code: hashes, `str.upper`, the regular expressions and `pathlib`, and what
-- the arguments say. `candidate_names` are the names that `uuid.uuid4()` gives for a staging file, one
-- after the other; `log_path` and `response_path` are the logs of an attempt at a url. `below root
-- path` are the directories between the root and the path, the
-- outermost first, if the path is below the root; `mkdir_error` is what making a directory raises.
pub record System : Type 0 where
  pub sha256_hex : String → String
  pub sha256 : List ℕ → String
  pub upper : String → String
  pub lower : String → String
  pub is_word : ℕ → Bool
  pub decimal_of : String → Option ℕ
  pub range_total : String → Option ℕ
  pub destination : String
  pub incoming : String
  pub below : String → String → Option (List String)
  pub mkdir_error : String → Option OsError
  pub name_of : String → String
  pub final_path : String → String
  pub stored_name : String → String
  pub stored_of_final : String → String
  pub staging_path : String → String
  pub staging_name : String → String
  pub candidate_names : String → List String
  pub log_path : String → ℕ → String
  pub response_path : String → ℕ → String
  pub workers : ℕ
  pub socks_backoff : ℕ

-- download_attempts, as far as it is written here
pub record Attempt : Type 0 where
  pub run_id : String
  pub url : String
  pub number : ℕ
  pub started_at : String
  pub ended_at : Option String
  pub outcome : Option String

-- value or other
unfoldable pub or_text : Option String → String → String
or_text none other = other
or_text (some text) other = if str_eq text "" then other else text

-- The controller, its workers' tables, the attempts and the tree. `failpoint` is the boundary at which
-- TOD_DL_FAILPOINT ends the process.
pub record World : Type 0 where
  pub controller : Controller
  pub files : Files
  pub attempts : List Attempt
  pub worker_ids : List (String × ℕ)
  pub active_attempts : List (String × ℕ)
  pub attempt_responses : List (String × Headers)
  pub resume_confirmed : List String
  pub cooldown_until : ℕ
  pub failpoint : Option String

-- A method returns, or an exception leaves it, or the process exits.
pub data Outcome (A : Type 0) : Type 0 where
  returned : A → Outcome A
  raised : Error → Outcome A
  exited : Outcome A

abbrev pub Step : Type 0 → Type 0
Step A = World → Outcome A × World

abbrev pub pure : {A : Type 0} → A → Step A
pure a w = (returned a, w)

abbrev pub raise : {A : Type 0} → Error → Step A
raise error w = (raised error, w)

module _ {A B : Type 0} where
  unfoldable pub and_then : Outcome A → (A → Step B) → Step B
  and_then (returned a) rest w = rest a w
  and_then (raised error) rest w = (raised error, w)
  and_then exited rest w = (exited, w)

  infixl 5 ◌>>=◌ ◌>>◌
  abbrev pub ◌>>=◌ : Step A → (A → Step B) → Step B
  m >>= rest = λ w. and_then (m w).0 rest (m w).1

  abbrev pub ◌>>◌ : Step A → Step B → Step B
  m >> n = m >>= λ _. n

abbrev pub gets : {A : Type 0} → (World → A) → Step A
gets f w = (returned (f w), w)

abbrev pub modify : (World → World) → Step Unit
modify f w = (returned tt, f w)

-- try: … except (OSError, RuntimeError) as exc: …
unfoldable pub handle : {A : Type 0} → Outcome A → (Error → Step A) → Step A
handle (returned a) handler w = (returned a, w)
handle (raised (value_error message)) handler w = (raised (value_error message), w)
handle (raised error) handler w = handler error w
handle exited handler w = (exited, w)

abbrev pub catch : {A : Type 0} → Step A → (Error → Step A) → Step A
catch m handler = λ w. handle (m w).0 handler (m w).1

-- A method of the controller, and its exception.
unfoldable pub outcome_of : Option Error → Outcome Unit
outcome_of none = returned tt
outcome_of (some error) = raised error

abbrev pub call : (Controller → Controller × Option Error) → Step Unit
call method w = let r = method w.controller in (outcome_of r.1, record w { controller = r.0 })

abbrev pub update : (Controller → Controller) → Step Unit
update f = modify (λ w. record w { controller = f w.controller })

-- if self.telemetry: self.telemetry.…
abbrev pub tell_all : Call → Step Unit
tell_all telling = update (notify telling)

unfoldable pub is_here : String → Option String → Bool
is_here name none = false
is_here name (some point) = str_eq point name

-- hit_failpoint
unfoldable pub hit_failpoint : String → Step Unit
hit_failpoint name w = if is_here name w.failpoint then (exited, w) else (returned tt, w)

abbrev pub node_at : String → Step (Option Node)
node_at path = gets (λ w. lookup path w.files)

abbrev pub put_node : String → Node → Step Unit
put_node path node = modify (λ w. record w { files = insert path node w.files })

abbrev pub unlink : String → Step Unit
unlink path = modify (λ w. record w { files = erase path w.files })
