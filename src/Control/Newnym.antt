-- ===== src/Control/Newnym.antt =====
-- `request_newnym`: fresh Tor circuits under a durable rate limit (src/tod-dl.py).
pub mod Spacing
use tod_dl.Manifest.{Renewal, Clock}
use tod_dl.Telemetry.Message.{take_text}
use tod_dl.Controller.{Controller}
use tod_dl.Base.{
  ℕ, ◌+◌, ◌-◌, String, Option, none, some, List, [], ◌∷◌, ◌++◌, str_eq, find?, ltb, ◌==◌,
  if◌then◌else◌, ◌<>◌, decimal, max,
}

-- The dictionary that `request_newnym` returns when it is given the database.
pub record RenewalResult : Type 0 where
  pub outcome : String
  pub reason : String

-- SELECT … FROM tor_renewals WHERE request_id=?
unfoldable pub find_renewal : String → List Renewal → Option Renewal
find_renewal id = find? (λ r. str_eq r.request_id id)

unfoldable later : Option ℕ → Option ℕ → Option ℕ
later none o = o
later (some a) none = some a
later (some a) (some b) = some (max a b)

-- SELECT MAX(successful_at) FROM tor_renewals
unfoldable pub last_success : List Renewal → Option ℕ
unfolding later
last_success [] = none
last_success (r ∷ renewals) = later r.successful_at (last_success renewals)

-- UPDATE tor_renewals SET … WHERE request_id=?
unfoldable pub update_renewal : String → (Renewal → Renewal) → List Renewal → List Renewal
update_renewal id set [] = []
update_renewal id set (r ∷ renewals) =
    (if str_eq r.request_id id then set r else r) ∷ update_renewal id set renewals

abbrev accepted_reason : String
accepted_reason = "Tor accepted a request for new future streams"

-- value or text
abbrev or_text : Option String → String → String
or_text none text = text
or_text (some s) text = if str_eq s "" then text else s

abbrev limited_for : ℕ → String
limited_for remaining = "renewal available in " <> decimal remaining <> " seconds"

abbrev with_renewals : List Renewal → Controller → Controller
with_renewals renewals c = record c { db = record (c.db) { tor_renewals = renewals } }

module _ (clock : Clock) (tor_error : Option String) (audit_id session : String) where
  renewal : Controller → Option ℕ → String → Option String → Renewal
  renewal c previous outcome reason = record {
    request_id = audit_id;
    run_id = c.run_id;
    session_id = session;
    requested_at = clock.stamp;
    interval_seconds = c.tor_newnym_interval;
    previous_success_at = previous;
    outcome = outcome;
    failure_reason = reason;
    successful_at = none;
    next_eligible_at = none;
  }

  -- send_tor_newnym, outside the locks, and the record of its result; `tor_error` is the RuntimeError
  -- that it raises, and `clock` is read before the check
  unfoldable pub send_newnym : Controller → Controller × RenewalResult
  unfolding update_renewal take_text
  send_newnym c = elim tor_error [
    | some error ↦
        let text = take_text 512 error in
        (
          with_renewals
              (update_renewal audit_id
                (λ r. record r { outcome = "failed"; failure_reason = some text })
                c.db.tor_renewals)
              c,
          record { outcome = "failed"; reason = text },
        )
    | none ↦
        let at = clock.time + c.tor_newnym_interval in
        (
          record (with_renewals
              (update_renewal audit_id
                (λ r. record r {
                  outcome = "completed";
                  successful_at = some clock.time;
                  next_eligible_at = some at;
                })
                c.db.tor_renewals)
              c) { next_newnym_at = at },
          record { outcome = "completed"; reason = accepted_reason },
        )
  ]

  -- Whether the last success is less than an interval ago, and the seconds left.
  unfoldable pub limited : ℕ → Option ℕ → Option ℕ
  limited interval none = none
  limited interval (some previous) =
      if ltb clock.time (previous + interval) then some (previous + interval - clock.time) else none

  -- The check under the locks: the answer, or none and a pending row where Tor is to be asked.
  unfoldable pub begin_newnym : Controller → Controller × Option RenewalResult
  unfolding renewal find_renewal last_success limited
  begin_newnym c =
      if c.tor_newnym_interval == 0
      then (c, some (record { outcome = "rejected"; reason = "Tor circuit renewal is disabled" }))
      else elim (find_renewal audit_id c.db.tor_renewals) [
        | some existing ↦ (
          c,
          some (record {
            outcome = existing.outcome;
            reason = or_text existing.failure_reason accepted_reason;
          }),
        )
        | none ↦
            let previous = last_success c.db.tor_renewals in
            let noted = λ (outcome : String) (reason : Option String).
              with_renewals (c.db.tor_renewals ++ renewal c previous outcome reason ∷ []) c in
            elim (limited c.tor_newnym_interval previous) [
              | some remaining ↦ (
                noted "rejected" (some (limited_for remaining)),
                some (record { outcome = "rejected"; reason = limited_for remaining }),
              )
              | none ↦ (noted "pending" none, none)
            ]
      ]

  -- The rest of the call, on the controller that it then meets.
  unfoldable pub finish_newnym : Option RenewalResult → Controller → Controller × RenewalResult
  unfolding send_newnym
  finish_newnym (some answer) c = (c, answer)
  finish_newnym none c = send_newnym c

  -- A call during which nothing else happens.
  unfoldable pub request_newnym : Controller → Controller × RenewalResult
  unfolding begin_newnym finish_newnym
  request_newnym c = let (begun, answer) = begin_newnym c in finish_newnym answer begun
