-- ===== src/Control/Newnym/Spacing.antt =====
-- Two successful renewals of the circuits are an interval apart.
use tod_dl.Controller.{Controller}
use tod_dl.Manifest.{Renewal, Clock}
use tod_dl.Control.Newnym.{
  last_success, update_renewal, find_renewal, later, limited, begin_newnym, finish_newnym,
  send_newnym, renewal, RenewalResult,
}
use tod_dl.Base.{
  refl, true, none, some, [], ◌∷◌, String, ℕ, Option, Bool, List, leb, ◌≡◌, ap, str_eq, ◌++◌, ◌+◌,
  arith, ◌∙◌, ◌≤◌, ◌⊎◌, if_elim, inl, inr, ◌==◌, Option-cases, Bool-cases,
}

-- A renewal at this time is an interval after the last one, if there was one.
abbrev pub is_spaced : ℕ → Option ℕ → ℕ → Bool
is_spaced interval none time = true
is_spaced interval (some previous) time = leb (previous + interval) time

later-none : (o : Option ℕ) → later o none ≡ o
unfolding later
later-none none = refl
later-none (some a) = refl

later_assoc : (a b c : Option ℕ) → later a (later b c) ≡ later (later a b) c
unfolding later
later_assoc none b c = refl
later_assoc (some a) none c = refl
later_assoc (some a) (some b) none = refl
later_assoc (some a) (some b) (some c) = ap some (omega arith)

last_success-append :
    (r : Renewal) (renewals : List Renewal)
    → last_success (renewals ++ r ∷ []) ≡ later (last_success renewals) r.successful_at
unfolding last_success
last_success-append r [] = later-none _
last_success-append r (x ∷ renewals) =
    ap (later x.successful_at) (last_success-append r renewals)
    ∙ later_assoc x.successful_at (last_success renewals) r.successful_at

-- No success is later than this.
abbrev is_before : ℕ → Option ℕ → Bool
is_before time none = true
is_before time (some at) = leb at time

later-before :
    (time : ℕ) (a b : Option ℕ)
    → is_before time (later a b) ≡ true
    → (is_before time a ≡ true) × (is_before time b ≡ true)
unfolding later
later-before time none b h = (refl, h)
later-before time (some a) none h = (h, refl)
later-before time (some a) (some b) h = (ground (arith, h), ground (arith, h))

later-now : (time : ℕ) (o : Option ℕ) → is_before time o ≡ true → later o (some time) ≡ some time
unfolding later
later-now time none h = refl
later-now time (some a) h = let before : a ≤ time = ground (arith, h) in ap some (omega arith)

now-later : (time : ℕ) (o : Option ℕ) → is_before time o ≡ true → later (some time) o ≡ some time
unfolding later
now-later time none h = refl
now-later time (some a) h = let before : a ≤ time = ground (arith, h) in ap some (omega arith)

-- Rows that are given a success now, where none is later, have it as the last one.
update_renewal-last :
    (id : String) (set : Renewal → Renewal) (time : ℕ) (renewals : List Renewal)
    → ((r : Renewal) → (set r).successful_at ≡ some time)
    → is_before time (last_success renewals) ≡ true
    → (last_success (update_renewal id set renewals) ≡ last_success renewals)
      ⊎ (last_success (update_renewal id set renewals) ≡ some time)
unfolding update_renewal last_success
update_renewal-last id set time [] s h = inl refl
update_renewal-last id set time (r ∷ renewals) s h =
    let (here, behind) = later-before time r.successful_at (last_success renewals) h in
    let rest = update_renewal-last id set time renewals s behind in
    elim (Bool-cases (str_eq r.request_id id)) [
      | inl is ↦
          rw (is, s r)
            (elim rest [
              | inl e ↦ inr (rw e (now-later time (last_success renewals) behind))
              | inr e ↦ inr (rw e (now-later time (some time) (ground arith)))
            ])
      | inr other ↦ rw other (elim rest [
        | inl e ↦ inl (rw e refl)
        | inr e ↦ inr (rw e (later-now time r.successful_at here))
      ])
    ]

update_renewal-same :
    (id : String) (set : Renewal → Renewal) (renewals : List Renewal)
    → ((r : Renewal) → (set r).successful_at ≡ r.successful_at)
    → last_success (update_renewal id set renewals) ≡ last_success renewals
unfolding update_renewal last_success
update_renewal-same id set [] s = refl
update_renewal-same id set (r ∷ renewals) s =
    ground (arith, s r, update_renewal-same id set renewals s)

spaced-before :
    (interval time : ℕ) (previous : Option ℕ)
    → is_spaced interval previous time ≡ true
    → is_before time previous ≡ true
spaced-before interval time none h = refl
spaced-before interval time (some p) h = ground arith

module _ (clock : Clock) (tor_error : Option String) (audit_id session : String)
    (c : Controller) where
  abbrev before : Option ℕ
  before = last_success c.db.tor_renewals

  -- The last success stays, or it is now and an interval after the one before.
  abbrev pub KeepsSpacing : Controller → Type 0
  KeepsSpacing c' =
      (last_success c'.db.tor_renewals ≡ before)
      ⊎ ((last_success c'.db.tor_renewals ≡ some clock.time)
          × (is_spaced c.tor_newnym_interval before clock.time ≡ true))

  -- What the check leaves, and what it has found where it goes on.
  Checked : Controller × Option RenewalResult → Type 0
  Checked x =
      (last_success x.0.db.tor_renewals ≡ before)
      × ((x.1 ≡ none) → is_spaced c.tor_newnym_interval before clock.time ≡ true)

  limited-spaced :
      (interval : ℕ) (previous : Option ℕ)
      → limited clock tor_error audit_id session interval previous ≡ none
      → is_spaced interval previous clock.time ≡ true
  unfolding limited
  limited-spaced interval none h = refl
  limited-spaced interval (some p) h = ground arith

  begin_newnym-Checked : Checked (begin_newnym clock tor_error audit_id session c)
  unfolding begin_newnym renewal Checked
  begin_newnym-Checked =
      if_elim Checked (c.tor_newnym_interval == 0) _ _ (λ _. (refl, λ e. cc))
        λ _. elim (Option-cases (find_renewal audit_id c.db.tor_renewals)) [
          | inr (r, e) ↦ rw e (refl, λ f. cc)
          | inl e ↦
              rw e
                (elim (Option-cases
                  (limited clock tor_error audit_id session c.tor_newnym_interval before)) [
                    | inr (left, f) ↦
                        rw f (last_success-append _ c.db.tor_renewals ∙ later-none before, λ g. cc)
                    | inl f ↦ rw f (
                      last_success-append _ c.db.tor_renewals ∙ later-none before,
                      λ g. limited-spaced c.tor_newnym_interval before f,
                    )
                  ])
        ]

  finish_newnym-KeepsSpacing :
      (answer : Option RenewalResult) (met : Controller)
      → last_success met.db.tor_renewals ≡ before
      → (answer ≡ none → is_spaced c.tor_newnym_interval before clock.time ≡ true)
      → KeepsSpacing (finish_newnym clock tor_error audit_id session answer met).0
  unfolding finish_newnym send_newnym
  finish_newnym-KeepsSpacing (some answer) met same spaced = inl same
  finish_newnym-KeepsSpacing none met same spaced = elim (Option-cases tor_error) [
    | inr (error, e) ↦
        rw e (inl (update_renewal-same audit_id _ met.db.tor_renewals (λ r. refl) ∙ same))
    | inl e ↦
        let fits = spaced-before c.tor_newnym_interval clock.time before (spaced refl) in
        rw e
          (elim (update_renewal-last audit_id _ clock.time met.db.tor_renewals (λ r. refl)
            (ap (is_before clock.time) same ∙ fits)) [
              | inl f ↦ inl (f ∙ same)
              | inr f ↦ inr (f, spaced refl)
            ])
  ]

  -- A call for new circuits, from its check to its end on the controller that it meets after Tor has
  -- answered, leaves the last successful renewal as it was, or records a success now which is at least
  -- the interval after that one, if no other call has recorded a success in between.
  pub request_newnym-KeepsSpacing :
      (met : Controller)
      → let x = begin_newnym clock tor_error audit_id session c in
        last_success met.db.tor_renewals ≡ last_success x.0.db.tor_renewals
        → KeepsSpacing (finish_newnym clock tor_error audit_id session x.1 met).0
  request_newnym-KeepsSpacing met quiet =
      let x = begin_newnym clock tor_error audit_id session c in
      let checked : (last_success x.0.db.tor_renewals ≡ before)
          × ((x.1 ≡ none) → is_spaced c.tor_newnym_interval before clock.time ≡ true) =
        unfold Checked in begin_newnym-Checked in
      finish_newnym-KeepsSpacing x.1 met (quiet ∙ checked.0) checked.1
