-- ===== src/Scheduler/Rechecks.antt =====
-- Daily rechecks of unavailable items, source generations, and items that a crash interrupted.
use tod_dl.Scheduler.Choice.{any-order_by, found-any}
use tod_dl.Status.{is_interrupted, is_unavailable, is_retryable, Status}
use tod_dl.Scheduler.{
  differ, note_generation, record_source_generation, requeue_interrupted_transfers, claim,
  claim_recheck, is_recheck_due, set_interrupted, coalesce, recheck_interval, note_generation,
  next_pending, is_paused, is_due, is_candidate,
}
use tod_dl.Manifest.{ranked_rows, update_where, Row, selected_rows, Clock, Db, in_run, find_row}
use mathlib.Core.Option.{some-injective}
use tod_dl.Manifest.Rows.{find_row-update_where, find_row-filter, find_row-url}
use mathlib.Core.List.{[], ◌∷◌, List}
use mathlib.Core.Option.{none, some, Option}
use tod_dl.Base.{
  filter, any, refl, ℕ, String, Bool, ◌≡◌, ap, false, ◌<◌, arith, str_eq, ◌+◌, eq_iff, ◌&&◌, ◌∙◌,
  if◌then◌else◌, ltb, not, ◌==◌, ◌⊎◌, inl, inr, true, Bool-cases, sym, is_some, contains, find?,
  map,
}

any-filter :
    (p q : Row → Bool) (rows : List Row) → any p rows ≡ false → any p (filter q rows) ≡ false
unfolding any filter
any-filter p q [] h = refl
any-filter p q (row ∷ rows) h = ground (arith, any-filter p q rows)

claimed-waits :
    (clock : Clock) (generation : Option String) (time later : ℕ) (row : Row)
    → time < clock.time + recheck_interval
    → differ row.source_generation generation ≡ false
    → is_recheck_due time (note_generation later generation (claim clock row)) ≡ false
unfolding is_recheck_due coalesce note_generation claim
claimed-waits clock generation time later row h same = rw same (ground (arith, h))

any-claim :
    (clock : Clock) (url : String) (generation : Option String) (time later : ℕ) (rows : List Row)
    → time < clock.time + recheck_interval
    → any (λ row. str_eq row.url url && differ row.source_generation generation) rows ≡ false
    → any
        (λ row. str_eq row.url url && is_recheck_due time row)
        (update_where
          (λ row. str_eq row.url url)
          (note_generation later generation)
          (update_where (λ row. str_eq row.url url) (claim clock) rows))
      ≡ false
unfolding any update_where note_generation is_recheck_due claim
any-claim clock url generation time later [] h same = refl
any-claim clock url generation time later (row ∷ rows) h same =
    let e : (claim clock row).url ≡ row.url = unfold claim in refl in
    let f : (note_generation later generation (claim clock row)).url ≡ row.url =
      unfold note_generation claim in refl in
    elim (Bool-cases (str_eq row.url url)) [
      | inl is ↦
          rw
            (
              is,
              e,
              is,
              f,
              is,
              claimed-waits clock generation time later row h (ground (arith, same, is)),
            )
            (any-claim clock url generation time later rows h (ground (arith, same, is)))
      | inr other ↦
          rw (other, other, other)
            (any-claim clock url generation time later rows h (ground (arith, same, other)))
    ]

-- For a day after an item's recheck is claimed, that item is not due for one again, also where the
-- queues then name its source generation once more, unless that differs from the one that is stored.
pub claim_recheck-waits :
    (clock : Clock) (url run_id : String) (generation : Option String) (time later : ℕ) (db : Db)
    → time < clock.time + recheck_interval
    → any (λ row. str_eq row.url url && differ row.source_generation generation) db.downloads
      ≡ false
    → any
        (λ row. str_eq row.url url && is_recheck_due time row)
        (ranked_rows run_id
          (record_source_generation later url generation (claim_recheck clock url db)))
      ≡ false
unfolding ranked_rows claim_recheck selected_rows record_source_generation
claim_recheck-waits clock url run_id generation time later db h same =
    any-order_by _ _ _
    ∙ any-filter _ _
        (record_source_generation later url generation (claim_recheck clock url db)).downloads
        (any-claim clock url generation time later db.downloads h same)

any-found :
    (p : Row → Bool) (url : String) (row : Row) (rows : List Row)
    → find_row url rows ≡ some row
    → p row ≡ true
    → any p rows ≡ true
unfolding any find_row find?
any-found p url row [] e h = cc
any-found p url row (r ∷ rows) e h = elim (Bool-cases (str_eq r.url url)) [
  | inl is ↦ simp (some-injective r row (sym (ground (arith, is)) ∙ e)) (ground (arith, h))
  | inr other ↦ ground (arith, any-found p url row rows (ground (arith, e, other)) h)
]

contains-found :
    (p : Row → Bool) (url : String) (row : Row) (rows : List Row)
    → find_row url rows ≡ some row
    → p row ≡ true
    → contains url (map (λ r. r.url) (filter p rows)) ≡ true
unfolding contains filter find_row find?
contains-found p url row [] e h = cc
contains-found p url row (r ∷ rows) e h = elim (Bool-cases (str_eq r.url url)) [
  | inl is ↦
      let same : r ≡ row = some-injective r row (sym (ground (arith, is)) ∙ e) in
      let passes : p r ≡ true = ap p same ∙ h in
      rw passes (rw ((eq_iff r.url url).0 is, (eq_iff url url).1 refl) refl)
  | inr other ↦ ground (arith, contains-found p url row rows (ground (arith, e, other)) h)
]

-- A transfer was under way.
abbrev pub WasStarted : Status → Type 0
WasStarted status =
    (status ≡ Status.active) ⊎ ((status ≡ Status.running) ⊎ (status ≡ Status.admitted))

WasStarted-is_interrupted : (status : Status) → WasStarted status → is_interrupted status ≡ true
unfolding is_interrupted
WasStarted-is_interrupted status (inl e) = rw e refl
WasStarted-is_interrupted status (inr (inl e)) = rw e refl
WasStarted-is_interrupted status (inr (inr e)) = rw e refl

restarted-is_due :
    (origin : String → String) (clock : Clock) (run_id : String) (time : ℕ) (db : Db) (row : Row)
    → is_paused origin run_id db row.url ≡ false
    → is_due origin run_id 0 time db (set_interrupted clock row) ≡ true
unfolding is_due is_candidate set_interrupted is_retryable
restarted-is_due origin clock run_id time db row open_ = rw open_ (ground arith)

pub requeue_interrupted_transfers-restarts :
    (origin : String → String) (clock : Clock) (run_id url : String) (time : ℕ) (db : Db)
    (row : Row)
    → find_row url db.downloads ≡ some row
    → in_run run_id url db.run_items ≡ true
    → WasStarted row.status
    → let x = requeue_interrupted_transfers clock run_id db in
      is_paused origin run_id x.1 url ≡ false
      → (find_row url x.1.downloads
          ≡ some
              (record row { status = Status.queued; next_retry_at = 0; updated_at = clock.stamp }))
        × (contains url x.0 ≡ true)
        × (is_some (next_pending origin run_id 0 time x.1) ≡ true)
requeue_interrupted_transfers-restarts origin clock run_id url time db row found selected started
      open_ =
    let x = requeue_interrupted_transfers clock run_id db in
    let is = WasStarted-is_interrupted row.status started in
    let here : in_run run_id row.url db.run_items ≡ true =
      ap (λ u. in_run run_id u db.run_items) (find_row-url url db.downloads row found) ∙ selected in
    let after : find_row url x.1.downloads ≡ some (set_interrupted clock row) =
      unfold requeue_interrupted_transfers in
      (find_row-update_where _ (set_interrupted clock) (λ r. unfold set_interrupted in refl) url
          db.downloads
        ∙ rw (found, is, here) refl) in
    (
      after ∙ (unfold set_interrupted in refl),
      unfold requeue_interrupted_transfers selected_rows in
          (contains-found (λ r. is_interrupted r.status) url row (selected_rows run_id db)
            (find_row-filter (λ u. in_run run_id u db.run_items) url db.downloads selected ∙ found)
            is),
      unfold next_pending ranked_rows selected_rows in
          (found-any _ _
            ∙ any-order_by _ _ _
            ∙ any-found _ url (set_interrupted clock row) (selected_rows run_id x.1)
                (find_row-filter (λ u. in_run run_id u x.1.run_items) url x.1.downloads
                    (unfold requeue_interrupted_transfers in selected)
                  ∙ after)
                (restarted-is_due origin clock run_id time x.1 row (
                  ap (is_paused origin run_id x.1) (find_row-url url db.downloads row found)
                  ∙ open_))),
    )

differ_same : (o : Option String) → differ o o ≡ false
unfolding differ
differ_same none = refl
differ_same (some s) = ground (arith, eq_iff s s)

not_again :
    (a b d : Bool) (mark : ℕ)
    → d ≡ false
    → (if a && not (mark == 1) && d && b then 1 else mark) ≡ mark
not_again a b d mark h = ground arith

note_twice :
    (time later : ℕ) (generation : Option String) (row : Row)
    → note_generation later generation (note_generation time generation row)
      ≡ note_generation time generation row
unfolding note_generation
note_twice time later generation row =
    ap (λ m. record row { source_generation = generation; early_recheck = m })
      (not_again (is_unavailable row.status) (ltb later (coalesce row.recheck_at))
        (differ generation generation) (note_generation time generation row).early_recheck
        (differ_same generation))

update_twice :
    (test : Row → Bool) (f g : Row → Row) (rows : List Row)
    → ((row : Row) → test (f row) ≡ test row)
    → ((row : Row) → g (f row) ≡ f row)
    → update_where test g (update_where test f rows) ≡ update_where test f rows
unfolding update_where
update_twice test f g [] h k = refl
update_twice test f g (row ∷ rows) h k =
    ground (arith, h row, k row, update_twice test f g rows h k)

-- A source generation that is recorded again, at any later time, changes nothing: it does not make
-- another early recheck.
pub record_source_generation-twice :
    (time later : ℕ) (url : String) (generation : Option String) (db : Db)
    → record_source_generation later url generation
        (record_source_generation time url generation db)
      ≡ record_source_generation time url generation db
unfolding record_source_generation
record_source_generation-twice time later url generation db =
    ap (λ rows. record db { downloads = rows })
      (update_twice (λ row. str_eq row.url url) (note_generation time generation)
        (note_generation later generation) db.downloads (λ row. unfold note_generation in refl)
        (note_twice time later generation))
