-- ===== src/Control/Items.antt =====
-- The actions on selected items: `control_retry_now`, `control_exclude_item`,
-- `control_resume_new_generation`, `control_retry_access_denied`, `control_set_item_priority` and
-- `control_set_retry_cooldown` (src/tod-dl.py).
pub mod Selection
pub mod Found
pub mod Changed
pub mod Rules
pub use tod_dl.Control.Items.Rules.{bad_ids}
unfoldable pub use tod_dl.Control.Items.Rules.{
  is_empty, of_requested, set_excluded, set_new_generation, set_requeued, set_retry_at,
  set_priority, has_code, refuse_unless, check_excludable, check_representation,
  check_access_denied, check_prioritizable, check_cooldown, is_null,
}
use tod_dl.Control.{Request}
use tod_dl.Control.Items.Selection.{by_id, changed_rows, item_outcomes}
use tod_dl.Control.Requests.{Response, reject, identified, once, record_control, given}
use tod_dl.Json.{get, id_list, int_between}
use tod_dl.Manifest.{Row, Clock, update_urls, selected_rows}
use tod_dl.Manifest.Rows.{urls_of}
use tod_dl.Projection.{Item}
use tod_dl.Status.{Status, is_retryable}
use tod_dl.Telemetry.{Call}
use tod_dl.Controller.{Controller, apply_changes, set_projection_revision, notify}
use tod_dl.Base.{
  ℕ, ◌+◌, ◌-◌, ◌<◌, String, true, Option, none, some, List, filter, contains, length, if◌then◌else◌,
  ℤ, pos, negsuc, ◌<>◌, decimal, signed, pos_part,
}

module _ (sha256_hex : String → String) where
  -- The transaction of an item action, and what it tells the projection.
  unfoldable pub commit_changes :
      Clock
      → String
      → String
      → String
      → (Row → Row)
      → (Item → Item)
      → String
      → List Row
      → Controller
      → Controller × ℕ
  unfolding is_empty record_control update_urls
  commit_changes clock id session action set change reason changed c =
      let updated = record c {
        db = record (c.db) { downloads = update_urls (urls_of changed) set c.db.downloads };
      } in
      let (recorded, revision) = record_control clock id session action reason updated in
      let applied = apply_changes sha256_hex change revision changed recorded in
      (if is_empty changed then set_projection_revision revision applied else applied, revision)

  -- The body of an action whose items are requested one by one.
  unfoldable pub item_action :
      Clock
      → String
      → String
      → String
      → List String
      → (Row → Option String)
      → String
      → (Row → Row)
      → (Item → Item)
      → (ℕ → ℕ → String)
      → String
      → Controller
      → Controller × Response
  unfolding commit_changes notify by_id changed_rows item_outcomes
  item_action clock id session action ids check accepted set change reason_of message c =
      let index = by_id sha256_hex (selected_rows c.run_id c.db) in
      let changed = changed_rows check index ids in
      let reason = reason_of (length changed) (length ids) in
      let (done, revision) = commit_changes clock id session action set change reason changed c in
      (
        notify (Call.event "info" "control" message) done,
        record {
          outcome = "completed";
          reason = reason;
          state_revision = some revision;
          items = some (item_outcomes check accepted index ids);
        },
      )

  unfoldable pub control_exclude_item : Clock → Request → Controller → Controller × Response
  unfolding set_excluded check_excludable of_requested
  control_exclude_item clock request c =
      identified request.request_id request.session_id c λ id session.
        given (id_list (get "item_ids" request.parameters)) (c, reject bad_ids)
          λ ids. once id c (
            item_action clock id session "exclude_item" ids check_excludable "excluded"
              (set_excluded clock) (λ item. record item { status = Status.excluded })
              (of_requested "excluded") "exclude item accepted" c)

  unfoldable pub control_resume_new_generation :
      Clock → Request → Controller → Controller × Response
  unfolding set_new_generation check_representation of_requested
  control_resume_new_generation clock request c =
      identified request.request_id request.session_id c λ id session.
        given (id_list (get "item_ids" request.parameters)) (c, reject bad_ids)
          λ ids. once id c (
            item_action clock id session "resume_new_generation" ids check_representation
              "resumed under a new staging generation" (set_new_generation clock)
              (λ item. record item { status = Status.queued; next_retry_at = 0; last_error = none })
              (λ changed requested.
                of_requested "restarted" changed requested <> " under a new staging generation")
              "resume new generation accepted" c)

  unfoldable pub control_retry_access_denied : Clock → Request → Controller → Controller × Response
  unfolding set_requeued check_access_denied
  control_retry_access_denied clock request c =
      identified request.request_id request.session_id c λ id session.
        given (id_list (get "item_ids" request.parameters)) (c, reject bad_ids)
          λ ids. once id c (
            item_action clock id session "retry_access_denied" ids check_access_denied
              "returned to queued" (set_requeued clock)
              (λ item. record item { status = Status.queued; next_retry_at = 0; last_error = none })
              (λ changed requested.
                "retried "
                <> decimal changed
                <> " of "
                <> decimal requested
                <> " requested access-denied item(s)")
              "retry access denied accepted" c)

  unfoldable pub control_set_retry_cooldown : Clock → Request → Controller → Controller × Response
  unfolding set_retry_at check_cooldown of_requested
  control_set_retry_cooldown clock request c =
      identified request.request_id request.session_id c λ id session.
        given (id_list (get "item_ids" request.parameters)) (c, reject bad_ids)
          λ ids.
            given (int_between (pos 0) (pos 3600) (get "cooldown_s" request.parameters))
              (c, reject "cooldown_s must be an integer between 0 and 3600")
              λ cooldown_s.
                let at = clock.time + pos_part cooldown_s in
                once id c (
                  item_action clock id session "set_retry_cooldown" ids check_cooldown
                    "cooldown set" (set_retry_at at clock)
                    (λ item. record item { next_retry_at = at })
                    (λ changed requested.
                      of_requested
                        ("set retry cooldown to " <> decimal (pos_part cooldown_s) <> "s for")
                        changed requested)
                    "set retry cooldown accepted" c)

  -- `priority` is no column of the projection, which gets the revision only.
  unfoldable pub prioritize :
      Clock → String → String → List String → ℤ → Controller → Controller × Response
  unfolding record_control notify by_id changed_rows item_outcomes set_priority check_prioritizable
      of_requested
  prioritize clock id session ids priority c =
      let index = by_id sha256_hex (selected_rows c.run_id c.db) in
      let changed = changed_rows check_prioritizable index ids in
      let reason =
        of_requested ("set priority to " <> signed priority <> " for") (length changed)
          (length ids) in
      let updated = record c {
        db = record (c.db) {
          downloads = update_urls (urls_of changed) (set_priority priority clock) c.db.downloads;
        };
      } in
      let (recorded, revision) =
        record_control clock id session "set_item_priority" reason updated in
      (
        notify (Call.event "info" "control" "set item priority accepted")
            (set_projection_revision revision recorded),
        record {
          outcome = "completed";
          reason = reason;
          state_revision = some revision;
          items = some (item_outcomes check_prioritizable "prioritized" index ids);
        },
      )

  unfoldable pub control_set_item_priority : Clock → Request → Controller → Controller × Response
  control_set_item_priority clock request c =
      identified request.request_id request.session_id c λ id session.
        given (id_list (get "item_ids" request.parameters)) (c, reject bad_ids)
          λ ids.
            given (int_between (negsuc 4) (pos 5) (get "priority" request.parameters))
              (c, reject "priority must be an integer between -5 and 5")
              λ priority. once id c (prioritize clock id session ids priority c)

  -- No `item_ids` means every retryable item of the run.
  unfoldable pub wanted_rows : Option (List String) → List Row → List Row
  wanted_rows none rows = rows
  wanted_rows (some ids) rows = filter (λ row. contains (sha256_hex row.url) ids) rows

  unfoldable pub retry_items :
      Clock → String → String → Option (List String) → Controller → Controller × Response
  unfolding commit_changes notify wanted_rows set_retry_at
  retry_items clock id session ids c =
      let candidates = filter (λ row. is_retryable row.status) (selected_rows c.run_id c.db) in
      let changed = wanted_rows ids candidates in
      let reason =
        "made " <> decimal (length changed) <> " selected retryable item(s) eligible now" in
      let (done, revision) =
        commit_changes clock id session "retry_now" (set_retry_at 0 clock)
          (λ item. record item { next_retry_at = 0 }) reason changed c in
      (
        record (notify (Call.event "info" "control" "retry now accepted") done) {
          control_wake = true;
        },
        record {
          outcome = "completed";
          reason = reason;
          state_revision = some revision;
          items = none;
        },
      )

  unfoldable pub control_retry_now : Clock → Request → Controller → Controller × Response
  unfolding is_null
  control_retry_now clock request c =
      identified request.request_id request.session_id c λ id session.
        let ids = get "item_ids" request.parameters in
        if is_null ids
        then once id c (retry_items clock id session none c)
        else given (id_list ids) (c, reject bad_ids)
            λ listed. once id c (retry_items clock id session (some listed) c)
