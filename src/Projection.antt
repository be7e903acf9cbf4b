-- ===== src/Projection.antt =====
-- `TelemetryStateProjection` of src/tod-dl.py: the disposable summary of one run's selected items.
pub mod Sync
pub mod Hydrate
use tod_dl.Base.{
  ℕ, ◌+◌, String, ◌&&◌, not, Option, none, some, List, [], ◌∷◌, ℤ, pos, ◌+ℤ◌, ◌-ℤ◌, str_eq, str_lt,
  insert, erase, if◌then◌else◌,
}
use tod_dl.Status.{Status, Bucket, same_bucket, display_bucket}
use tod_dl.Manifest.{Row}
use tod_dl.Telemetry.Message.{sanitize_message}

pub record Projection : Type 0 where
  pub selected_count : ℕ
  pub skipped_existing : ℕ
  pub revision : ℕ
  pub max_attempts : ℕ
  pub counts : Bucket → ℤ
  pub complete_bytes : ℤ
  pub last_completion_at : Option String
  pub retries : List (String × (ℕ × String))

-- The columns that a preimage or a postimage holds.
pub record Item : Type 0 where
  pub url : String
  pub status : Status
  pub attempts : ℕ
  pub bytes : Option ℕ
  pub next_retry_at : ℕ
  pub last_error : Option String

unfoldable pub item_of : Row → Item
item_of row = record {
  url = row.url;
  status = row.status;
  attempts = row.attempts;
  bytes = row.bytes;
  next_retry_at = row.next_retry_at;
  last_error = row.last_error;
}

-- value or 0
unfoldable pub or_zero : Option ℕ → ℕ
or_zero none = 0
or_zero (some n) = n

-- value or ""
unfoldable pub or_empty : Option String → String
or_empty none = ""
or_empty (some s) = s

-- counts[bucket] = change(counts[bucket])
unfoldable pub change_count : Bucket → (ℤ → ℤ) → (Bucket → ℤ) → Bucket → ℤ
change_count bucket change counts b = if same_bucket bucket b then change (counts b) else counts b

-- the later of two completion times
unfoldable pub later_completion : String → Option String → Option String
later_completion at none = if str_eq at "" then none else some at
later_completion at (some last) =
    if str_eq at "" then some last else if str_lt last at then some at else some last

module _ (sha256_hex : String → String) where
  -- _add_row
  unfoldable pub add_row : Row → Projection → Projection
  unfolding change_count or_zero or_empty later_completion display_bucket same_bucket ◌+ℤ◌
  add_row row p =
      let bucket = display_bucket row.status row.attempts p.max_attempts in
      let is_complete = same_bucket bucket Bucket.complete in
      record p {
        counts = change_count bucket (λ n. n +ℤ pos 1) p.counts;
        complete_bytes =
            if is_complete then p.complete_bytes +ℤ pos (or_zero row.bytes) else p.complete_bytes;
        last_completion_at =
            if is_complete
            then later_completion row.updated_at p.last_completion_at
            else p.last_completion_at;
        retries =
            if same_bucket bucket Bucket.retry
            then insert (sha256_hex row.url)
                (row.next_retry_at, sanitize_message (or_empty row.last_error)) p.retries
            else p.retries;
      }

  unfoldable pub add_rows : List Row → Projection → Projection
  unfolding add_row
  add_rows [] p = p
  add_rows (row ∷ rows) p = add_rows rows (add_row row p)

  -- apply: one committed preimage and postimage
  unfoldable pub apply : Item → Item → ℕ → Option String → Projection → Projection
  unfolding change_count or_zero or_empty display_bucket same_bucket ◌+ℤ◌ ◌-ℤ◌
  apply old new revision completion_at p =
      let old_bucket = display_bucket old.status old.attempts p.max_attempts in
      let new_bucket = display_bucket new.status new.attempts p.max_attempts in
      let was_complete = same_bucket old_bucket Bucket.complete in
      let is_complete = same_bucket new_bucket Bucket.complete in
      let left =
        if was_complete then p.complete_bytes -ℤ pos (or_zero old.bytes) else p.complete_bytes in
      let key = sha256_hex new.url in
      let popped = erase key p.retries in
      record p {
        counts =
            change_count new_bucket (λ n. n +ℤ pos 1)
              (change_count old_bucket (λ n. n -ℤ pos 1) p.counts);
        complete_bytes = if is_complete then left +ℤ pos (or_zero new.bytes) else left;
        retries =
            if same_bucket new_bucket Bucket.retry
            then insert key (new.next_retry_at, sanitize_message (or_empty new.last_error)) popped
            else popped;
        last_completion_at = elim completion_at [
          | none ↦ p.last_completion_at
          | some at ↦
              if not was_complete && is_complete && not (str_eq at "")
              then some at
              else p.last_completion_at
        ];
        revision = revision;
      }

unfoldable pub set_revision : ℕ → Projection → Projection
set_revision revision p = record p { revision = revision }
