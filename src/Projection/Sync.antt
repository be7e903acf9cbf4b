-- ===== src/Projection/Sync.antt =====
-- What the summary is a summary of: the counts, the byte total and the retries of a list of rows.
pub mod Apply
pub mod Hydrated
use tod_dl.Base.{
  ℕ, ◌+◌, String, Bool, true, false, ◌&&◌, Option, none, some, List, [], ◌∷◌, ◌≡◌, pos, arith,
  str_eq, eq_iff, find?, lookup, if◌then◌else◌,
}
use tod_dl.Status.{Bucket, same_bucket, display_bucket}
use tod_dl.Manifest.{Row, find_row, update_where}
use tod_dl.Manifest.Rows.{IsKeyed, update_where-absent}
use tod_dl.Telemetry.Message.{sanitize_message}
use tod_dl.Projection.{Projection, or_zero, or_empty}

abbrev pub one_if : Bool → ℕ
one_if true = 1
one_if false = 0

abbrev pub bucket_of : ℕ → Row → Bucket
bucket_of max_attempts row = display_bucket row.status row.attempts max_attempts

abbrev pub is_in : ℕ → Bucket → Row → Bool
is_in max_attempts b row = same_bucket (bucket_of max_attempts row) b

-- the sum of a number over the rows
unfoldable pub total : (Row → ℕ) → List Row → ℕ
total weight [] = 0
total weight (row ∷ rows) = weight row + total weight rows

-- how many rows are shown in the bucket
abbrev pub bucket_count : ℕ → Bucket → List Row → ℕ
bucket_count m b = total (λ row. one_if (is_in m b row))

abbrev pub complete_part : ℕ → Row → ℕ
complete_part m row = if is_in m Bucket.complete row then or_zero row.bytes else 0

-- the bytes of the complete rows
abbrev pub complete_total : ℕ → List Row → ℕ
complete_total m = total (complete_part m)

abbrev pub retry_value : Row → ℕ × String
retry_value row = (row.next_retry_at, sanitize_message (or_empty row.last_error))

module _ (sha256_hex : String → String) where
  -- the deadline and the message of the retryable row that goes by a key
  unfoldable pub retry_entry : ℕ → String → List Row → Option (ℕ × String)
  retry_entry m key [] = none
  retry_entry m key (row ∷ rows) =
      if str_eq (sha256_hex row.url) key && is_in m Bucket.retry row
      then some (retry_value row)
      else retry_entry m key rows

  -- The projection summarises exactly these rows.
  pub record InSync (p : Projection) (rows : List Row) : Type 0 where
    pub counted : (b : Bucket) → p.counts b ≡ pos (bucket_count p.max_attempts b rows)
    pub totalled : p.complete_bytes ≡ pos (complete_total p.max_attempts rows)
    pub waiting : (key : String) → lookup key p.retries ≡ retry_entry p.max_attempts key rows

-- An update of one row changes a sum by what that row changes.
pub total-update :
    (weight : Row → ℕ) (set : Row → Row) (url : String) (rows : List Row) (r : Row)
    → IsKeyed rows
    → find_row url rows ≡ some r
    → total weight (update_where (λ row. str_eq row.url url) set rows) + weight r
      ≡ total weight rows + weight (set r)
unfolding total find_row find? update_where
total-update weight set url [] r k h = cc
total-update weight set url (row ∷ rows) r k h = ground (
  arith,
  eq_iff row.url url,
  update_where-absent url set rows,
  total-update weight set url rows r k.1,
)
