-- ===== src/Status.antt =====
-- The durable item states and their display buckets (src/tod-dl.py).
use tod_dl.Base.{ℕ, String, Bool, true, false, ◌&&◌, leb, ltb, if◌then◌else◌}

-- The texts that stand in the column `status`. `other` is any text that the code never writes.
pub data Status : Type 0 where
  queued active running admitted promoting retry_wait failed complete : Status
  existing_unverified review_required unavailable excluded : Status
  other : String → Status

-- DISPLAY_BUCKETS
pub data Bucket : Type 0 where
  queued busy retry exhausted complete existing_unverified : Bucket
  review_required unavailable excluded unknown : Bucket

-- a dictionary key is compared by value
unfoldable pub same_bucket : Bucket → Bucket → Bool
same_bucket Bucket.queued Bucket.queued = true
same_bucket Bucket.busy Bucket.busy = true
same_bucket Bucket.retry Bucket.retry = true
same_bucket Bucket.exhausted Bucket.exhausted = true
same_bucket Bucket.complete Bucket.complete = true
same_bucket Bucket.existing_unverified Bucket.existing_unverified = true
same_bucket Bucket.review_required Bucket.review_required = true
same_bucket Bucket.unavailable Bucket.unavailable = true
same_bucket Bucket.excluded Bucket.excluded = true
same_bucket Bucket.unknown Bucket.unknown = true
same_bucket _ _ = false

-- `max_attempts` 0 means no limit
unfoldable pub display_bucket : Status → ℕ → ℕ → Bucket
display_bucket Status.complete attempts max_attempts = Bucket.complete
display_bucket Status.active attempts max_attempts = Bucket.busy
display_bucket Status.admitted attempts max_attempts = Bucket.busy
display_bucket Status.promoting attempts max_attempts = Bucket.busy
display_bucket Status.retry_wait attempts max_attempts =
    if ltb 0 max_attempts && leb max_attempts attempts then Bucket.exhausted else Bucket.retry
display_bucket Status.failed attempts max_attempts =
    if ltb 0 max_attempts && leb max_attempts attempts then Bucket.exhausted else Bucket.retry
display_bucket Status.existing_unverified attempts max_attempts = Bucket.existing_unverified
display_bucket Status.review_required attempts max_attempts = Bucket.review_required
display_bucket Status.unavailable attempts max_attempts = Bucket.unavailable
display_bucket Status.excluded attempts max_attempts = Bucket.excluded
display_bucket Status.queued attempts max_attempts = Bucket.queued
display_bucket Status.running attempts max_attempts = Bucket.unknown
display_bucket (Status.other s) attempts max_attempts = Bucket.unknown

-- the text in the column `status`
unfoldable pub status_text : Status → String
status_text Status.queued = "queued"
status_text Status.active = "active"
status_text Status.running = "running"
status_text Status.admitted = "admitted"
status_text Status.promoting = "promoting"
status_text Status.retry_wait = "retry_wait"
status_text Status.failed = "failed"
status_text Status.complete = "complete"
status_text Status.existing_unverified = "existing_unverified"
status_text Status.review_required = "review_required"
status_text Status.unavailable = "unavailable"
status_text Status.excluded = "excluded"
status_text (Status.other s) = s

-- EXCLUDABLE_STATUSES, which are also the PRIORITIZABLE_STATUSES
unfoldable pub is_excludable : Status → Bool
is_excludable Status.queued = true
is_excludable Status.active = true
is_excludable Status.admitted = true
is_excludable Status.retry_wait = true
is_excludable Status.failed = true
is_excludable Status.review_required = true
is_excludable Status.unavailable = true
is_excludable _ = false

-- COOLDOWN_ELIGIBLE_STATUSES
unfoldable pub is_cooldown_eligible : Status → Bool
is_cooldown_eligible Status.retry_wait = true
is_cooldown_eligible Status.failed = true
is_cooldown_eligible _ = false

-- status IN ('queued', 'retry_wait', 'failed')
unfoldable pub is_retryable : Status → Bool
is_retryable Status.queued = true
is_retryable Status.retry_wait = true
is_retryable Status.failed = true
is_retryable _ = false

unfoldable pub is_review : Status → Bool
is_review Status.review_required = true
is_review _ = false

unfoldable pub is_unavailable : Status → Bool
is_unavailable Status.unavailable = true
is_unavailable _ = false

-- status IN ('active', 'running', 'admitted')
unfoldable pub is_interrupted : Status → Bool
is_interrupted Status.active = true
is_interrupted Status.running = true
is_interrupted Status.admitted = true
is_interrupted _ = false
