-- ===== src/Control/Items/Rules.antt =====
-- What the item actions set in a row and which rows they refuse (src/tod-dl.py).
use tod_dl.Json.{Json}
use tod_dl.Manifest.{Row, Clock}
use tod_dl.Status.{Status, is_excludable, is_cooldown_eligible, is_review, status_text}
use tod_dl.Base.{
  ℕ, ◌+◌, String, Bool, true, false, ◌&&◌, Option, none, some, List, [], ◌∷◌, contains,
  if◌then◌else◌, ℤ, ◌<>◌, decimal,
}

unfoldable pub is_empty : List Row → Bool
is_empty [] = true
is_empty (row ∷ rows) = false

-- The texts of the answers.
abbrev pub bad_ids : String
bad_ids = "item_ids must be a non-empty list of strings"

-- f"… {changed} of {requested} requested item(s)"
unfoldable pub of_requested : String → ℕ → ℕ → String
of_requested verb changed requested =
    verb <> " " <> decimal changed <> " of " <> decimal requested <> " requested item(s)"

unfoldable pub set_excluded : Clock → Row → Row
set_excluded clock row = record row { status = Status.excluded; updated_at = clock.stamp }

-- `staging_generation+1` is NULL where it was NULL
unfoldable pub set_new_generation : Clock → Row → Row
set_new_generation clock row = record row {
  status = Status.queued;
  review_code = none;
  last_error = none;
  etag = none;
  last_modified = none;
  next_retry_at = 0;
  staging_generation = elim row.staging_generation [ none ↦ none | some n ↦ some (n + 1) ];
  updated_at = clock.stamp;
}

unfoldable pub set_requeued : Clock → Row → Row
set_requeued clock row = record row {
  status = Status.queued;
  review_code = none;
  last_error = none;
  next_retry_at = 0;
  updated_at = clock.stamp;
}

unfoldable pub set_retry_at : ℕ → Clock → Row → Row
set_retry_at at clock row = record row { next_retry_at = at; updated_at = clock.stamp }

unfoldable pub set_priority : ℤ → Clock → Row → Row
set_priority priority clock row = record row { priority = priority; updated_at = clock.stamp }

unfoldable pub has_code : List String → Option String → Bool
has_code codes none = false
has_code codes (some code) = contains code codes

-- Why a selected row is refused, if it is.
unfoldable pub refuse_unless : Bool → Status → String → Option String
refuse_unless test status what =
    if test then none else some ("rejected: item is in " <> status_text status <> ", not " <> what)

unfoldable pub check_excludable : Row → Option String
unfolding refuse_unless
check_excludable row = refuse_unless (is_excludable row.status) row.status "excludable"

unfoldable pub check_representation : Row → Option String
unfolding refuse_unless
check_representation row =
    refuse_unless
      (is_review row.status
        && has_code ("changed_remote_representation" ∷ "no_reliable_version_protection" ∷ [])
            row.review_code)
      row.status "a representation-change review"

unfoldable pub check_access_denied : Row → Option String
unfolding refuse_unless
check_access_denied row =
    refuse_unless (is_review row.status && has_code ("access_denied" ∷ []) row.review_code)
      row.status "an access-denied review"

unfoldable pub check_prioritizable : Row → Option String
unfolding refuse_unless
check_prioritizable row = refuse_unless (is_excludable row.status) row.status "prioritizable"

unfoldable pub check_cooldown : Row → Option String
unfolding refuse_unless
check_cooldown row = refuse_unless (is_cooldown_eligible row.status) row.status "cooldown-eligible"

unfoldable pub is_null : Json → Bool
is_null Json.null = true
is_null _ = false
