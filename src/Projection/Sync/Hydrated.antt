-- ===== src/Projection/Sync/Hydrated.antt =====
-- `TelemetryStateProjection.__init__` and the loop of `hydrate` over the rows of the run
-- (src/tod-dl.py).
use tod_dl.Manifest.Rows.{IsKeyed}
use tod_dl.Projection.Sync.Apply.{NoCollision, retry_entry-absent}
use tod_dl.Status.{Bucket}
use tod_dl.Projection.Sync.{
  total, bucket_count, complete_total, retry_entry, complete_part, is_in, one_if, retry_value,
  InSync,
}
use tod_dl.Manifest.{Row}
use tod_dl.Projection.{add_rows, Projection, add_row, change_count, or_zero}
use tod_dl.Base.{
  true, false, eq_iff, lookup-insert, arith, String, refl, Option, ℕ, some, List, pos, none, [],
  ◌≡◌, ◌+ℤ◌, ◌∷◌, Bool, ◌+◌, ℤ, ◌∙◌, ap, if◌then◌else◌, lookup, insert, pos-+ℤ, str_eq, ◌&&◌,
}

-- the projection before any row is added
unfoldable pub empty_projection : ℕ → ℕ → ℕ → ℕ → Projection
empty_projection selected_count skipped_existing revision max_attempts = record {
  selected_count = selected_count;
  skipped_existing = skipped_existing;
  revision = revision;
  max_attempts = max_attempts;
  counts = λ b. pos 0;
  complete_bytes = pos 0;
  last_completion_at = none;
  retries = [];
}

unfoldable or_else : {A : Type 0} → Option A → Option A → Option A
or_else none o = o
or_else (some a) o = some a

or_else-none : {A : Type 0} (o : Option A) → or_else o none ≡ o
unfolding or_else
or_else-none none = refl
or_else-none (some a) = refl

add_if :
    (b : Bool) (z : ℤ) (n m : ℕ)
    → z ≡ pos n
    → (if b then z +ℤ pos m else z) ≡ pos (n + (if b then m else 0))
add_if true z n m h = rw h (pos-+ℤ n m)
add_if false z n m h = h ∙ ap pos (omega arith)

add_one_if :
    (b : Bool) (z : ℤ) (n : ℕ) → z ≡ pos n → (if b then z +ℤ pos 1 else z) ≡ pos (n + one_if b)
add_one_if true z n h = rw h (pos-+ℤ n 1)
add_one_if false z n h = h ∙ ap pos (omega arith)

module _ (sha256_hex : String → String) where
  added :
      (key : String) (row : Row) (waits : Bool) (m : ℕ) (rows : List Row)
      (retries : List (String × (ℕ × String))) (v : ℕ × String)
      → retry_entry sha256_hex m (sha256_hex row.url) rows ≡ none
      → or_else
          (retry_entry sha256_hex m key rows)
          (lookup key (if waits then insert (sha256_hex row.url) v retries else retries))
        ≡ or_else
            (if str_eq (sha256_hex row.url) key && waits
              then some v
              else retry_entry sha256_hex m key rows)
            (lookup key retries)
  unfolding or_else
  added key row true m rows retries v h =
      ground (
        arith,
        eq_iff (sha256_hex row.url) key,
        h,
        lookup-insert (sha256_hex row.url) key v retries,
      )
  added key row false m rows retries v h = ground arith

  kept-add_rows :
      (rows : List Row) (p : Projection)
      → ((add_rows sha256_hex rows p).max_attempts ≡ p.max_attempts)
        × ((add_rows sha256_hex rows p).revision ≡ p.revision)
  unfolding add_rows add_row
  kept-add_rows [] p = (refl, refl)
  kept-add_rows (row ∷ rows) p = kept-add_rows rows _

  counts-add_rows :
      (b : Bucket) (n : ℕ) (rows : List Row) (p : Projection)
      → p.counts b ≡ pos n
      → (add_rows sha256_hex rows p).counts b ≡ pos (n + bucket_count p.max_attempts b rows)
  unfolding add_rows add_row change_count total
  counts-add_rows b n [] p h = h ∙ ap pos (omega arith)
  counts-add_rows b n (row ∷ rows) p h =
      let one = one_if (is_in p.max_attempts b row) in
      counts-add_rows b (n + one) rows (add_row sha256_hex row p)
        (add_one_if (is_in p.max_attempts b row) (p.counts b) n h)
      ∙ ap pos (omega arith)

  bytes-add_rows :
      (n : ℕ) (rows : List Row) (p : Projection)
      → p.complete_bytes ≡ pos n
      → (add_rows sha256_hex rows p).complete_bytes ≡ pos (n + complete_total p.max_attempts rows)
  unfolding add_rows add_row change_count total
  bytes-add_rows n [] p h = h ∙ ap pos (omega arith)
  bytes-add_rows n (row ∷ rows) p h =
      bytes-add_rows (n + complete_part p.max_attempts row) rows (add_row sha256_hex row p)
        (add_if (is_in p.max_attempts Bucket.complete row) p.complete_bytes n (or_zero row.bytes) h)
      ∙ ap pos (omega arith)

  module _ (no_collision : NoCollision sha256_hex) where
    retries-add_rows :
        (key : String) (rows : List Row) (p : Projection)
        → IsKeyed rows
        → lookup key (add_rows sha256_hex rows p).retries
          ≡ or_else (retry_entry sha256_hex p.max_attempts key rows) (lookup key p.retries)
    unfolding add_rows add_row retry_entry or_else lookup
    retries-add_rows key [] p k = refl
    retries-add_rows key (row ∷ rows) p k =
        retries-add_rows key rows (add_row sha256_hex row p) k.1
        ∙ added key row (is_in p.max_attempts Bucket.retry row) p.max_attempts rows p.retries
            (retry_value row)
            (retry_entry-absent sha256_hex no_collision p.max_attempts row.url rows k.0)

    -- The loop of `hydrate` over rows with different keys, in any order, gives exactly their counts,
    -- their byte total and their waiting retries, at the revision that was read.
    pub add_rows-InSync :
        (selected_count skipped_existing revision max_attempts : ℕ) (rows : List Row)
        → IsKeyed rows
        → let p =
            add_rows sha256_hex rows
              (empty_projection selected_count skipped_existing revision max_attempts) in
          InSync sha256_hex p rows × (p.revision ≡ revision)
    unfolding empty_projection lookup
    add_rows-InSync selected_count skipped_existing revision max_attempts rows k =
        let empty = empty_projection selected_count skipped_existing revision max_attempts in
        let kept = kept-add_rows rows empty in
        (
          record {
            counted = λ b. rw kept.0 (counts-add_rows b 0 rows empty refl ∙ ap pos (omega arith));
            totalled = rw kept.0 (bytes-add_rows 0 rows empty refl ∙ ap pos (omega arith));
            waiting = λ key. rw kept.0 (retries-add_rows key rows empty k ∙ or_else-none _);
          },
          kept.1,
        )
