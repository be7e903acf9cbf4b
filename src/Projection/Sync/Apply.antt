-- ===== src/Projection/Sync/Apply.antt =====
-- `apply` keeps the summary exact when one row of the run changes.
use tod_dl.Base.{
  ℕ, ◌+◌, String, Bool, true, false, Option, none, some, List, [], ◌∷◌, ◌≡◌, refl, pos, ◌+ℤ◌, ◌-ℤ◌,
  arith, str_eq, eq_iff, find?, lookup, erase, lookup-insert, lookup-erase, if◌then◌else◌,
}
use tod_dl.Status.{Bucket}
use tod_dl.Manifest.{Row, find_row, update_where}
use tod_dl.Manifest.Rows.{IsKeyed, KeepsUrl, find_row-url, update_where-absent}
use tod_dl.Projection.{Projection, item_of, change_count, apply}
use tod_dl.Projection.Sync.{
  one_if, is_in, total-update, bucket_count, complete_part, complete_total, retry_value,
  retry_entry, InSync,
}

-- Taking one from the old bucket and giving one to the new.
move_count :
    (out into : Bool) (n n' : ℕ)
    → n' + one_if out ≡ n + one_if into
    → (if into
        then (if out then pos n -ℤ pos 1 else pos n) +ℤ pos 1
        else if out
        then pos n -ℤ pos 1
        else pos n)
      ≡ pos n'
unfolding ◌+ℤ◌ ◌-ℤ◌
move_count true true n n' h = ground arith
move_count true false n n' h = ground arith
move_count false true n n' h = ground arith
move_count false false n n' h = ground arith

move_bytes :
    (out into : Bool) (a b n n' : ℕ)
    → n' + (if out then a else 0) ≡ n + (if into then b else 0)
    → (if into
        then (if out then pos n -ℤ pos a else pos n) +ℤ pos b
        else if out
        then pos n -ℤ pos a
        else pos n)
      ≡ pos n'
unfolding ◌+ℤ◌ ◌-ℤ◌
move_bytes true true a b n n' h = ground arith
move_bytes true false a b n n' h = ground arith
move_bytes false true a b n n' h = ground arith
move_bytes false false a b n n' h = ground arith

-- No two texts have the same digest.
abbrev pub NoCollision : (String → String) → Type 0
NoCollision hash = (a b : String) → hash a ≡ hash b → a ≡ b

module _ (sha256_hex : String → String) (no_collision : NoCollision sha256_hex) where
  pub hash_eq : (a b : String) → str_eq (sha256_hex a) (sha256_hex b) ≡ str_eq a b
  hash_eq a b = ground (arith, eq_iff a b, eq_iff (sha256_hex a) (sha256_hex b), no_collision a b)

  pub retry_entry-absent :
      (m : ℕ) (url : String) (rows : List Row)
      → find_row url rows ≡ none
      → retry_entry sha256_hex m (sha256_hex url) rows ≡ none
  unfolding retry_entry find_row find?
  retry_entry-absent m url [] h = refl
  retry_entry-absent m url (row ∷ rows) h =
      ground (arith, hash_eq row.url url, retry_entry-absent m url rows)

  -- The entry of the changed row is the new one, all others stay.
  pub retry_entry-update :
      (m : ℕ) (set : Row → Row) (keeps : KeepsUrl set) (key url : String) (rows : List Row)
      (r : Row)
      → IsKeyed rows
      → find_row url rows ≡ some r
      → retry_entry sha256_hex m key (update_where (λ row. str_eq row.url url) set rows) ≡ (
          if str_eq (sha256_hex url) key
          then (if is_in m Bucket.retry (set r) then some (retry_value (set r)) else none)
          else retry_entry sha256_hex m key rows)
  unfolding retry_entry find_row find? update_where
  retry_entry-update m set keeps key url [] r k h = cc
  retry_entry-update m set keeps key url (row ∷ rows) r k h = ground (
    arith,
    keeps row,
    eq_iff row.url url,
    eq_iff (sha256_hex url) key,
    eq_iff (sha256_hex row.url) key,
    hash_eq row.url url,
    retry_entry-absent m url rows,
    update_where-absent url set rows,
    retry_entry-update m set keeps key url rows r k.1,
  )

  module _ (p : Projection) (set : Row → Row) (keeps : KeepsUrl set) (url : String)
      (rows : List Row) (r : Row) (revision : ℕ) (completion_at : Option String)
      (keyed : IsKeyed rows) (found : find_row url rows ≡ some r)
      (h : InSync sha256_hex p rows) where
    abbrev applied : Projection
    applied = apply sha256_hex (item_of r) (item_of (set r)) revision completion_at p

    abbrev updated : List Row
    updated = update_where (λ row. str_eq row.url url) set rows

    applied_counts : (b : Bucket) → applied.counts b ≡ pos (bucket_count p.max_attempts b updated)
    unfolding apply item_of change_count
    applied_counts b = rw (h.counted b) (
        move_count (is_in p.max_attempts b r) (is_in p.max_attempts b (set r)) _ _
          (total-update (λ row. one_if (is_in p.max_attempts b row)) set url rows r keyed found))

    applied_bytes : applied.complete_bytes ≡ pos (complete_total p.max_attempts updated)
    unfolding apply item_of
    applied_bytes = rw h.totalled (
        move_bytes (is_in p.max_attempts Bucket.complete r)
          (is_in p.max_attempts Bucket.complete (set r)) _ _ _ _
          (total-update (complete_part p.max_attempts) set url rows r keyed found))

    applied_retries :
        (key : String)
        → lookup key applied.retries ≡ retry_entry sha256_hex p.max_attempts key updated
    unfolding apply item_of
    applied_retries key =
        rw (retry_entry-update p.max_attempts set keeps key url rows r keyed found) (
          ground (
            arith,
            keeps r,
            find_row-url url rows r found,
            h.waiting key,
            lookup-erase (sha256_hex url) key p.retries,
            lookup-insert (sha256_hex url) key (retry_value (set r))
                (erase (sha256_hex url) p.retries),
          ))

    -- Applying the preimage and the postimage of one updated row keeps the projection exact.
    pub apply-InSync : InSync sha256_hex applied updated
    unfolding apply
    apply-InSync = record {
      counted = applied_counts;
      totalled = applied_bytes;
      waiting = applied_retries;
    }
