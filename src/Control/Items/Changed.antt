-- ===== src/Control/Items/Changed.antt =====
-- What an item action does to each row of the run.
use tod_dl.Manifest.Rows.{urls_of, IsKeyed}
use tod_dl.Control.Items.Selection.{append_accepted, is_accepted, changed_rows, by_id}
use tod_dl.Control.Items.Found.{find_id, find_id-found, lookup-by_id}
use tod_dl.Manifest.{Row, find_row}
use tod_dl.Projection.Sync.Apply.{NoCollision, hash_eq}
use mathlib.Core.Option.{some-injective}
use tod_dl.Base.{
  refl, true, false, none, some, [], ◌∷◌, String, Option, find?, List, ◌≡◌, arith, contains, str_eq,
  ◌&&◌, ◌||◌, Bool-cases, inl, eq_iff, inr, Bool, sym, ◌∙◌, ap, if◌then◌else◌,
}

contains-chosen :
    (url : String) (chosen : Bool) (r : Row) (rest : List Row)
    → contains url (urls_of (if chosen then r ∷ rest else rest))
      ≡ ((chosen && str_eq url r.url) || contains url (urls_of rest))
unfolding contains
contains-chosen url true r rest = refl
contains-chosen url false r rest = refl

module _ (sha256_hex : String → String) (no_collision : NoCollision sha256_hex) where
  find_id-url :
      (url : String) (rows : List Row)
      → find_id sha256_hex (sha256_hex url) rows ≡ find_row url rows
  unfolding find_row find?
  find_id-url url [] = refl
  find_id-url url (row ∷ rows) =
      ground (arith, hash_eq sha256_hex no_collision row.url url, find_id-url url rows)

  module _ (check : Row → Option String) (rows : List Row) (url : String) (row : Row)
      (found : find_row url rows ≡ some row) where
    same_row : (r : Row) → find_row r.url rows ≡ some r → r.url ≡ url → row ≡ r
    same_row r e same = some-injective row r (sym found ∙ ap (λ u. find_row u rows) (sym same) ∙ e)

    added :
        (id : String) (rest : List Row) (o : Option Row)
        → find_id sha256_hex id rows ≡ o
        → contains url (urls_of (append_accepted check o rest))
          ≡ ((str_eq (sha256_hex url) id && is_accepted check row) || contains url (urls_of rest))
    unfolding append_accepted contains
    added id rest none e = elim (Bool-cases (str_eq (sha256_hex url) id)) [
      | inl same ↦ cc (find_id-url url rows, found, (eq_iff (sha256_hex url) id).0 same, e)
      | inr other ↦ rw other refl
    ]
    added id rest (some r) e =
        let at = find_id-found sha256_hex no_collision id rows r e in
        let x = contains url (urls_of rest) in
        contains-chosen url (is_accepted check r) r rest
        ∙ ap (λ b. b || x)
            (elim (Bool-cases (str_eq r.url url)) [
              | inl same ↦
                  let equal : r.url ≡ url = (eq_iff r.url url).0 same in
                  ground (
                    arith,
                    equal,
                    at.0,
                    ap sha256_hex equal,
                    eq_iff url r.url,
                    eq_iff (sha256_hex url) id,
                    ap (is_accepted check) (same_row r at.1 equal),
                  )
              | inr other ↦ ground (
                arith,
                other,
                at.0,
                eq_iff url r.url,
                eq_iff r.url url,
                eq_iff (sha256_hex url) id,
                eq_iff (sha256_hex r.url) (sha256_hex url),
                hash_eq sha256_hex no_collision r.url url,
              )
            ])

    -- A row of the run is changed exactly if its item is requested and accepted.
    pub changed-contains :
        (ids : List String)
        → IsKeyed rows
        → contains url (urls_of (changed_rows check (by_id sha256_hex rows) ids))
          ≡ (contains (sha256_hex url) ids && is_accepted check row)
    unfolding changed_rows contains
    changed-contains [] k = refl
    changed-contains (id ∷ ids) k =
        added id (changed_rows check (by_id sha256_hex rows) ids) _
          (sym (lookup-by_id sha256_hex no_collision id rows k))
        ∙ ground (arith, changed-contains ids k)
