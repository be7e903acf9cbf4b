-- ===== src/Control/Items/Found.antt =====
-- The requested items are found: the changed rows are rows of the run, each requested one once.
use mathlib.Core.Path.{subst⁻¹}
use tod_dl.Manifest.{Row, find_row}
use tod_dl.Manifest.Rows.{IsKeyed, AreRowsOf}
use tod_dl.Projection.Sync.Apply.{NoCollision, hash_eq}
use tod_dl.Control.Items.Selection.{
  by_id, index_rows, changed_rows, is_accepted, append_accepted_cases,
}
use text.Mathlib.TextPositions.{eq_refl}
use tod_dl.Base.{
  String, true, false, Option, none, some, List, [], ◌∷◌, ◌≡◌, refl, sym, ◌∙◌, ◌⊎◌, inl, inr, arith,
  str_eq, eq_iff, find?, contains, distinct, lookup, insert, lookup-insert,
}

module _ (sha256_hex : String → String) where
  abbrev pub find_id : String → List Row → Option Row
  find_id id = find? (λ row. str_eq (sha256_hex row.url) id)

  module _ (no_collision : NoCollision sha256_hex) where
    find_id-absent :
        (url : String) (rows : List Row)
        → find_row url rows ≡ none
        → find_id (sha256_hex url) rows ≡ none
    unfolding find_row find?
    find_id-absent url [] h = refl
    find_id-absent url (row ∷ rows) h =
        ground (arith, hash_eq sha256_hex no_collision row.url url, find_id-absent url rows)

    lookup-index_rows :
        (id : String) (index : List (String × Row)) (rows : List Row)
        → IsKeyed rows
        → lookup id (index_rows sha256_hex index rows)
          ≡ elim (find_id id rows) [ none ↦ lookup id index | some row ↦ some row ]
    unfolding index_rows find?
    lookup-index_rows id index [] k = refl
    lookup-index_rows id index (row ∷ rows) k = ground (
      arith,
      eq_iff (sha256_hex row.url) id,
      find_id-absent row.url rows k.0,
      lookup-insert (sha256_hex row.url) id row index,
      lookup-index_rows id (insert (sha256_hex row.url) row index) rows k.1,
    )

    -- An item is found exactly if a row of the run has its identifier.
    pub lookup-by_id :
        (id : String) (rows : List Row)
        → IsKeyed rows
        → lookup id (by_id sha256_hex rows) ≡ find_id id rows
    unfolding by_id lookup
    lookup-by_id id rows k = ground (arith, lookup-index_rows id [] rows k)

    pub find_id-found :
        (id : String) (rows : List Row) (r : Row)
        → find_id id rows ≡ some r
        → (sha256_hex r.url ≡ id) × (find_row r.url rows ≡ some r)
    unfolding find? find_row
    find_id-found id [] r h = cc
    find_id-found id (row ∷ rows) r h = ground (
      arith,
      eq_refl row.url,
      eq_iff (sha256_hex row.url) id,
      eq_iff row.url r.url,
      find_id-found id rows r,
    )

    module _ (check : Row → Option String) (rows : List Row) (k : IsKeyed rows) where
      abbrev changed : List String → List Row
      changed = changed_rows check (by_id sha256_hex rows)

      lookup_found :
          (id : String) (r : Row)
          → lookup id (by_id sha256_hex rows) ≡ some r
          → (sha256_hex r.url ≡ id) × (find_row r.url rows ≡ some r)
      lookup_found id r h = find_id-found id rows r (sym (lookup-by_id id rows k) ∙ h)

      changed_cases :
          (id : String) (ids : List String)
          → (changed (id ∷ ids) ≡ changed ids)
            ⊎ ((r : Row) × (lookup id (by_id sha256_hex rows) ≡ some r)
                × (is_accepted check r ≡ true)
                × (changed (id ∷ ids) ≡ r ∷ changed ids))
      unfolding changed_rows
      changed_cases id ids = append_accepted_cases check _ _

      pub changed-AreRowsOf : (ids : List String) → AreRowsOf rows (changed ids)
      unfolding changed_rows
      changed-AreRowsOf [] = tt
      changed-AreRowsOf (id ∷ ids) = elim (changed_cases id ids) [
        | inl e ↦ subst⁻¹ (AreRowsOf rows) e (changed-AreRowsOf ids)
        | inr (r, e, _, is) ↦
            subst⁻¹ (AreRowsOf rows) is ((lookup_found id r e).1, changed-AreRowsOf ids)
      ]

      cons-absent :
          (url : String) (r : Row) (rest : List Row)
          → str_eq r.url url ≡ false
          → find_row url rest ≡ none
          → find_row url (r ∷ rest) ≡ none
      unfolding find_row find?
      cons-absent url r rest ne h = ground arith

      changed-absent :
          (url : String) (ids : List String)
          → contains (sha256_hex url) ids ≡ false
          → find_row url (changed ids) ≡ none
      unfolding contains changed_rows find_row find?
      changed-absent url [] h = refl
      changed-absent url (id ∷ ids) h = elim (changed_cases id ids) [
        | inl e ↦ subst⁻¹ (λ l. find_row url l ≡ none) e (changed-absent url ids (ground arith))
        | inr (r, e, _, is) ↦
            subst⁻¹ (λ l. find_row url l ≡ none) is
              (cons-absent url r (changed ids)
                (ground
                  (arith, (lookup_found id r e).0, eq_iff r.url url, eq_iff (sha256_hex url) id))
                (changed-absent url ids (ground arith)))
      ]

      -- Distinct identifiers give rows with distinct keys.
      pub changed-IsKeyed : (ids : List String) → distinct ids ≡ true → IsKeyed (changed ids)
      unfolding changed_rows distinct
      changed-IsKeyed [] h = tt
      changed-IsKeyed (id ∷ ids) h = elim (changed_cases id ids) [
        | inl e ↦ subst⁻¹ IsKeyed e (changed-IsKeyed ids (ground arith))
        | inr (r, e, _, is) ↦ subst⁻¹ IsKeyed is (
          changed-absent r.url ids (rw (lookup_found id r e).0 (ground arith)),
          changed-IsKeyed ids (ground arith),
        )
      ]
