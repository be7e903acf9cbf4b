-- ===== src/Control/Items/Selection.antt =====
-- Finding the requested items among the selected rows: `by_id`, `item_outcomes` and `changed_rows` of
use tod_dl.Base.{refl, inl, inr, ◌⊎◌, Bool-cases, ◌≡◌}
-- the item actions (src/tod-dl.py).
use tod_dl.Manifest.{Row}
use tod_dl.Base.{
  String, Bool, true, false, Option, none, some, List, [], ◌∷◌, lookup, insert, if◌then◌else◌,
}

module _ (sha256_hex : String → String) where
  -- {self.item_id(row[0]): row for row in rows}: a later row replaces an earlier one
  unfoldable pub index_rows : List (String × Row) → List Row → List (String × Row)
  index_rows index [] = index
  index_rows index (row ∷ rows) = index_rows (insert (sha256_hex row.url) row index) rows

  unfoldable pub by_id : List Row → List (String × Row)
  unfolding index_rows
  by_id = index_rows []

-- One turn of the loop over `item_ids`.
unfoldable pub outcome_of : (Row → Option String) → String → Option Row → String
outcome_of check accepted none = "rejected: item is outside the selected set"
outcome_of check accepted (some row) = elim (check row) [ none ↦ accepted | some reason ↦ reason ]

unfoldable pub is_accepted : (Row → Option String) → Row → Bool
is_accepted check row = elim (check row) [ none ↦ true | some reason ↦ false ]

module _ (check : Row → Option String) (accepted : String) (index : List (String × Row)) where
  outcomes_from : List (String × String) → List String → List (String × String)
  outcomes_from outcomes [] = outcomes
  outcomes_from outcomes (id ∷ ids) =
      outcomes_from (insert id (outcome_of check accepted (lookup id index)) outcomes) ids

  unfoldable pub item_outcomes : List String → List (String × String)
  unfolding outcomes_from outcome_of
  item_outcomes = outcomes_from []

-- changed_rows.append(row), for an item that is accepted
unfoldable pub append_accepted : (Row → Option String) → Option Row → List Row → List Row
unfolding is_accepted
append_accepted check none rows = rows
append_accepted check (some row) rows = if is_accepted check row then row ∷ rows else rows

module _ (check : Row → Option String) (index : List (String × Row)) where
  unfoldable pub changed_rows : List String → List Row
  unfolding append_accepted
  changed_rows [] = []
  changed_rows (id ∷ ids) = append_accepted check (lookup id index) (changed_rows ids)

-- An item adds its row, or nothing.
pub append_accepted_cases :
    (check : Row → Option String) (o : Option Row) (rows : List Row)
    → (append_accepted check o rows ≡ rows)
      ⊎ ((r : Row) × (o ≡ some r)
          × (is_accepted check r ≡ true)
          × (append_accepted check o rows ≡ r ∷ rows))
unfolding append_accepted
append_accepted_cases check none rows = inl refl
append_accepted_cases check (some r) rows = elim (Bool-cases (is_accepted check r)) [
  | inl e ↦ inr (r, refl, e, rw e)
  | inr e ↦ inl (rw e)
]
