-- ===== src/Manifest/Rows.antt =====
-- What the statements on `downloads` do to its rows: `url` is the primary key.
use text.Mathlib.TextPositions.{eq_refl}
use tod_dl.Base.{
  String, Bool, true, none, some, List, [], ◌∷◌, ◌≡◌, refl, ap, false, arith, str_eq, eq_iff,
  filter, find?, if◌then◌else◌, All, contains, map, if_elim,
}
use tod_dl.Manifest.{Row, find_row, update_where, update_urls}

-- No two rows have the same `url`.
abbrev pub IsKeyed : List Row → Type 0
IsKeyed [] = Unit
IsKeyed (row ∷ rows) = (find_row row.url rows ≡ none) × IsKeyed rows

-- An assignment that leaves the key alone.
abbrev pub KeepsUrl : (Row → Row) → Type 0
KeepsUrl set = (row : Row) → (set row).url ≡ row.url

module _ (test : Row → Bool) (set : Row → Row) (keeps : KeepsUrl set) where
  pub find_row-update_where :
      (url : String) (rows : List Row)
      → find_row url (update_where test set rows)
        ≡ elim (find_row url rows) [ none ↦ none | some r ↦ some (if test r then set r else r) ]
  unfolding find_row find? update_where
  find_row-update_where url [] = refl
  find_row-update_where url (row ∷ rows) = ground (arith, keeps row, find_row-update_where url rows)

  pub update_where-IsKeyed : (rows : List Row) → IsKeyed rows → IsKeyed (update_where test set rows)
  unfolding update_where
  update_where-IsKeyed [] h = h
  update_where-IsKeyed (row ∷ rows) h =
      (ground (arith, keeps row, find_row-update_where row.url rows), update_where-IsKeyed rows h.1)

  -- Selecting by the key and updating can change places.
  pub filter-update_where :
      (p : String → Bool) (rows : List Row)
      → filter (λ row. p row.url) (update_where test set rows)
        ≡ update_where test set (filter (λ row. p row.url) rows)
  unfolding filter update_where
  filter-update_where p [] = refl
  filter-update_where p (row ∷ rows) = ground (arith, keeps row, filter-update_where p rows)

pub find_row-url :
    (url : String) (rows : List Row) (r : Row) → find_row url rows ≡ some r → r.url ≡ url
unfolding find_row find?
find_row-url url [] r h = cc
find_row-url url (row ∷ rows) r h = ground (arith, eq_iff row.url url, find_row-url url rows r)

-- A row that is selected by its key is still found among the selected.
pub find_row-filter :
    (p : String → Bool) (url : String) (rows : List Row)
    → p url ≡ true
    → find_row url (filter (λ row. p row.url) rows) ≡ find_row url rows
unfolding find_row find? filter
find_row-filter p url [] h = refl
find_row-filter p url (row ∷ rows) h =
    ground (arith, eq_iff row.url url, find_row-filter p url rows h)

find_row-filter_absent :
    (p : String → Bool) (url : String) (rows : List Row)
    → find_row url rows ≡ none
    → find_row url (filter (λ row. p row.url) rows) ≡ none
unfolding find_row find? filter
find_row-filter_absent p url [] h = refl
find_row-filter_absent p url (row ∷ rows) h = ground (arith, find_row-filter_absent p url rows)

pub filter-IsKeyed :
    (p : String → Bool) (rows : List Row) → IsKeyed rows → IsKeyed (filter (λ row. p row.url) rows)
unfolding filter
filter-IsKeyed p [] h = h
filter-IsKeyed p (row ∷ rows) h =
    ground (arith, find_row-filter_absent p row.url rows, filter-IsKeyed p rows h.1)

-- A key that no row has selects nothing.
pub update_where-absent :
    (url : String) (set : Row → Row) (rows : List Row)
    → find_row url rows ≡ none
    → update_where (λ row. str_eq row.url url) set rows ≡ rows
unfolding find_row find? update_where
update_where-absent url set [] h = refl
update_where-absent url set (row ∷ rows) h = ground (arith, update_where-absent url set rows)

-- A row with a key that another key's row has not.
pub find_row-update_ne :
    (set : Row → Row) (keeps : KeepsUrl set) (url other : String) (rows : List Row)
    → str_eq other url ≡ false
    → find_row other (update_where (λ row. str_eq row.url url) set rows) ≡ find_row other rows
unfolding find_row find? update_where
find_row-update_ne set keeps url other [] h = refl
find_row-update_ne set keeps url other (row ∷ rows) h = ground (
  arith,
  keeps row,
  eq_iff row.url url,
  eq_iff row.url other,
  eq_iff other url,
  find_row-update_ne set keeps url other rows h,
)

abbrev pub urls_of : List Row → List String
urls_of = map (λ row. row.url)

pub update_urls-nil : (set : Row → Row) (rows : List Row) → update_urls [] set rows ≡ rows
unfolding update_urls contains
update_urls-nil set [] = refl
update_urls-nil set (row ∷ rows) = ap (λ rs. row ∷ rs) (update_urls-nil set rows)

-- One statement over several keys is one statement for each.
pub update_urls-cons :
    (set : Row → Row) (keeps : KeepsUrl set) (url : String) (urls : List String) (rows : List Row)
    → contains url urls ≡ false
    → update_urls (url ∷ urls) set rows
      ≡ update_urls urls set (update_where (λ row. str_eq row.url url) set rows)
unfolding update_urls contains
update_urls-cons set keeps url urls [] h = refl
update_urls-cons set keeps url urls (row ∷ rows) h =
    ground (arith, keeps row, eq_iff row.url url, update_urls-cons set keeps url urls rows h)

pub contains-find_row :
    (url : String) (rows : List Row)
    → find_row url rows ≡ none
    → contains url (urls_of rows) ≡ false
unfolding find_row find? contains
contains-find_row url [] h = refl
contains-find_row url (row ∷ rows) h =
    ground (arith, eq_iff row.url url, eq_iff url row.url, contains-find_row url rows)

-- Every row of the list is the row of its key in the table.
abbrev pub AreRowsOf : List Row → List Row → Type 0
AreRowsOf table = All (λ row. find_row row.url table ≡ some row)

pub AreRowsOf-update :
    (set : Row → Row) (keeps : KeepsUrl set) (table : List Row) (url : String) (rows : List Row)
    → find_row url rows ≡ none
    → AreRowsOf table rows
    → AreRowsOf (update_where (λ row. str_eq row.url url) set table) rows
unfolding find_row find?
AreRowsOf-update set keeps table url [] n h = h
AreRowsOf-update set keeps table url (row ∷ rows) n h = (
  ground (arith, find_row-update_ne set keeps url row.url table),
  AreRowsOf-update set keeps table url rows (ground arith) h.1,
)

pub update_urls-IsKeyed :
    (urls : List String) (set : Row → Row) (keeps : KeepsUrl set) (rows : List Row)
    → IsKeyed rows
    → IsKeyed (update_urls urls set rows)
unfolding update_urls
update_urls-IsKeyed urls set keeps rows = update_where-IsKeyed _ set keeps rows

module _ (q : Row → Bool) where
  find_row-filter_any :
      (url : String) (rows : List Row)
      → find_row url rows ≡ none
      → find_row url (filter q rows) ≡ none
  unfolding find_row find? filter
  find_row-filter_any url [] h = refl
  find_row-filter_any url (row ∷ rows) h = ground (arith, find_row-filter_any url rows)

  pub filter_any-IsKeyed : (rows : List Row) → IsKeyed rows → IsKeyed (filter q rows)
  unfolding filter
  filter_any-IsKeyed [] h = h
  filter_any-IsKeyed (row ∷ rows) h =
      if_elim IsKeyed (q row) _ _
        (λ t. (find_row-filter_any row.url rows h.0, filter_any-IsKeyed rows h.1))
        (λ t. filter_any-IsKeyed rows h.1)

AreRowsOf-cons :
    (row : Row) (table rows : List Row)
    → find_row row.url table ≡ none
    → AreRowsOf table rows
    → AreRowsOf (row ∷ table) rows
unfolding find_row find?
AreRowsOf-cons row table [] n a = tt
AreRowsOf-cons row table (r ∷ rows) n a =
    (ground (arith, eq_iff row.url r.url), AreRowsOf-cons row table rows n a.1)

-- The rows of a table that pass a test are rows of the table.
pub filter-AreRowsOf :
    (q : Row → Bool) (rows : List Row) → IsKeyed rows → AreRowsOf rows (filter q rows)
unfolding filter find_row find?
filter-AreRowsOf q [] k = tt
filter-AreRowsOf q (row ∷ rows) k =
    let rest = AreRowsOf-cons row rows (filter q rows) k.0 (filter-AreRowsOf q rows k.1) in
    if_elim (AreRowsOf (row ∷ rows)) (q row) _ _ (λ t. (rw eq_refl, rest)) (λ t. rest)
