-- ===== src/Json.antt =====
-- Values that `json.loads` gives: the requests of the control socket (src/tod-dl.py, src/controller.py).
pub mod Dict
pub mod Equal
use tod_dl.Base.{
  String, Bool, false, ◌&&◌, Option, none, some, List, [], ◌∷◌, str_eq, if◌then◌else◌, ℤ, leb_ℤ,
}

-- A number with a fraction or an exponent is a Python float; nothing modelled computes with it.
mutual
  pub data Json : Type 0 where
    null : Json
    boolean : Bool → Json
    int : ℤ → Json
    float : String → Json
    str : String → Json
    arr : Items → Json
    obj : Fields → Json

  pub data Items : Type 0 where
    nil : Items
    cons : Json → Items → Items

  pub data Fields : Type 0 where
    end : Fields
    field : String → Json → Fields → Fields

-- d.get(key); None is also JSON's null
unfoldable pub get_field : String → Fields → Json
get_field key end = null
get_field key (field name value fields) = if str_eq name key then value else get_field key fields

-- value.get(key) if isinstance(value, dict) else None
unfoldable pub get : String → Json → Json
unfolding get_field
get key (obj fields) = get_field key fields
get key null = null
get key _ = null

-- the text, if isinstance(value, str)
unfoldable pub text_of : Json → Option String
text_of (str s) = some s
text_of null = none
text_of _ = none

-- value == text
unfoldable pub is_text : String → Json → Bool
is_text text (str s) = str_eq s text
is_text text null = false
is_text text _ = false

-- the texts, if all(isinstance(v, str) and v for v in values)
unfoldable pub texts : Items → Option (List String)
texts nil = some []
texts (cons (str s) items) =
    let rest = texts items in
    if str_eq s "" then none else elim rest [ none ↦ none | some ss ↦ some (s ∷ ss) ]
texts (cons null items) = none
texts (cons _ items) = none

-- item_ids as a non-empty list of non-empty texts
unfoldable pub id_list : Json → Option (List String)
unfolding texts
id_list (arr nil) = none
id_list (arr (cons v vs)) = texts (cons v vs)
id_list null = none
id_list _ = none

-- an int, not a bool, between two bounds
unfoldable pub int_between : ℤ → ℤ → Json → Option ℤ
int_between low high (int n) = if leb_ℤ low n && leb_ℤ n high then some n else none
int_between low high null = none
int_between low high _ = none

-- a list of texts
unfoldable pub items_of : List String → Items
items_of [] = nil
items_of (s ∷ ss) = cons (str s) (items_of ss)
