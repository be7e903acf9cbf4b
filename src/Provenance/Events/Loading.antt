-- ===== src/Provenance/Events/Loading.antt =====
-- What `load_json` of src/verify_provenance.py makes of bytes: `json.loads`, with each dictionary
-- through `no_duplicates`.
use tod_dl.Provenance.{Library, Parsed, value, invalid}
use tod_dl.Json.{Json, null, Items, nil, cons, Fields, end, field, str, arr, obj}
use tod_dl.Json.Dict.{has_field, set_field}
use tod_dl.Base.{if◌then◌else◌, ◌<>◌}

-- the pairs of one dictionary, without repeated keys
unfoldable pub no_duplicates : {B : Type 0} → Library B → Fields → Fields → Parsed Fields
no_duplicates lib result end = value result
no_duplicates lib result (field key v pairs) =
    let rest = no_duplicates lib (set_field key v result) pairs in
    if has_field key result then invalid ("duplicate key " <> lib.repr (str key)) else rest

abbrev pub and_then : {A : Type 0} {B : Type 0} → Parsed A → (A → Parsed B) → Parsed B
and_then (value a) rest = rest a
and_then (invalid message) rest = invalid message

-- What `json.loads` makes of a text: the hook runs for each dictionary, the inner ones first.
unfoldable mutual
  unfolding no_duplicates

  pub build : {B : Type 0} → Library B → Json → Parsed Json
  build lib (arr items) = and_then (build_items lib items) λ xs. value (arr xs)
  build lib (obj pairs) =
      and_then (build_pairs lib pairs)
        λ built. and_then (no_duplicates lib end built) λ fields. value (obj fields)
  build lib null = value null
  build lib v = value v

  pub build_items : {B : Type 0} → Library B → Items → Parsed Items
  build_items lib nil = value nil
  build_items lib (cons v items) =
      and_then (build lib v) λ w. and_then (build_items lib items) λ ws. value (cons w ws)

  pub build_pairs : {B : Type 0} → Library B → Fields → Parsed Fields
  build_pairs lib end = value end
  build_pairs lib (field key v pairs) =
      and_then (build lib v) λ w. and_then (build_pairs lib pairs) λ rest. value (field key w rest)

unfoldable pub load : {B : Type 0} → Library B → B → Parsed Json
load lib bytes = and_then (lib.parse bytes) (build lib)
