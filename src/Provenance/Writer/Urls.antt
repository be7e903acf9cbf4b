-- ===== src/Provenance/Writer/Urls.antt =====
-- `reject_credentialed_url` and the checks of `ProvenanceWriter.event` that call it
-- (src/provenance.py).
use tod_dl.Provenance.{Library}
use tod_dl.Json.{
  Json, null, Items, nil, cons, Fields, end, field, int, str, arr, obj, boolean, float, get_field,
}
use tod_dl.Base.{
  zero, suc, String, Bool, true, false, Option, none, some, if◌then◌else◌, pos, negsuc,
}

-- What the test of one URL, or of several, comes to.
pub data UrlCheck : Type 0 where
  clean credentialed broken : UrlCheck

unfoldable pub check_found : Option Bool → UrlCheck
check_found none = broken
check_found (some true) = credentialed
check_found (some false) = clean

-- reject_credentialed_url
unfoldable pub reject_credentialed_url : {B : Type 0} → Library B → Json → UrlCheck
unfolding check_found
reject_credentialed_url lib (str url) = check_found (lib.credentials url)
reject_credentialed_url lib null = clean
reject_credentialed_url lib _ = clean

-- the first that is not clean
unfoldable pub and_then : UrlCheck → UrlCheck → UrlCheck
and_then clean later = later
and_then credentialed later = credentialed
and_then broken later = broken

unfoldable pub check_items : {B : Type 0} → Library B → Items → UrlCheck
unfolding reject_credentialed_url and_then
check_items lib nil = clean
check_items lib (cons url urls) = and_then (reject_credentialed_url lib url) (check_items lib urls)

unfoldable pub check_keys : {B : Type 0} → Library B → Fields → UrlCheck
unfolding check_found and_then
check_keys lib end = clean
check_keys lib (field name value fields) =
    and_then (check_found (lib.credentials name)) (check_keys lib fields)

unfoldable pub check_characters : {B : Type 0} → Library B → String → UrlCheck
unfolding check_found and_then
check_characters lib String.[] = clean
check_characters lib (String.◌∷◌ c s) =
    and_then (check_found (lib.credentials (String.◌∷◌ c String.[]))) (check_characters lib s)

-- for url in fields.get("redirect_chain") or []: a number that is not 0 cannot be iterated
unfoldable pub check_chain : {B : Type 0} → Library B → Json → UrlCheck
unfolding check_items check_keys check_characters
check_chain lib (arr urls) = check_items lib urls
check_chain lib (obj fields) = check_keys lib fields
check_chain lib (str s) = check_characters lib s
check_chain lib null = clean
check_chain lib (boolean b) = if b then broken else clean
check_chain lib (int (pos zero)) = clean
check_chain lib (int (pos (suc n))) = broken
check_chain lib (int (negsuc n)) = broken
check_chain lib (float x) = if lib.float_eq x (int (pos 0)) then clean else broken

unfoldable pub check_urls : {B : Type 0} → Library B → Fields → UrlCheck
unfolding check_chain reject_credentialed_url and_then
check_urls lib fields = and_then (reject_credentialed_url lib (get_field "source_url" fields)) (
    and_then (reject_credentialed_url lib (get_field "final_url" fields))
      (check_chain lib (get_field "redirect_chain" fields)))
