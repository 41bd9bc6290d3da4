-- ===== src/Security/Tests.antt =====
-- The tables of cookie_test.go, and the laws at concrete values.
use n8n_gw.Url.{parse}
use n8n_gw.Base.{
  ◌==◌, contains_byte, has_prefix, to_lower, ◌≡◌, refl, Text, codes, true, false, Option, none,
  List, [], ◌∷◌, ◌++◌, All, split, trim_space, lookup, if◌then◌else◌,
}
use n8n_gw.Security.Rewrite.{rewrite_set_cookie, split_cookie_parts, rewritten_parts}
use n8n_gw.Security.Rewrite.Parts.{split_cookie_parts-split}
use n8n_gw.Security.Rewrite.Complete.{IsRewritten, rewritten_parts-IsRewritten}
use n8n_gw.Security.Sanitize.{sanitized_upstream_cookie_header, sanitize_parts, empty_jar}
use n8n_gw.Security.Sanitize.Laws.{last_value, count, tally, sanitize_parts_lem}
use n8n_gw.Security.Cookie.{
  is_proxy_cookie_name, clear_proxy_session_cookies, clear_n8n_bridge_cookie, proxy_session_cookies,
  n8n_bridge_cookie,
}
use n8n_gw.Security.Cookie.Laws.{ClearedBy, KeepsHostPrefix, clear_cookies_lem}
use n8n_gw.Security.ReturnUrl.{valid_return_to}
use n8n_gw.Security.ReturnUrl.Local.{IsLocal, valid_return_to-IsLocal}

rewrite_table :
    (rewrite_set_cookie
        (codes "n8n-auth=abc; Domain=n8n.internal; Path=/; HttpOnly; SameSite=None")
        true
      ≡ codes "n8n-auth=abc; Path=/; HttpOnly; SameSite=None; Secure")
    × (rewrite_set_cookie (codes "n8n-auth=abc; Max-Age=60; Priority=High") true
        ≡ codes "n8n-auth=abc; Max-Age=60; Priority=High; Path=/; Secure; SameSite=Lax")
    × (rewrite_set_cookie (codes "n8n-auth=abc; Secure; SameSite=None") false
        ≡ codes "n8n-auth=abc; SameSite=Lax; Path=/")
unfolding rewrite_set_cookie
rewrite_table = (refl, refl, refl)

sanitize_table :
    sanitized_upstream_cookie_header (
      codes
        "__Host-n8np_session=proxy; n8n-auth=stale; n8np_session=proxy; other=1; n8np_n8n_bridge=1; n8n-auth=fresh")
    ≡ codes "n8n-auth=fresh; other=1"
unfolding sanitized_upstream_cookie_header
sanitize_table = refl

abbrev no_authority : Text → Option Text
no_authority s = none

valid_return_to-IsLocal_example : IsLocal (codes "/workflows?page=2")
unfolding valid_return_to ◌==◌ contains_byte has_prefix parse to_lower
valid_return_to-IsLocal_example =
    valid_return_to-IsLocal no_authority (codes "/workflows?page=2") refl

split_cookie_parts-split_example :
    split_cookie_parts (codes "a=1; Expires=Wed, 21 Oct 2026 07:28:00 GMT; Path=/")
    ≡ split b';' (codes "a=1; Expires=Wed, 21 Oct 2026 07:28:00 GMT; Path=/")
split_cookie_parts-split_example =
    split_cookie_parts-split (codes "a=1; Expires=Wed, 21 Oct 2026 07:28:00 GMT; Path=/")

rewritten_parts-IsRewritten_example :
    (attributes : List Text) × ((rewritten_parts true
          (codes "a=1" ∷ codes " Domain=x" ∷ codes " SameSite=None" ∷ [])
        ≡ trim_space (codes "a=1") ∷ attributes)
      × IsRewritten true attributes)
rewritten_parts-IsRewritten_example =
    rewritten_parts-IsRewritten true (codes "a=1") (codes " Domain=x" ∷ codes " SameSite=None" ∷ [])

abbrev cookie_header : List Text
cookie_header = codes "a=1" ∷ codes " n8np_session=s" ∷ codes " a=2" ∷ []

sanitize_parts_lem_example :
    (lookup (codes "a") (sanitize_parts empty_jar cookie_header).values
      ≡ (if is_proxy_cookie_name (codes "a") then none else last_value (codes "a") cookie_header))
    × (count (codes "a") (sanitize_parts empty_jar cookie_header).order
        ≡ tally (
            if is_proxy_cookie_name (codes "a")
            then none
            else last_value (codes "a") cookie_header))
sanitize_parts_lem_example = sanitize_parts_lem cookie_header (codes "a")

clear_cookies_lem_example :
    All
      (ClearedBy (clear_proxy_session_cookies true ++ clear_n8n_bridge_cookie true ∷ []))
      (proxy_session_cookies (codes "id") true 3600 ++ n8n_bridge_cookie true 3600 ∷ [])
    × All KeepsHostPrefix
        (proxy_session_cookies (codes "id") true 3600 ++ n8n_bridge_cookie true 3600 ∷ [])
    × All KeepsHostPrefix (clear_proxy_session_cookies true ++ clear_n8n_bridge_cookie true ∷ [])
clear_cookies_lem_example = clear_cookies_lem (codes "id") true 3600
