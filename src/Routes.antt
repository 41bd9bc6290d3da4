-- ===== src/Routes.antt =====
-- internal/httpserver/routes.go, with what it uses of package path.
pub mod Paths
pub mod Canonical
pub mod Tests
use Paths.{clean_rooted}
use n8n_gw.Base.{
  Text, codes, ◌==◌, has_prefix, if◌then◌else◌, Bool, true, false, ◌&&◌, ◌||◌, none, some, List, [],
  ◌++◌, ◌∷◌, trim_suffix,
}
use n8n_gw.Url.Escapes.{unescape}

pub data RouteClass : Type 0 where
  route_internal : RouteClass
  route_public_execution : RouteClass
  route_blocked_native_login : RouteClass
  route_native_login_alias : RouteClass
  route_protected_console : RouteClass

abbrev pub method_get : Text
method_get = codes "GET"

abbrev pub method_post : Text
method_post = codes "POST"

abbrev pub method_delete : Text
method_delete = codes "DELETE"

-- The raw path as PathUnescape reads it, or as it stands if it has a bad escape.
unfoldable pub unescaped_path : Text → Text
unfolding unescape
unescaped_path raw_path = elim (unescape false raw_path) [ none ↦ raw_path | some s ↦ s ]

unfoldable pub rooted : Text → Text
unfolding has_prefix
rooted s = if has_prefix s (codes "/") then s else codes "/" ++ s

-- path.Clean of a rooted path is never ".", so the last test of CleanPath does not fire.
unfoldable pub clean_path : Text → Text
unfolding unescaped_path rooted clean_rooted ◌==◌
clean_path raw_path =
    if raw_path == []
    then codes "/"
    else let cleaned = clean_rooted (rooted (unescaped_path raw_path)) in
      if cleaned == codes "." then codes "/" else cleaned

unfoldable pub is_internal_path : Text → Bool
unfolding ◌==◌ has_prefix
is_internal_path path =
    if path == codes "/n8n-link"
      || (path == codes "/signout"
          || (path == codes "/healthz" || (path == codes "/readyz" || path == codes "/metrics")))
    then true
    else has_prefix path (codes "/auth/")

unfoldable pub is_public_bypass_path : Text → List Text → Bool
unfolding ◌==◌ has_prefix trim_suffix
is_public_bypass_path path [] = false
is_public_bypass_path path (prefix ∷ prefixes) =
    if path == trim_suffix prefix (codes "/") || has_prefix path prefix
    then true
    else is_public_bypass_path path prefixes

unfoldable pub classify_path : Text → Text → List Text → RouteClass
unfolding is_internal_path is_public_bypass_path ◌==◌
classify_path method path public_prefixes =
    if is_internal_path path
    then route_internal
    else if method == method_post && path == codes "/rest/logout"
    then route_internal
    else if is_public_bypass_path path public_prefixes
    then route_public_execution
    else if method == method_post && path == codes "/rest/login"
    then route_blocked_native_login
    else if method == method_get && (path == codes "/signin" || path == codes "/login")
    then route_native_login_alias
    else route_protected_console

unfoldable pub classify_route : Text → Text → List Text → RouteClass
unfolding classify_path clean_path
classify_route method raw_path public_prefixes =
    classify_path method (clean_path raw_path) public_prefixes
