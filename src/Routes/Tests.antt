-- ===== src/Routes/Tests.antt =====
-- The table of routes_test.go.
use n8n_gw.Base.{◌≡◌, refl, codes, List, [], ◌∷◌, Text, ◌++◌, join, All}
use n8n_gw.Routes.Canonical.{IsPlain, clean_path-IsCanonical}
use n8n_gw.Routes.Paths.{clean_rooted}
use n8n_gw.Routes.{
  RouteClass, route_internal, route_public_execution, route_blocked_native_login,
  route_native_login_alias, route_protected_console, classify_route, clean_path, method_get,
  method_post,
}

abbrev prefixes : List Text
prefixes =
    codes "/webhook/"
    ∷ codes "/webhook-test/"
    ∷ codes "/webhook-waiting/"
    ∷ codes "/form/"
    ∷ codes "/form-test/"
    ∷ codes "/forms/"
    ∷ codes "/forms-test/"
    ∷ []

abbrev Routed : Text → Text → RouteClass → Type 0
Routed method path want = classify_route method path prefixes ≡ want

classify_route_table :
    Routed method_get (codes "/auth/login") route_internal
    × Routed method_post (codes "/webhook/foo") route_public_execution
    × Routed method_post (codes "/webhook") route_public_execution
    × Routed method_post (codes "/rest/login") route_blocked_native_login
    × Routed method_post (codes "/rest%2flogin") route_blocked_native_login
    × Routed method_post (codes "//rest/../rest/login") route_blocked_native_login
    × Routed method_post (codes "/rest/logout") route_internal
    × Routed method_get (codes "/signin") route_native_login_alias
    × Routed method_get (codes "/workflows") route_protected_console
unfolding classify_route
classify_route_table = (refl, refl, refl, refl, refl, refl, refl, refl, refl)

clean_path-IsCanonical_example :
    ((parts : List Text) × ((clean_path (codes "//rest/.%2e/./rest%2flogin")
          ≡ codes "/" ++ join (codes "/") parts)
        × All IsPlain parts))
    × (clean_rooted (clean_path (codes "//rest/.%2e/./rest%2flogin"))
        ≡ clean_path (codes "//rest/.%2e/./rest%2flogin"))
clean_path-IsCanonical_example = clean_path-IsCanonical (codes "//rest/.%2e/./rest%2flogin")
