-- ===== src/Server/Serve.antt =====
-- server.go: serveInternal and ServeHTTP.
use n8n_gw.Routes.{
  RouteClass, route_internal, route_public_execution, route_blocked_native_login,
  route_native_login_alias, route_protected_console, classify_route, clean_path, method_get,
  method_post, method_delete,
}
use n8n_gw.Server.State.{
  Request, value_of, Action, Handler, ◌>>=◌, ◌>>◌, pure, call, count, answer, write_json,
  set_header, page_not_found, json_health, metrics_page, proxied, public_proxy, requests,
  public_inflight_inc, public_inflight_dec,
}
use n8n_gw.Server.Deps.{Deps, Config}
use n8n_gw.Server.Forwarding.{normalize_forwarded_headers}
use n8n_gw.Server.Bridge.{serve_protected, handle_native_login_alias}
use n8n_gw.Server.Auth.{
  handle_auth_login, handle_auth_callback, handle_proxy_logout, handle_n8n_logout,
  handle_n8n_signout,
}
use n8n_gw.Server.Link.{handle_link_get, handle_link_post, handle_link_delete}
use n8n_gw.Server.Ready.{handle_ready}
use n8n_gw.Base.{
  Text, codes, ◌==◌, if◌then◌else◌, Bool, true, false, ◌&&◌, none, some, [], ◌++◌, trim_space,
}

unfoldable pub has_csp : RouteClass → Bool
has_csp route_internal = true
has_csp route_blocked_native_login = true
has_csp route_native_login_alias = true
has_csp route_public_execution = false
has_csp route_protected_console = false

-- The cases of serveInternal's switch, in its order.
pub data Endpoint : Type 0 where
  healthz readyz metrics auth_login auth_callback auth_logout rest_logout signout : Endpoint
  link_get link_post link_delete unknown : Endpoint

unfoldable pub endpoint : Text → Text → Endpoint
endpoint path method =
    let is_get = method == method_get in
    let is_post = method == method_post in
    if path == codes "/healthz" && is_get
    then healthz
    else if path == codes "/readyz" && is_get
    then readyz
    else if path == codes "/metrics" && is_get
    then metrics
    else if path == codes "/auth/login" && is_get
    then auth_login
    else if path == codes "/auth/callback" && is_get
    then auth_callback
    else if path == codes "/auth/logout" && is_post
    then auth_logout
    else if path == codes "/rest/logout" && is_post
    then rest_logout
    else if path == codes "/signout" && is_get
    then signout
    else if path == codes "/n8n-link" && is_get
    then link_get
    else if path == codes "/n8n-link" && is_post
    then link_post
    else if path == codes "/n8n-link" && method == method_delete
    then link_delete
    else unknown

abbrev content_policy : Text
content_policy =
    codes "default-src 'self'; script-src 'none'; style-src 'self' 'unsafe-inline'; "
    ++ codes "frame-ancestors 'self'"

module _ {W : Type 0} (deps : Deps W) (cfg : Config) where
  unfoldable pub request_id : Request → Action W Text
  request_id r =
      if trim_space (value_of (codes "X-Request-Id") r.headers) == []
      then (do
        id ← call (deps.random_base64_url 16)
        elim id [ none ↦ call (λ w. (deps.unix_nano w, w)) | some id ↦ pure (codes "req_" ++ id) ])
      else pure (trim_space (value_of (codes "X-Request-Id") r.headers))

  unfoldable pub apply_security_headers : Bool → Handler W
  apply_security_headers include_csp = do
    set_header (codes "X-Content-Type-Options") (codes "nosniff")
    set_header (codes "Referrer-Policy") (codes "no-referrer")
    set_header (codes "X-Frame-Options") (codes "SAMEORIGIN")
    (if include_csp then set_header (codes "Content-Security-Policy") content_policy else pure tt)

  unfoldable pub serve_endpoint : Endpoint → Request → Handler W
  serve_endpoint healthz r = write_json json_health
  serve_endpoint readyz r = handle_ready deps r
  serve_endpoint metrics r = answer metrics_page
  serve_endpoint auth_login r = handle_auth_login deps cfg r
  serve_endpoint auth_callback r = handle_auth_callback deps cfg r
  serve_endpoint auth_logout r = handle_proxy_logout deps cfg r
  serve_endpoint rest_logout r = handle_n8n_logout deps cfg r
  serve_endpoint signout r = handle_n8n_signout deps cfg r
  serve_endpoint link_get r = handle_link_get deps cfg r
  serve_endpoint link_post r = handle_link_post deps cfg r
  serve_endpoint link_delete r = handle_link_delete deps cfg r
  serve_endpoint unknown r = answer page_not_found

  unfoldable pub serve_internal : Request → Handler W
  serve_internal r = serve_endpoint (endpoint (clean_path r.path) r.method) r

  unfoldable pub serve_public : Request → Handler W
  serve_public r = do
    count public_inflight_inc
    status ← call (deps.public_handler r)
    answer (proxied public_proxy status)
    count public_inflight_dec

  unfoldable pub serve_class : RouteClass → Request → Handler W
  serve_class route_internal r = serve_internal r
  serve_class route_public_execution r = serve_public r
  serve_class route_blocked_native_login r = answer page_not_found
  serve_class route_native_login_alias r = handle_native_login_alias deps cfg r
  serve_class route_protected_console r = serve_protected deps cfg r

  unfoldable pub count_request : RouteClass → Handler W
  count_request class s = count (requests class s.response.status) s

  -- The request as the handlers see it.
  abbrev pub prepared : Request → Text → Request
  prepared r id = normalize_forwarded_headers deps.net cfg (record r { request_id = id })

  abbrev pub class_of : Request → RouteClass
  class_of r = classify_route r.method r.path cfg.public_bypass_prefixes

  unfoldable pub serve_http : Request → Handler W
  serve_http r = do
    id ← request_id r
    set_header (codes "X-Request-Id") id
    apply_security_headers (has_csp (class_of r))
    serve_class (class_of r) (prepared r id)
    count_request (class_of r)
