-- ===== src/Server/Answers/Http.antt =====
-- One answer from ServeHTTP.
use n8n_gw.Routes.{
  RouteClass, route_internal, route_public_execution, route_blocked_native_login,
  route_native_login_alias, route_protected_console,
}
use n8n_gw.Server.State.{Request, State, set_header, Answer, proxied, console_proxy}
use n8n_gw.Server.Deps.{Deps, Config}
use n8n_gw.Server.Ready.{handle_ready}
use n8n_gw.Server.Serve.{
  request_id, apply_security_headers, serve_internal, serve_public, serve_class, count_request,
  serve_http, has_csp, serve_endpoint, Endpoint, healthz, readyz, metrics, auth_login,
  auth_callback, auth_logout, rest_logout, signout, link_get, link_post, link_delete, unknown,
  class_of, prepared,
}
use n8n_gw.Server.Answers.Parts.{answers, weight, silent, set_header-IsSilent}
use n8n_gw.Server.Answers.Bridge.{
  serve_protected-price, goes_to_console, price, handle_native_login_alias-AnswersOnce,
}
use n8n_gw.Server.Answers.Auth.{
  handle_auth_login-AnswersOnce, handle_auth_callback-AnswersOnce, handle_proxy_logout-AnswersOnce,
  handle_n8n_logout-AnswersOnce, handle_n8n_signout-AnswersOnce,
}
use n8n_gw.Server.Answers.Link.{
  handle_link_get-AnswersOnce, handle_link_post-AnswersOnce, handle_link_delete-AnswersOnce,
}
use n8n_gw.Server.Sessions.{require_session}
use n8n_gw.Base.{
  suc, List, [], ◌∷◌, length, ℕ, ◌≡◌, refl, ◌+◌, codes, if◌then◌else◌, Bool, true, false, arith,
}

-- The answers that come from the console's upstream.
abbrev pub console_answers : List Answer → ℕ
console_answers [] = 0
console_answers (proxied console_proxy status ∷ more) = suc (console_answers more)
console_answers (_ ∷ more) = console_answers more

module _ {W : Type 0} (deps : Deps W) (cfg : Config) where
  -- The request and the state at which ServeHTTP switches on the route.
  abbrev pub arrived : Request → State W → Request
  arrived r s = prepared deps cfg r (request_id deps cfg r s).0

  abbrev pub begun : Request → State W → State W
  begun r s =
      let id = request_id deps cfg r s in
      (apply_security_headers deps cfg (has_csp (class_of deps cfg r))
        (set_header (codes "X-Request-Id") id.0 id.1).1).1

  abbrev pub is_forwarded : RouteClass → Request → State W → Bool
  is_forwarded route_protected_console r s = goes_to_console r (require_session deps cfg r s).0
  is_forwarded _ r s = false

module _ {W : Type 0} (deps : Deps W) (cfg : Config) (k : ℕ) where
  handle_ready-AnswersOnce :
      (r : Request) (s : State W) → answers k (handle_ready deps r s).1 ≡ answers k s + 1
  unfolding handle_ready
  handle_ready-AnswersOnce r s = grind silent

  request_id-IsSilent :
      (r : Request) (s : State W) → answers k (request_id deps cfg r s).1 ≡ answers k s
  unfolding request_id
  request_id-IsSilent r s = ground arith

  apply_security_headers-IsSilent :
      (csp : Bool) (s : State W) → answers k (apply_security_headers deps cfg csp s).1 ≡ answers k s
  unfolding apply_security_headers
  apply_security_headers-IsSilent true s = grind silent
  apply_security_headers-IsSilent false s = grind silent

  serve_endpoint-AnswersOnce :
      (e : Endpoint) (r : Request) (s : State W)
      → answers k (serve_endpoint deps cfg e r s).1 ≡ answers k s + 1
  unfolding serve_endpoint
  serve_endpoint-AnswersOnce healthz r s = grind silent
  serve_endpoint-AnswersOnce readyz r s = handle_ready-AnswersOnce r s
  serve_endpoint-AnswersOnce metrics r s = grind silent
  serve_endpoint-AnswersOnce auth_login r s = handle_auth_login-AnswersOnce deps cfg k r s
  serve_endpoint-AnswersOnce auth_callback r s = handle_auth_callback-AnswersOnce deps cfg k r s
  serve_endpoint-AnswersOnce auth_logout r s = handle_proxy_logout-AnswersOnce deps cfg k r s
  serve_endpoint-AnswersOnce rest_logout r s = handle_n8n_logout-AnswersOnce deps cfg k r s
  serve_endpoint-AnswersOnce signout r s = handle_n8n_signout-AnswersOnce deps cfg k r s
  serve_endpoint-AnswersOnce link_get r s = handle_link_get-AnswersOnce deps cfg k r s
  serve_endpoint-AnswersOnce link_post r s = handle_link_post-AnswersOnce deps cfg k r s
  serve_endpoint-AnswersOnce link_delete r s = handle_link_delete-AnswersOnce deps cfg k r s
  serve_endpoint-AnswersOnce unknown r s = grind silent

  serve_class-price :
      (c : RouteClass) (r : Request) (s : State W)
      → answers k (serve_class deps cfg c r s).1
        ≡ answers k s + price k (is_forwarded deps cfg c r s)
  unfolding serve_class serve_public serve_internal
  serve_class-price route_internal r s = serve_endpoint-AnswersOnce _ r s
  serve_class-price route_public_execution r s = grind silent
  serve_class-price route_blocked_native_login r s = grind silent
  serve_class-price route_native_login_alias r s =
      handle_native_login_alias-AnswersOnce deps cfg k r s
  serve_class-price route_protected_console r s = serve_protected-price deps cfg k r s

  serve_http-price :
      (r : Request) (s : State W)
      → answers k (serve_http deps cfg r s).1
        ≡ answers k s
          + price k (
              is_forwarded deps cfg
                (class_of deps cfg r)
                (arrived deps cfg r s)
                (begun deps cfg r s))
  unfolding serve_http count_request
  serve_http-price r s =
      let id = request_id deps cfg r s in
      let tagged = set_header (codes "X-Request-Id") id.0 id.1 in
      omega (
        arith,
        request_id-IsSilent r s,
        set_header-IsSilent k (codes "X-Request-Id") id.0 id.1,
        apply_security_headers-IsSilent (has_csp (class_of deps cfg r)) tagged.1,
        serve_class-price (class_of deps cfg r) (arrived deps cfg r s) (begun deps cfg r s),
      )

weight_one : (more : List Answer) → weight 1 more ≡ length more
weight_one [] = refl
weight_one (proxied console_proxy status ∷ more) = omega (arith, weight_one more)
weight_one (_ ∷ more) = omega (arith, weight_one more)

weight_zero : (more : List Answer) → weight 0 more + console_answers more ≡ length more
weight_zero [] = omega arith
weight_zero (proxied console_proxy status ∷ more) = omega (arith, weight_zero more)
weight_zero (_ ∷ more) = omega (arith, weight_zero more)

module _ {W : Type 0} (deps : Deps W) (cfg : Config) where
  -- ServeHTTP writes exactly one answer to every request, whatever the stores, the identity
  -- provider, the upstream and the random source return. The answer comes from the console's upstream
  -- exactly when the route is a protected one, a session cookie leads to a live session, the bridge
  -- cookie is there, and the request is not the query of the current user.
  pub serve_http-answers :
      (r : Request) (s : State W)
      → (length (serve_http deps cfg r s).1.response.answers ≡ length s.response.answers + 1)
        × (console_answers (serve_http deps cfg r s).1.response.answers
            ≡ console_answers s.response.answers
              + (if is_forwarded deps cfg
                    (class_of deps cfg r)
                    (arrived deps cfg r s)
                    (begun deps cfg r s)
                  then 1
                  else 0))
  serve_http-answers r s =
      let after = (serve_http deps cfg r s).1.response.answers in
      ground (
        arith,
        serve_http-price deps cfg 1 r s,
        serve_http-price deps cfg 0 r s,
        weight_one after,
        weight_one s.response.answers,
        weight_zero after,
        weight_zero s.response.answers,
      )
