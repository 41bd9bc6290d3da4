-- ===== src/Server/Callback.antt =====
-- server.go: what handleAuthCallback does with a login state.
pub mod Run
use n8n_gw.Session
use n8n_gw.Session.{Session, OidcState}
use n8n_gw.Vault
use n8n_gw.Vault.{Credential}
use n8n_gw.N8n.{LoginResult, logged_in}
use n8n_gw.Oidc.{Identity}
use n8n_gw.Security.Cookie.{proxy_session_cookies, n8n_bridge_cookie}
use n8n_gw.Security.Rewrite.{rewrite_set_cookie}
use n8n_gw.Server.State.{
  set_header, Request, value_of, State, own, upstream, add_cookie, add_cookies, answer, redirect,
  answer_status, vault_ops,
}
use n8n_gw.Server.Deps.{Deps, Config}
use n8n_gw.Server.Targets.{safe_return_to}
use n8n_gw.Server.Forwarding.{n8n_login_headers}
use n8n_gw.Server.Reply.{
  write_error, write_n8n_cookies, write_proxy_session_cookies, set_bridge_cookie, get_credential,
}
use n8n_gw.Server.Auth.{
  handle_auth_callback, callback_state, callback_identity, callback_session, callback_credential,
  callback_login, mark_linked, finish_callback,
}
use n8n_gw.Server.Logout.{add_cookies_lem}
use n8n_gw.Base.{
  ℕ, ◌≡◌, ◌∙◌, ap, refl, ◌⊎◌, Text, codes, ◌==◌, eq_iff, true, false, ◌||◌, none, some, List, [],
  ◌∷◌, ◌++◌, map, arith,
}

module _ {W : Type 0} (deps : Deps W) (cfg : Config) where
  -- Refused: the status, and nothing new in the world or among the cookies.
  abbrev pub Refuses : State W → State W → W → ℕ → Type 0
  Refuses s t w status =
      (t.world ≡ w)
      × (t.response.set_cookies ≡ s.response.set_cookies)
      × (t.response.status ≡ status)

  write_error-Refuses :
      (r : Request) (status : ℕ) (code : Text) (s : State W)
      → Refuses s (write_error deps cfg r status code s).1 s.world status
  unfolding write_error answer answer_status set_header
  write_error-Refuses r status code s = ground arith

  callback_state-Refuses :
      (r : Request) (e : Session.Failure) (s : State W)
      → Refuses s (callback_state deps cfg r (Session.err e) s).1 s.world 400
  unfolding callback_state
  callback_state-Refuses r e s = write_error-Refuses r 400 (codes "invalid_oidc_state") _

  callback_identity-Refuses :
      (r : Request) (stored : OidcState) (s : State W)
      → Refuses s (callback_identity deps cfg r stored none s).1 s.world 401
  unfolding callback_identity
  callback_identity-Refuses r stored s = write_error-Refuses r 401 (codes "oidc_exchange_failed") _

  callback_state-Refuses_exchange :
      (r : Request) (stored : OidcState) (s : State W)
      → let exchange =
          deps.oidc.exchange
            (value_of (codes "code") r.query)
            stored.nonce
            stored.code_verifier
            s.world in
        exchange.0 ≡ none
        → Refuses s (callback_state deps cfg r (Session.ok stored) s).1 exchange.1 401
  unfolding callback_state
  callback_state-Refuses_exchange r stored s fails = rw fails (callback_identity-Refuses r stored _)

  any_empty : (a b : Text) → (a ≡ []) ⊎ (b ≡ []) → a == [] || b == [] ≡ true
  any_empty a b h = ground (arith, eq_iff a [], eq_iff b [])

  -- A callback without a state or a code, one whose state is not in the store, and one whose code is
  -- not exchanged for an identity are refused with 400, 400 and 401. No session is created, no
  -- credential is read and no cookie is set: nothing is done but to take the state and to exchange the
  -- code, with the nonce and the verifier that were stored.
  pub handle_auth_callback-Refuses :
      (r : Request) (s : State W)
      → let state = value_of (codes "state") r.query in
        let code = value_of (codes "code") r.query in
        let took = deps.sessions.take_oidc_state state s.world in
        let t = (handle_auth_callback deps cfg r s).1 in
        ((state ≡ []) ⊎ (code ≡ []) → Refuses s t s.world 400)
        × ((e : Session.Failure)
            → state == [] || code == [] ≡ false
            → took.0 ≡ Session.err e
            → Refuses s t took.1 400)
        × ((stored : OidcState)
            → state == [] || code == [] ≡ false
            → took.0 ≡ Session.ok stored
            → (deps.oidc.exchange code stored.nonce stored.code_verifier took.1).0 ≡ none
            → Refuses s t (deps.oidc.exchange code stored.nonce stored.code_verifier took.1).1 401)
  unfolding handle_auth_callback
  handle_auth_callback-Refuses r s = (
    (λ missing.
        rw (any_empty _ _ missing) (write_error-Refuses r 400 (codes "invalid_oidc_callback") _)),
    (λ e given fails. rw (given, fails) (callback_state-Refuses r e _)),
    (λ stored given taken fails.
        rw (given, taken) (callback_state-Refuses_exchange r stored _ fails)),
  )
