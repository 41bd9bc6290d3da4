-- ===== src/Server/Auth.antt =====
-- server.go: handleAuthLogin, handleAuthCallback and the three ways out.
use n8n_gw.Session
use n8n_gw.Session.{Session, OidcState}
use n8n_gw.Vault
use n8n_gw.Vault.{Credential}
use n8n_gw.N8n.{Login, LoginResult, logged_in, refused}
use n8n_gw.Server.State.{
  Request, value_of, Action, Handler, ◌>>=◌, ◌>>◌, pure, call, count, answer, redirect, oidc_login,
  n8n_login,
}
use n8n_gw.Oidc.{Identity}
use n8n_gw.Server.Deps.{Deps, Config}
use n8n_gw.Server.Targets.{safe_return_to, native_login_return_to, root}
use n8n_gw.Server.Forwarding.{n8n_login_headers}
use n8n_gw.Server.Reply.{
  write_error, clear_session_cookies, write_n8n_cookies, write_proxy_session_cookies,
  set_bridge_cookie, clear_bridge_cookie, handle_n8n_login_error, login_result_label,
  get_credential,
}
use n8n_gw.Server.Sessions.{
  Found, no_cookie, live, no_session, store_error, lookup_session_from_cookies, session_cookie_ids,
}
use n8n_gw.Server.Bridge.{login_and_redirect_to, link_path}
use n8n_gw.Base.{
  Text, codes, ◌==◌, if◌then◌else◌, true, false, ◌||◌, Option, none, some, List, [], ◌∷◌,
}

module _ {W : Type 0} (deps : Deps W) (cfg : Config) where
  -- Three random values, or the failure of one of them.
  unfoldable pub three_randoms : Action W (Option (Text × Text × Text))
  three_randoms = do
    state ← call (deps.random_base64_url 32)
    elim state [
      | none ↦ pure none
      | some state ↦ do
        nonce ← call (deps.random_base64_url 32)
        elim nonce [
          | none ↦ pure none
          | some nonce ↦ do
            verifier ← call (deps.random_base64_url 32)
            elim verifier [
              | none ↦ pure none
              | some verifier ↦ pure (some (state, nonce, verifier))
            ]
        ]
    ]

  unfoldable pub after_store : Request → Text × Text × Text → Session.Result (Unit {0}) → Handler W
  after_store r (state, nonce, verifier) (Session.err _) =
      write_error deps cfg r 503 (codes "session_store_unavailable")
  after_store r (state, nonce, verifier) (Session.ok _) = do
    count (oidc_login (codes "started"))
    answer (redirect (deps.oidc.auth_code_url state nonce verifier))

  unfoldable pub store_state : Request → Option (Text × Text × Text) → Handler W
  store_state r none = write_error deps cfg r 500 (codes "random_failed")
  store_state r (some (state, nonce, verifier)) = do
    now ← call (λ w. (deps.now w, w))
    stored ← call (
        deps.sessions.store_oidc_state state (record {
          nonce = nonce;
          code_verifier = verifier;
          return_to = safe_return_to deps.net (value_of (codes "return_to") r.query);
          created_at = now;
        }))
    after_store r (state, nonce, verifier) stored

  unfoldable pub start_login : Request → Handler W
  start_login r = do randoms ← three_randoms; store_state r randoms

  unfoldable pub auth_login_with : Request → Found → Handler W
  auth_login_with r (live id sess) =
      login_and_redirect_to deps cfg r sess (native_login_return_to deps.net r)
  auth_login_with r no_session = do clear_session_cookies deps cfg; start_login r
  auth_login_with r store_error = write_error deps cfg r 503 (codes "session_store_unavailable")
  auth_login_with r no_cookie = start_login r

  unfoldable pub handle_auth_login : Request → Handler W
  handle_auth_login r = do found ← lookup_session_from_cookies deps cfg r; auth_login_with r found

  abbrev store_unavailable : Request → Handler W
  store_unavailable r = write_error deps cfg r 503 (codes "session_store_unavailable")

  -- The end of the callback, when the session is marked as linked.
  unfoldable pub finish_callback :
      Request → OidcState → LoginResult → Session.Result (Unit {0}) → Handler W
  finish_callback r stored result (Session.err _) = store_unavailable r
  finish_callback r stored result (Session.ok _) = do
    write_n8n_cookies deps cfg result.cookies
    set_bridge_cookie deps cfg
    answer (redirect (safe_return_to deps.net stored.return_to))

  unfoldable pub mark_linked :
      Request → OidcState → Text → LoginResult → Session.Result Session → Handler W
  mark_linked r stored id result (Session.err _) = store_unavailable r
  mark_linked r stored id result (Session.ok saved) = do
    done ← call (deps.sessions.save_session id (record saved { linked = true }))
    finish_callback r stored result done

  unfoldable pub callback_login : Request → OidcState → Text → Login → Handler W
  callback_login r stored id (refused e) = do
    count (n8n_login (login_result_label e))
    handle_n8n_login_error deps cfg r e true
  callback_login r stored id (logged_in result) = do
    count (n8n_login (codes "success"))
    saved ← call (deps.sessions.get_session id)
    mark_linked r stored id result saved

  unfoldable pub callback_credential :
      Request → OidcState → Text → Vault.Result Credential → Handler W
  callback_credential r stored id (Vault.err Vault.not_found) = answer (redirect link_path)
  callback_credential r stored id (Vault.err (Vault.broken what)) =
      write_error deps cfg r 503 (codes "credential_store_unavailable")
  callback_credential r stored id (Vault.ok cred) = do
    result ← call (
        deps.n8n.login cred.n8n_email_or_login_id cred.n8n_password
          (n8n_login_headers deps.net cfg r))
    callback_login r stored id result

  unfoldable pub callback_session : Request → OidcState → Identity → Session.Result Text → Handler W
  callback_session r stored identity (Session.err _) = store_unavailable r
  callback_session r stored identity (Session.ok id) = do
    write_proxy_session_cookies deps cfg id
    cred ← get_credential deps cfg identity.issuer identity.subject
    callback_credential r stored id cred

  unfoldable pub callback_identity : Request → OidcState → Option Identity → Handler W
  callback_identity r stored none = do
    count (oidc_login (codes "exchange_failed"))
    write_error deps cfg r 401 (codes "oidc_exchange_failed")
  callback_identity r stored (some identity) = do
    created ← call (
        deps.sessions.create_session (record {
          issuer = identity.issuer;
          subject = identity.subject;
          email = identity.email;
          name = identity.name;
          linked = false;
          created_at = 0;
          expires_at = 0;
        }))
    callback_session r stored identity created

  unfoldable pub callback_state : Request → Session.Result OidcState → Handler W
  callback_state r (Session.err _) = do
    count (oidc_login (codes "invalid_state"))
    write_error deps cfg r 400 (codes "invalid_oidc_state")
  callback_state r (Session.ok stored) = do
    identity ←
        call
          (deps.oidc.exchange (value_of (codes "code") r.query) stored.nonce stored.code_verifier)
    callback_identity r stored identity

  unfoldable pub handle_auth_callback : Request → Handler W
  handle_auth_callback r =
      if value_of (codes "state") r.query == [] || value_of (codes "code") r.query == []
      then (do
        count (oidc_login (codes "bad_callback"))
        write_error deps cfg r 400 (codes "invalid_oidc_callback"))
      else (do
        stored ← call (deps.sessions.take_oidc_state (value_of (codes "state") r.query))
        callback_state r stored)

  unfoldable pub delete_sessions : List Text → Handler W
  delete_sessions [] = pure tt
  delete_sessions (id ∷ ids) = do
    _deleted ← call (deps.sessions.delete_session id)
    delete_sessions ids

  unfoldable pub handle_proxy_logout : Request → Handler W
  handle_proxy_logout r = do
    delete_sessions (session_cookie_ids cfg r)
    result ← call (deps.n8n.logout (value_of (codes "Cookie") r.headers))
    write_n8n_cookies deps cfg result.0.cookies
    clear_session_cookies deps cfg
    clear_bridge_cookie deps cfg
    answer (redirect root)

  unfoldable pub handle_n8n_logout : Request → Handler W
  handle_n8n_logout r = do
    result ← call (deps.n8n.logout (value_of (codes "Cookie") r.headers))
    write_n8n_cookies deps cfg result.0.cookies
    clear_bridge_cookie deps cfg
    answer (redirect root)

  unfoldable pub handle_n8n_signout : Request → Handler W
  handle_n8n_signout r = do clear_bridge_cookie deps cfg; answer (redirect root)
