-- ===== src/Server/Bridge.antt =====
-- server.go: loginAndRedirectTo, handleCurrentUserBridge, serveProtected and handleNativeLoginAlias.
use n8n_gw.Security.Cookie.{has_n8n_bridge_cookie}
use n8n_gw.Session.{Session}
use n8n_gw.Vault
use n8n_gw.Vault.{Credential}
use n8n_gw.N8n.{Login, LoginResult, CurrentUserResult, logged_in, refused}
use n8n_gw.Routes.{clean_path, method_get}
use n8n_gw.Server.State.{
  Request, value_of, Handler, ◌>>=◌, ◌>>◌, pure, call, count, answer, set_header, redirect, raw,
  proxied, console_proxy, n8n_login,
}
use n8n_gw.Server.Deps.{Deps, Config}
use n8n_gw.Server.Targets.{safe_return_to, native_login_return_to}
use n8n_gw.Server.Forwarding.{n8n_login_headers}
use n8n_gw.Server.Reply.{
  write_error, redirect_to_login, clear_session_cookies, write_n8n_cookies, set_bridge_cookie,
  handle_n8n_login_error, login_result_label, get_credential,
}
use n8n_gw.Server.Sessions.{
  Found, no_cookie, live, no_session, store_error, lookup_session_from_cookies, require_session,
}
use n8n_gw.Base.{
  Text, codes, ◌==◌, ltb, leb, if◌then◌else◌, true, not, ◌&&◌, Option, none, some, [],
}

abbrev pub link_path : Text
link_path = codes "/n8n-link"

module _ {W : Type 0} (deps : Deps W) (cfg : Config) where
  -- The login with a stored credential: the result goes to `next`, and all else is answered here.
  unfoldable pub after_login : Request → (LoginResult → Handler W) → Login → Handler W
  after_login r next (logged_in result) = do count (n8n_login (codes "success")); next result
  after_login r next (refused e) = do
    count (n8n_login (login_result_label e))
    handle_n8n_login_error deps cfg r e true

  unfoldable pub with_credential :
      Request → (LoginResult → Handler W) → Vault.Result Credential → Handler W
  with_credential r next (Vault.ok cred) = do
    result ← call (
        deps.n8n.login cred.n8n_email_or_login_id cred.n8n_password
          (n8n_login_headers deps.net cfg r))
    after_login r next result
  with_credential r next (Vault.err Vault.not_found) = answer (redirect link_path)
  with_credential r next (Vault.err (Vault.broken what)) =
      write_error deps cfg r 503 (codes "credential_store_unavailable")

  unfoldable pub log_in : Request → Session → (LoginResult → Handler W) → Handler W
  log_in r sess next = do
    cred ← get_credential deps cfg sess.issuer sess.subject
    with_credential r next cred

  unfoldable pub login_and_redirect_to : Request → Session → Text → Handler W
  login_and_redirect_to r sess return_to = log_in r sess λ result. do
    write_n8n_cookies deps cfg result.cookies
    set_bridge_cookie deps cfg
    answer (redirect (safe_return_to deps.net return_to))

  unfoldable pub login_and_redirect : Request → Session → Handler W
  login_and_redirect r sess = login_and_redirect_to r sess (safe_return_to deps.net r.request_uri)

  abbrev json_type : Text
  json_type = codes "application/json"

  unfoldable pub login_for_current_user : Request → Session → Handler W
  login_for_current_user r sess = log_in r sess λ result. do
    write_n8n_cookies deps cfg result.cookies
    set_bridge_cookie deps cfg
    set_header (codes "Content-Type") json_type
    answer (raw 200 result.body)

  unfoldable pub on_current_user : Request → Session → Option CurrentUserResult → Handler W
  on_current_user r sess none = login_for_current_user r sess
  on_current_user r sess (some current) =
      if leb 200 current.status_code && ltb current.status_code 300
      then (do
        write_n8n_cookies deps cfg current.cookies
        set_header (codes "Content-Type")
            (if not (current.content_type == []) then current.content_type else json_type)
        answer (raw current.status_code current.body))
      else login_for_current_user r sess

  unfoldable pub handle_current_user_bridge : Request → Session → Handler W
  handle_current_user_bridge r sess =
      if has_n8n_bridge_cookie r.cookies
      then (do
        current ← call (deps.n8n.current_user (value_of (codes "Cookie") r.headers))
        on_current_user r sess current)
      else login_for_current_user r sess

  unfoldable pub serve_console : Request → Handler W
  serve_console r = do status ← call (deps.console_handler r); answer (proxied console_proxy status)

  unfoldable pub protected_with : Request → Option (Text × Session) → Handler W
  protected_with r none = pure tt
  protected_with r (some (id, sess)) =
      if clean_path r.path == codes "/rest/login" && r.method == method_get
      then handle_current_user_bridge r sess
      else if not (has_n8n_bridge_cookie r.cookies)
      then login_and_redirect r sess
      else serve_console r

  unfoldable pub serve_protected : Request → Handler W
  serve_protected r = do found ← require_session deps cfg r; protected_with r found

  unfoldable pub alias_with : Request → Found → Handler W
  alias_with r no_cookie = redirect_to_login deps cfg r
  alias_with r no_session = do clear_session_cookies deps cfg; redirect_to_login deps cfg r
  alias_with r store_error = write_error deps cfg r 503 (codes "session_store_unavailable")
  alias_with r (live id sess) = login_and_redirect_to r sess (native_login_return_to deps.net r)

  unfoldable pub handle_native_login_alias : Request → Handler W
  handle_native_login_alias r = do
    found ← lookup_session_from_cookies deps cfg r
    alias_with r found
