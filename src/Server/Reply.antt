-- ===== src/Server/Reply.antt =====
-- server.go: writeError, wantsJSON, redirectToLogin, handleN8NLoginError, the writers of cookies and
-- the credential store with its metrics.
use n8n_gw.Security.Cookie.{
  proxy_session_cookies, clear_proxy_session_cookies, n8n_bridge_cookie, clear_n8n_bridge_cookie,
}
use n8n_gw.Security.Rewrite.{rewrite_set_cookie}
use n8n_gw.Vault
use n8n_gw.Vault.{Credential, not_found, broken, ok, err}
use n8n_gw.N8n.{
  LoginError, invalid_credential, mfa_required, rate_limited, no_session_cookie, failed,
}
use n8n_gw.Server.State.{
  Request, value_of, Action, Handler, ◌>>=◌, ◌>>◌, pure, call, count, answer, write_json,
  set_header, add_cookies, add_cookie, own, upstream, redirect, error_json, error_text, vault_ops,
}
use n8n_gw.Server.Deps.{Deps, Config}
use n8n_gw.Server.Targets.{safe_return_to}
use n8n_gw.Base.{ℕ, Text, codes, if◌then◌else◌, Bool, true, false, List, ◌++◌, map, contains}

unfoldable pub wants_json : Request → Bool
wants_json r = contains (value_of (codes "Accept") r.headers) (codes "application/json")

unfoldable pub login_result_label : LoginError → Text
login_result_label invalid_credential = codes "invalid_credential"
login_result_label mfa_required = codes "mfa_required"
login_result_label rate_limited = codes "rate_limited"
login_result_label no_session_cookie = codes "error"
login_result_label (failed what) = codes "error"

module _ {W : Type 0} (deps : Deps W) (cfg : Config) where
  unfoldable pub write_error : Request → ℕ → Text → Handler W
  write_error r status code =
      if wants_json r
      then write_json (error_json status code r.request_id)
      else answer (error_text status code)

  unfoldable pub redirect_to_login : Request → Handler W
  redirect_to_login r = answer (
      redirect (
        codes "/auth/login?return_to="
        ++ deps.net.query_escape (safe_return_to deps.net r.request_uri)))

  unfoldable pub write_n8n_cookies : List Text → Handler W
  write_n8n_cookies cookies =
      add_cookies (map (λ c. upstream (rewrite_set_cookie c cfg.cookie_secure)) cookies)

  unfoldable pub write_proxy_session_cookies : Text → Handler W
  write_proxy_session_cookies session_id =
      add_cookies
        (map own (proxy_session_cookies session_id cfg.cookie_secure cfg.session_ttl_seconds))

  unfoldable pub clear_session_cookies : Handler W
  clear_session_cookies = add_cookies (map own (clear_proxy_session_cookies cfg.cookie_secure))

  unfoldable pub set_bridge_cookie : Handler W
  set_bridge_cookie = add_cookie (own (n8n_bridge_cookie cfg.cookie_secure cfg.session_ttl_seconds))

  unfoldable pub clear_bridge_cookie : Handler W
  clear_bridge_cookie = add_cookie (own (clear_n8n_bridge_cookie cfg.cookie_secure))

  unfoldable pub handle_n8n_login_error : Request → LoginError → Bool → Handler W
  handle_n8n_login_error r rate_limited redirect_to_relink = do
    set_header (codes "Retry-After") (codes "60")
    write_error r 429 (codes "n8n_rate_limited")
  handle_n8n_login_error r e true = answer (redirect (codes "/n8n-link?error=relink_required"))
  handle_n8n_login_error r e false = write_error r 400 (codes "invalid_n8n_credential")

  unfoldable pub get_credential : Text → Text → Action W (Vault.Result Credential)
  get_credential issuer subject = do
    found ← call (deps.credentials.get issuer subject)
    elim found [
      | ok cred ↦ do count (vault_ops (codes "read") (codes "success")); pure (ok cred)
      | err not_found ↦ do
        count (vault_ops (codes "read") (codes "not_found"))
        pure (err not_found)
      | err (broken what) ↦ do
        count (vault_ops (codes "read") (codes "error"))
        pure (err (broken what))
    ]

  -- The label of a write or a delete.
  abbrev outcome_label : Vault.Result (Unit {0}) → Text
  outcome_label (ok _) = codes "success"
  outcome_label (err _) = codes "error"

  unfoldable pub put_credential : Credential → Action W (Vault.Result (Unit {0}))
  put_credential cred = do
    result ← call (deps.credentials.put cred)
    count (vault_ops (codes "write") (outcome_label result))
    pure result

  unfoldable pub delete_credential : Text → Text → Action W (Vault.Result (Unit {0}))
  delete_credential issuer subject = do
    result ← call (deps.credentials.delete issuer subject)
    count (vault_ops (codes "delete") (outcome_label result))
    pure result
