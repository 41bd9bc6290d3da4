-- ===== src/Server/Answers/Bridge.antt =====
-- One answer from the console's handlers.
use n8n_gw.N8n.{Login, LoginResult, logged_in, refused, CurrentUserResult}
use n8n_gw.Session.{Session}
use n8n_gw.Vault
use n8n_gw.Vault.{Credential}
use n8n_gw.Server.State.{Request, State, Handler}
use n8n_gw.Server.Deps.{Deps, Config}
use n8n_gw.Server.Sessions.{Found, no_cookie, live, no_session, store_error, require_session}
use n8n_gw.Server.Bridge.{
  after_login, with_credential, log_in, login_and_redirect_to, login_and_redirect,
  login_for_current_user, on_current_user, handle_current_user_bridge, serve_console,
  protected_with, serve_protected, alias_with, handle_native_login_alias,
}
use n8n_gw.Server.Answers.Parts.{answers, AnswersOnce, owed, silent, require_session-owed}
use n8n_gw.Routes.{clean_path, method_get}
use n8n_gw.Security.Cookie.{has_n8n_bridge_cookie}
use n8n_gw.Base.{
  ℕ, ◌≡◌, ◌+◌, Text, codes, ◌==◌, if◌then◌else◌, Bool, false, not, ◌&&◌, Option, none, some, arith,
}

-- A request with a live session goes to the console if it is not the query of the current user and
-- carries the bridge cookie.
abbrev pub goes_to_console : Request → Option (Text × Session) → Bool
goes_to_console r none = false
goes_to_console r (some _) =
    not (clean_path r.path == codes "/rest/login" && r.method == method_get)
    && has_n8n_bridge_cookie r.cookies

-- The weight of the one answer.
abbrev pub price : ℕ → Bool → ℕ
price k b = if b then k else 1

module _ {W : Type 0} (deps : Deps W) (cfg : Config) (k : ℕ) where
  after_login-AnswersOnce :
      (r : Request) (next : LoginResult → Handler W) (l : Login) (s : State W)
      → ((result : LoginResult) → AnswersOnce k (next result))
      → answers k (after_login deps cfg r next l s).1 ≡ answers k s + 1
  unfolding after_login
  after_login-AnswersOnce r next (logged_in result) s once = once result _
  after_login-AnswersOnce r next (refused e) s once = grind silent

  with_credential-AnswersOnce :
      (r : Request) (next : LoginResult → Handler W) (c : Vault.Result Credential) (s : State W)
      → ((result : LoginResult) → AnswersOnce k (next result))
      → answers k (with_credential deps cfg r next c s).1 ≡ answers k s + 1
  unfolding with_credential
  with_credential-AnswersOnce r next (Vault.ok cred) s once =
      after_login-AnswersOnce r next _ _ once
  with_credential-AnswersOnce r next (Vault.err Vault.not_found) s once = grind silent
  with_credential-AnswersOnce r next (Vault.err (Vault.broken what)) s once = grind silent

  log_in-AnswersOnce :
      (r : Request) (sess : Session) (next : LoginResult → Handler W) (s : State W)
      → ((result : LoginResult) → AnswersOnce k (next result))
      → answers k (log_in deps cfg r sess next s).1 ≡ answers k s + 1
  unfolding log_in
  log_in-AnswersOnce r sess next s once = grind (
    silent,
    λ (c : Vault.Result Credential) (t : State W). with_credential-AnswersOnce r next c t once,
  )

  pub login_and_redirect_to-AnswersOnce :
      (r : Request) (sess : Session) (target : Text) (s : State W)
      → answers k (login_and_redirect_to deps cfg r sess target s).1 ≡ answers k s + 1
  unfolding login_and_redirect_to
  login_and_redirect_to-AnswersOnce r sess target s =
      log_in-AnswersOnce r sess _ s λ result t. grind silent

  login_for_current_user-AnswersOnce :
      (r : Request) (sess : Session) (s : State W)
      → answers k (login_for_current_user deps cfg r sess s).1 ≡ answers k s + 1
  unfolding login_for_current_user
  login_for_current_user-AnswersOnce r sess s =
      log_in-AnswersOnce r sess _ s λ result t. grind silent

  on_current_user-AnswersOnce :
      (r : Request) (sess : Session) (c : Option CurrentUserResult) (s : State W)
      → answers k (on_current_user deps cfg r sess c s).1 ≡ answers k s + 1
  unfolding on_current_user
  on_current_user-AnswersOnce r sess none s = login_for_current_user-AnswersOnce r sess s
  on_current_user-AnswersOnce r sess (some current) s =
      grind (silent, login_for_current_user-AnswersOnce)

  handle_current_user_bridge-AnswersOnce :
      (r : Request) (sess : Session) (s : State W)
      → answers k (handle_current_user_bridge deps cfg r sess s).1 ≡ answers k s + 1
  unfolding handle_current_user_bridge
  handle_current_user_bridge-AnswersOnce r sess s =
      grind (arith, login_for_current_user-AnswersOnce, on_current_user-AnswersOnce)

  serve_console-price :
      (r : Request) (s : State W) → answers k (serve_console deps cfg r s).1 ≡ answers k s + k
  unfolding serve_console
  serve_console-price r s = grind silent

  protected_with-owed :
      (r : Request) (found : Option (Text × Session)) (s : State W)
      → answers k (protected_with deps cfg r found s).1 + owed found
        ≡ answers k s + price k (goes_to_console r found)
  unfolding protected_with login_and_redirect
  protected_with-owed r none s = omega arith
  protected_with-owed r (some (id, sess)) s = grind (
    arith, handle_current_user_bridge-AnswersOnce, login_and_redirect_to-AnswersOnce,
    serve_console-price,
  )

  pub serve_protected-price :
      (r : Request) (s : State W)
      → answers k (serve_protected deps cfg r s).1
        ≡ answers k s + price k (goes_to_console r (require_session deps cfg r s).0)
  unfolding serve_protected
  serve_protected-price r s =
      let found = require_session deps cfg r s in
      omega (arith, require_session-owed deps cfg k r s, protected_with-owed r found.0 found.1)

  alias_with-AnswersOnce :
      (r : Request) (f : Found) (s : State W)
      → answers k (alias_with deps cfg r f s).1 ≡ answers k s + 1
  unfolding alias_with
  alias_with-AnswersOnce r no_cookie s = grind silent
  alias_with-AnswersOnce r no_session s = grind silent
  alias_with-AnswersOnce r store_error s = grind silent
  alias_with-AnswersOnce r (live id sess) s = login_and_redirect_to-AnswersOnce r sess _ s

  pub handle_native_login_alias-AnswersOnce :
      (r : Request) (s : State W)
      → answers k (handle_native_login_alias deps cfg r s).1 ≡ answers k s + 1
  unfolding handle_native_login_alias
  handle_native_login_alias-AnswersOnce r s = grind (silent, alias_with-AnswersOnce)
