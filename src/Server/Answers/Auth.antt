-- ===== src/Server/Answers/Auth.antt =====
-- One answer from the login, the callback and the ways out.
use n8n_gw.N8n.{Login, LoginResult, logged_in, refused}
use n8n_gw.Session
use n8n_gw.Session.{Session, OidcState}
use n8n_gw.Vault
use n8n_gw.Vault.{Credential}
use n8n_gw.Server.State.{Request, State}
use n8n_gw.Oidc.{Identity}
use n8n_gw.Server.Deps.{Deps, Config}
use n8n_gw.Server.Sessions.{Found, no_cookie, live, no_session, store_error}
use n8n_gw.Server.Auth.{
  three_randoms, after_store, store_state, start_login, auth_login_with, handle_auth_login,
  finish_callback, mark_linked, callback_login, callback_credential, callback_session,
  callback_identity, callback_state, handle_auth_callback, delete_sessions, handle_proxy_logout,
  handle_n8n_logout, handle_n8n_signout,
}
use n8n_gw.Server.Answers.Parts.{answers, silent}
use n8n_gw.Server.Answers.Bridge.{login_and_redirect_to-AnswersOnce}
use n8n_gw.Base.{ℕ, ◌≡◌, refl, ◌+◌, Text, Option, none, some, List, [], ◌∷◌, arith}

module _ {W : Type 0} (deps : Deps W) (cfg : Config) (k : ℕ) where
  three_randoms-IsSilent : (s : State W) → answers k (three_randoms deps cfg s).1 ≡ answers k s
  unfolding three_randoms
  three_randoms-IsSilent s = ground arith

  after_store-AnswersOnce :
      (r : Request) (v : Text × Text × Text) (stored : Session.Result (Unit {0})) (s : State W)
      → answers k (after_store deps cfg r v stored s).1 ≡ answers k s + 1
  unfolding after_store
  after_store-AnswersOnce r (a, b, c) (Session.err _) s = grind silent
  after_store-AnswersOnce r (a, b, c) (Session.ok _) s = grind silent

  store_state-AnswersOnce :
      (r : Request) (v : Option (Text × Text × Text)) (s : State W)
      → answers k (store_state deps cfg r v s).1 ≡ answers k s + 1
  unfolding store_state
  store_state-AnswersOnce r none s = grind silent
  store_state-AnswersOnce r (some (a, b, c)) s = after_store-AnswersOnce r _ _ _

  start_login-AnswersOnce :
      (r : Request) (s : State W) → answers k (start_login deps cfg r s).1 ≡ answers k s + 1
  unfolding start_login
  start_login-AnswersOnce r s = grind (arith, three_randoms-IsSilent, store_state-AnswersOnce)

  auth_login_with-AnswersOnce :
      (r : Request) (f : Found) (s : State W)
      → answers k (auth_login_with deps cfg r f s).1 ≡ answers k s + 1
  unfolding auth_login_with
  auth_login_with-AnswersOnce r (live id sess) s =
      login_and_redirect_to-AnswersOnce deps cfg k r sess _ s
  auth_login_with-AnswersOnce r no_session s = grind (silent, start_login-AnswersOnce)
  auth_login_with-AnswersOnce r store_error s = grind silent
  auth_login_with-AnswersOnce r no_cookie s = start_login-AnswersOnce r s

  pub handle_auth_login-AnswersOnce :
      (r : Request) (s : State W) → answers k (handle_auth_login deps cfg r s).1 ≡ answers k s + 1
  unfolding handle_auth_login
  handle_auth_login-AnswersOnce r s = grind (silent, auth_login_with-AnswersOnce)

  finish_callback-AnswersOnce :
      (r : Request) (stored : OidcState) (result : LoginResult) (d : Session.Result (Unit {0}))
      (s : State W)
      → answers k (finish_callback deps cfg r stored result d s).1 ≡ answers k s + 1
  unfolding finish_callback
  finish_callback-AnswersOnce r stored result (Session.err _) s = grind silent
  finish_callback-AnswersOnce r stored result (Session.ok _) s = grind silent

  mark_linked-AnswersOnce :
      (r : Request) (stored : OidcState) (id : Text) (result : LoginResult)
      (saved : Session.Result Session) (s : State W)
      → answers k (mark_linked deps cfg r stored id result saved s).1 ≡ answers k s + 1
  unfolding mark_linked
  mark_linked-AnswersOnce r stored id result (Session.err _) s = grind silent
  mark_linked-AnswersOnce r stored id result (Session.ok saved) s =
      finish_callback-AnswersOnce r stored result _ _

  callback_login-AnswersOnce :
      (r : Request) (stored : OidcState) (id : Text) (l : Login) (s : State W)
      → answers k (callback_login deps cfg r stored id l s).1 ≡ answers k s + 1
  unfolding callback_login
  callback_login-AnswersOnce r stored id (refused e) s = grind silent
  callback_login-AnswersOnce r stored id (logged_in result) s =
      mark_linked-AnswersOnce r stored id result _ _

  callback_credential-AnswersOnce :
      (r : Request) (stored : OidcState) (id : Text) (c : Vault.Result Credential) (s : State W)
      → answers k (callback_credential deps cfg r stored id c s).1 ≡ answers k s + 1
  unfolding callback_credential
  callback_credential-AnswersOnce r stored id (Vault.ok cred) s =
      callback_login-AnswersOnce r stored id _ _
  callback_credential-AnswersOnce r stored id (Vault.err Vault.not_found) s = grind silent
  callback_credential-AnswersOnce r stored id (Vault.err (Vault.broken what)) s = grind silent

  callback_session-AnswersOnce :
      (r : Request) (stored : OidcState) (i : Identity) (c : Session.Result Text) (s : State W)
      → answers k (callback_session deps cfg r stored i c s).1 ≡ answers k s + 1
  unfolding callback_session
  callback_session-AnswersOnce r stored i (Session.err _) s = grind silent
  callback_session-AnswersOnce r stored i (Session.ok id) s =
      grind (silent, callback_credential-AnswersOnce)

  callback_identity-AnswersOnce :
      (r : Request) (stored : OidcState) (i : Option Identity) (s : State W)
      → answers k (callback_identity deps cfg r stored i s).1 ≡ answers k s + 1
  unfolding callback_identity
  callback_identity-AnswersOnce r stored none s = grind silent
  callback_identity-AnswersOnce r stored (some i) s = callback_session-AnswersOnce r stored i _ _

  callback_state-AnswersOnce :
      (r : Request) (stored : Session.Result OidcState) (s : State W)
      → answers k (callback_state deps cfg r stored s).1 ≡ answers k s + 1
  unfolding callback_state
  callback_state-AnswersOnce r (Session.err _) s = grind silent
  callback_state-AnswersOnce r (Session.ok stored) s = callback_identity-AnswersOnce r stored _ _

  pub handle_auth_callback-AnswersOnce :
      (r : Request) (s : State W)
      → answers k (handle_auth_callback deps cfg r s).1 ≡ answers k s + 1
  unfolding handle_auth_callback
  handle_auth_callback-AnswersOnce r s = grind (silent, callback_state-AnswersOnce)

  delete_sessions-IsSilent :
      (ids : List Text) (s : State W) → answers k (delete_sessions deps cfg ids s).1 ≡ answers k s
  unfolding delete_sessions
  delete_sessions-IsSilent [] s = refl
  delete_sessions-IsSilent (id ∷ ids) s = delete_sessions-IsSilent ids _

  pub handle_proxy_logout-AnswersOnce :
      (r : Request) (s : State W) → answers k (handle_proxy_logout deps cfg r s).1 ≡ answers k s + 1
  unfolding handle_proxy_logout
  handle_proxy_logout-AnswersOnce r s = grind (silent, delete_sessions-IsSilent)

  pub handle_n8n_logout-AnswersOnce :
      (r : Request) (s : State W) → answers k (handle_n8n_logout deps cfg r s).1 ≡ answers k s + 1
  unfolding handle_n8n_logout
  handle_n8n_logout-AnswersOnce r s = grind silent

  pub handle_n8n_signout-AnswersOnce :
      (r : Request) (s : State W) → answers k (handle_n8n_signout deps cfg r s).1 ≡ answers k s + 1
  unfolding handle_n8n_signout
  handle_n8n_signout-AnswersOnce r s = grind silent
