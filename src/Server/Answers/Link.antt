-- ===== src/Server/Answers/Link.antt =====
-- One answer from the link page's handlers.
use n8n_gw.N8n.{Login, LoginResult, logged_in, refused}
use n8n_gw.Session.{Session}
use n8n_gw.Vault
use n8n_gw.Vault.{Credential}
use n8n_gw.Server.State.{form_parsed, Request, State}
use n8n_gw.Server.Deps.{Deps, Config}
use n8n_gw.Server.Sessions.{require_session, validate_csrf}
use n8n_gw.Server.Link.{
  csrf_token, show_page, page_for, page_with_token, link_get_with, handle_link_get, after_delete,
  delete_checked, link_delete_with, handle_link_delete, after_put, after_link_login, post_checked,
  link_post_with, handle_link_post,
}
use n8n_gw.Server.Answers.Parts.{
  answers, silent, owed, unless, require_session-owed, validate_csrf_owed,
}
use n8n_gw.Base.{ℕ, ◌≡◌, ◌+◌, Text, Bool, true, false, Option, none, some, arith}

module _ {W : Type 0} (deps : Deps W) (cfg : Config) (k : ℕ) where
  csrf_token-IsSilent :
      (id : Text) (s : State W) → answers k (csrf_token deps cfg id s).1 ≡ answers k s
  unfolding csrf_token
  csrf_token-IsSilent id s = ground arith

  page_for-AnswersOnce :
      (r : Request) (sess : Session) (token : Text) (c : Vault.Result Credential) (s : State W)
      → answers k (page_for deps cfg r sess token c s).1 ≡ answers k s + 1
  unfolding page_for show_page
  page_for-AnswersOnce r sess token (Vault.ok cred) s = grind silent
  page_for-AnswersOnce r sess token (Vault.err Vault.not_found) s = grind silent
  page_for-AnswersOnce r sess token (Vault.err (Vault.broken what)) s = grind silent

  page_with_token-AnswersOnce :
      (r : Request) (sess : Session) (token : Option Text) (s : State W)
      → answers k (page_with_token deps cfg r sess token s).1 ≡ answers k s + 1
  unfolding page_with_token
  page_with_token-AnswersOnce r sess none s = grind silent
  page_with_token-AnswersOnce r sess (some token) s = grind (silent, page_for-AnswersOnce)

  link_get_with-owed :
      (r : Request) (found : Option (Text × Session)) (s : State W)
      → answers k (link_get_with deps cfg r found s).1 + owed found ≡ answers k s + 1
  unfolding link_get_with
  link_get_with-owed r none s = omega arith
  link_get_with-owed r (some (id, sess)) s =
      grind (arith, csrf_token-IsSilent, page_with_token-AnswersOnce)

  pub handle_link_get-AnswersOnce :
      (r : Request) (s : State W) → answers k (handle_link_get deps cfg r s).1 ≡ answers k s + 1
  unfolding handle_link_get
  handle_link_get-AnswersOnce r s =
      let found = require_session deps cfg r s in
      omega (arith, require_session-owed deps cfg k r s, link_get_with-owed r found.0 found.1)

  after_delete-AnswersOnce :
      (r : Request) (id : Text) (sess : Session) (d : Vault.Result (Unit {0})) (s : State W)
      → answers k (after_delete deps cfg r id sess d s).1 ≡ answers k s + 1
  unfolding after_delete
  after_delete-AnswersOnce r id sess (Vault.err _) s = grind silent
  after_delete-AnswersOnce r id sess (Vault.ok _) s = grind silent

  delete_checked_owed :
      (r : Request) (id : Text) (sess : Session) (valid : Bool) (s : State W)
      → answers k (delete_checked deps cfg r id sess valid s).1 + unless valid ≡ answers k s + 1
  unfolding delete_checked
  delete_checked_owed r id sess false s = omega arith
  delete_checked_owed r id sess true s = grind (silent, after_delete-AnswersOnce)

  link_delete_with-owed :
      (r : Request) (found : Option (Text × Session)) (s : State W)
      → answers k (link_delete_with deps cfg r found s).1 + owed found ≡ answers k s + 1
  unfolding link_delete_with
  link_delete_with-owed r none s = omega arith
  link_delete_with-owed r (some (id, sess)) s =
      let valid = validate_csrf deps cfg r id s in
      omega
        (arith, validate_csrf_owed deps cfg k r id s, delete_checked_owed r id sess valid.0 valid.1)

  pub handle_link_delete-AnswersOnce :
      (r : Request) (s : State W) → answers k (handle_link_delete deps cfg r s).1 ≡ answers k s + 1
  unfolding handle_link_delete
  handle_link_delete-AnswersOnce r s =
      let found = require_session deps cfg r s in
      omega (arith, require_session-owed deps cfg k r s, link_delete_with-owed r found.0 found.1)

  after_put-AnswersOnce :
      (r : Request) (id : Text) (sess : Session) (result : LoginResult)
      (d : Vault.Result (Unit {0})) (s : State W)
      → answers k (after_put deps cfg r id sess result d s).1 ≡ answers k s + 1
  unfolding after_put
  after_put-AnswersOnce r id sess result (Vault.err _) s = grind silent
  after_put-AnswersOnce r id sess result (Vault.ok _) s = grind silent

  after_link_login-AnswersOnce :
      (r : Request) (id : Text) (sess : Session) (login_id password : Text) (l : Login)
      (s : State W)
      → answers k (after_link_login deps cfg r id sess login_id password l s).1 ≡ answers k s + 1
  unfolding after_link_login
  after_link_login-AnswersOnce r id sess login_id password (refused e) s = grind silent
  after_link_login-AnswersOnce r id sess login_id password (logged_in result) s =
      grind (silent, after_put-AnswersOnce)

  post_checked_owed :
      (r : Request) (id : Text) (sess : Session) (valid : Bool) (s : State W)
      → answers k (post_checked deps cfg r id sess valid s).1 + unless valid ≡ answers k s + 1
  unfolding post_checked
  post_checked_owed r id sess false s = omega arith
  post_checked_owed r id sess true s = grind (silent, after_link_login-AnswersOnce)

  link_post_with-owed :
      (r : Request) (found : Option (Text × Session)) (s : State W)
      → answers k (link_post_with deps cfg r found s).1 + owed found ≡ answers k s + 1
  unfolding link_post_with
  link_post_with-owed r none s = omega arith
  link_post_with-owed r (some (id, sess)) s =
      let valid = validate_csrf deps cfg r id s in
      omega
        (arith, validate_csrf_owed deps cfg k r id s, post_checked_owed r id sess valid.0 valid.1)

  post_once :
      (r : Request) (s : State W)
      → answers k
          (link_post_with deps cfg r
            (require_session deps cfg r s).0
            (require_session deps cfg r s).1).1
        ≡ answers k s + 1
  post_once r s =
      let found = require_session deps cfg r s in
      omega (arith, require_session-owed deps cfg k r s, link_post_with-owed r found.0 found.1)

  pub handle_link_post-AnswersOnce :
      (r : Request) (s : State W) → answers k (handle_link_post deps cfg r s).1 ≡ answers k s + 1
  unfolding handle_link_post
  handle_link_post-AnswersOnce r s =
      let r' = form_parsed r in ground (arith, post_once r' s, handle_link_delete-AnswersOnce r' s)
