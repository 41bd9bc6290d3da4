-- ===== src/Server/Link.antt =====
-- server.go: handleLinkGet, handleLinkPost and handleLinkDelete.
use n8n_gw.Session
use n8n_gw.Session.{Session}
use n8n_gw.Vault
use n8n_gw.Vault.{Credential}
use n8n_gw.N8n.{Login, LoginResult, logged_in, refused}
use n8n_gw.Server.State.{
  Request, form_parsed, value_of, Action, Handler, ◌>>=◌, ◌>>◌, pure, call, count, answer,
  set_header, redirect, link_page, n8n_login,
}
use n8n_gw.Server.Deps.{Deps, Config}
use n8n_gw.Server.Targets.{root}
use n8n_gw.Server.Forwarding.{n8n_login_headers}
use n8n_gw.Server.Reply.{
  write_error, write_n8n_cookies, set_bridge_cookie, handle_n8n_login_error, login_result_label,
  get_credential, put_credential, delete_credential,
}
use n8n_gw.Server.Sessions.{require_session, validate_csrf}
use n8n_gw.Server.Bridge.{link_path}
use n8n_gw.Base.{
  Text, codes, ◌==◌, if◌then◌else◌, Bool, true, false, ◌||◌, Option, none, some, [], trim_space,
}

module _ {W : Type 0} (deps : Deps W) (cfg : Config) where
  abbrev credentials_down : Request → Handler W
  credentials_down r = write_error deps cfg r 503 (codes "credential_store_unavailable")

  abbrev set_token : Text → Text → Session.Result (Unit {0}) → Action W (Option Text)
  set_token id token (Session.ok _) = pure (some token)
  set_token id token (Session.err _) = pure none

  -- The token of the session, made on first use; `none` is a failure.
  unfoldable pub csrf_token : Text → Action W (Option Text)
  csrf_token id = do
    found ← call (deps.sessions.get_csrf id)
    elim found [
      | Session.ok token ↦ pure (some token)
      | Session.err (Session.broken what) ↦ pure none
      | Session.err Session.not_found ↦ do
        token ← call (deps.random_base64_url 32)
        elim token [
          | none ↦ pure none
          | some token ↦ do
            stored ← call (deps.sessions.set_csrf id token)
            set_token id token stored
        ]
    ]

  unfoldable pub show_page : Request → Session → Text → Bool → Handler W
  show_page r sess token linked = do
    set_header (codes "Content-Type") (codes "text/html; charset=utf-8")
    answer (
        link_page (record {
          email = sess.email;
          name = sess.name;
          csrf_token = token;
          linked = linked;
          error = value_of (codes "error") r.query;
          relink_hint = value_of (codes "error") r.query == codes "relink_required";
        }))

  unfoldable pub page_for : Request → Session → Text → Vault.Result Credential → Handler W
  page_for r sess token (Vault.ok cred) = show_page r sess token true
  page_for r sess token (Vault.err Vault.not_found) = show_page r sess token false
  page_for r sess token (Vault.err (Vault.broken what)) = credentials_down r

  unfoldable pub page_with_token : Request → Session → Option Text → Handler W
  page_with_token r sess none = write_error deps cfg r 503 (codes "csrf_unavailable")
  page_with_token r sess (some token) = do
    cred ← get_credential deps cfg sess.issuer sess.subject
    page_for r sess token cred

  unfoldable pub link_get_with : Request → Option (Text × Session) → Handler W
  link_get_with r none = pure tt
  link_get_with r (some (id, sess)) = do token ← csrf_token id; page_with_token r sess token

  unfoldable pub handle_link_get : Request → Handler W
  handle_link_get r = do found ← require_session deps cfg r; link_get_with r found

  unfoldable pub after_delete : Request → Text → Session → Vault.Result (Unit {0}) → Handler W
  after_delete r id sess (Vault.err _) = credentials_down r
  after_delete r id sess (Vault.ok _) = do
    _saved ← call (deps.sessions.save_session id (record sess { linked = false }))
    answer (redirect link_path)

  unfoldable pub delete_checked : Request → Text → Session → Bool → Handler W
  delete_checked r id sess false = pure tt
  delete_checked r id sess true = do
    deleted ← delete_credential deps cfg sess.issuer sess.subject
    after_delete r id sess deleted

  unfoldable pub link_delete_with : Request → Option (Text × Session) → Handler W
  link_delete_with r none = pure tt
  link_delete_with r (some (id, sess)) = do
    valid ← validate_csrf deps cfg r id
    delete_checked r id sess valid

  unfoldable pub handle_link_delete : Request → Handler W
  handle_link_delete r = do found ← require_session deps cfg r; link_delete_with r found

  unfoldable pub after_put :
      Request → Text → Session → LoginResult → Vault.Result (Unit {0}) → Handler W
  after_put r id sess result (Vault.err _) = credentials_down r
  after_put r id sess result (Vault.ok _) = do
    _saved ← call (deps.sessions.save_session id (record sess { linked = true }))
    write_n8n_cookies deps cfg result.cookies
    set_bridge_cookie deps cfg
    answer (redirect root)

  unfoldable pub after_link_login : Request → Text → Session → Text → Text → Login → Handler W
  after_link_login r id sess login_id password (refused e) = do
    count (n8n_login (login_result_label e))
    handle_n8n_login_error deps cfg r e false
  after_link_login r id sess login_id password (logged_in result) = do
    count (n8n_login (codes "success"))
    stored ← put_credential deps cfg (record {
      issuer = sess.issuer;
      subject = sess.subject;
      email = sess.email;
      n8n_email_or_login_id = login_id;
      n8n_password = password;
      linked_at = 0;
      updated_at = 0;
    })
    after_put r id sess result stored

  unfoldable pub post_checked : Request → Text → Session → Bool → Handler W
  post_checked r id sess false = pure tt
  post_checked r id sess true =
      if r.form_is_bad
      then write_error deps cfg r 400 (codes "invalid_form")
      else let login_id = trim_space (value_of (codes "n8n_email_or_login_id") r.form) in
        let password = value_of (codes "n8n_password") r.form in
        if login_id == [] || password == []
        then write_error deps cfg r 400 (codes "missing_n8n_credential")
        else (do
          result ← call (deps.n8n.login login_id password (n8n_login_headers deps.net cfg r))
          after_link_login r id sess login_id password result)

  unfoldable pub link_post_with : Request → Option (Text × Session) → Handler W
  link_post_with r none = pure tt
  link_post_with r (some (id, sess)) = do
    valid ← validate_csrf deps cfg r id
    post_checked r id sess valid

  unfoldable pub handle_link_post : Request → Handler W
  handle_link_post r =
      let r' = form_parsed r in
      if value_of (codes "_method") r.form == codes "DELETE"
      then handle_link_delete r'
      else (do found ← require_session deps cfg r'; link_post_with r' found)
