-- ===== src/Server/Csrf.antt =====
-- server.go: what the link page's handlers change without a valid token.
use n8n_gw.Security.Tokens.{equal_token}
use n8n_gw.Session
use n8n_gw.Session.{Session}
use n8n_gw.Server.State.{Request, form_parsed, value_of, State, answer, set_header}
use n8n_gw.Server.Deps.{Deps, Config}
use n8n_gw.Server.Reply.{write_error, wants_json, redirect_to_login}
use n8n_gw.Server.Sessions.{
  refuse, compare_token, validate_csrf, require_session, on_found, lookup_session_from_cookies,
  session_cookie_ids, Found, no_cookie, live, no_session, store_error,
}
use n8n_gw.Server.Link.{
  handle_link_post, handle_link_delete, link_post_with, link_delete_with, post_checked,
  delete_checked,
}
use n8n_gw.Base.{ℕ, ◌≡◌, refl, Text, codes, ◌==◌, Bool, false, Bool-cases, some, inl, inr, arith}

module _ {W : Type 0} (deps : Deps W) (cfg : Config) where
  -- The form carries the session's token.
  abbrev pub token_matches : Request → Session.Result Text → Bool
  token_matches r (Session.err _) = false
  token_matches r (Session.ok token) = equal_token token (value_of (codes "csrf_token") r.form)

  write_error_world :
      (r : Request) (status : ℕ) (code : Text) (s : State W)
      → (write_error deps cfg r status code s).1.world ≡ s.world
  unfolding write_error answer set_header
  write_error_world r status code s = ground arith

  refuse_lem :
      (r : Request) (s : State W)
      → ((refuse deps cfg r s).0 ≡ false)
        × ((refuse deps cfg r s).1.world ≡ s.world)
        × ((refuse deps cfg r s).1.response.status ≡ 403)
  unfolding refuse write_error answer set_header
  refuse_lem r s = ground arith

  compare_token_refuses :
      (r : Request) (expected : Session.Result Text) (s : State W)
      → token_matches r expected ≡ false
      → ((compare_token deps cfg r expected s).0 ≡ false)
        × ((compare_token deps cfg r expected s).1.world ≡ s.world)
        × ((compare_token deps cfg r expected s).1.response.status ≡ 403)
  unfolding compare_token
  compare_token_refuses r (Session.err _) s wrong = refuse_lem r s
  compare_token_refuses r (Session.ok token) s wrong = rw wrong (refuse_lem r s)

  validate_csrf_refuses :
      (r : Request) (id : Text) (s : State W)
      → r.form_is_bad ≡ false
      → token_matches r (deps.sessions.get_csrf id s.world).0 ≡ false
      → ((validate_csrf deps cfg r id s).0 ≡ false)
        × ((validate_csrf deps cfg r id s).1.world ≡ (deps.sessions.get_csrf id s.world).1)
        × ((validate_csrf deps cfg r id s).1.response.status ≡ 403)
  unfolding validate_csrf
  validate_csrf_refuses r id s good wrong =
      let got = deps.sessions.get_csrf id s.world in
      simp good (compare_token_refuses r got.0 (record s { world = got.1 }) wrong)

  delete_refused :
      (r : Request) (id : Text) (sess : Session) (s : State W)
      → (validate_csrf deps cfg r id s).0 ≡ false
      → link_delete_with deps cfg r (some (id, sess)) s ≡ (tt, (validate_csrf deps cfg r id s).1)
  unfolding link_delete_with delete_checked
  delete_refused r id sess s wrong = rw wrong

  post_refused :
      (r : Request) (id : Text) (sess : Session) (s : State W)
      → (validate_csrf deps cfg r id s).0 ≡ false
      → link_post_with deps cfg r (some (id, sess)) s ≡ (tt, (validate_csrf deps cfg r id s).1)
  unfolding link_post_with post_checked
  post_refused r id sess s wrong = rw wrong

  -- Neither the session nor the answer to a missing one depends on the form.
  on_found-form_parsed :
      (r : Request) (found : Found) (s : State W)
      → on_found deps cfg (form_parsed r) found s ≡ on_found deps cfg r found s
  unfolding on_found redirect_to_login write_error wants_json
  on_found-form_parsed r no_cookie s = refl
  on_found-form_parsed r (live id sess) s = refl
  on_found-form_parsed r no_session s = refl
  on_found-form_parsed r store_error s = refl

  require_session-form_parsed :
      (r : Request) (s : State W)
      → require_session deps cfg (form_parsed r) s ≡ require_session deps cfg r s
  unfolding require_session lookup_session_from_cookies session_cookie_ids
  require_session-form_parsed r s =
      let found = lookup_session_from_cookies deps cfg r s in on_found-form_parsed r found.0 found.1

  post_or_delete :
      (r : Request) (s : State W) (id : Text) (sess : Session)
      → (require_session deps cfg (form_parsed r) s).0 ≡ some (id, sess)
      → (validate_csrf deps cfg (form_parsed r) id (require_session deps cfg (form_parsed r) s).1).0
        ≡ false
      → handle_link_post deps cfg r s ≡ (
        tt,
        (validate_csrf deps cfg
            (form_parsed r)
            id
            (require_session deps cfg (form_parsed r) s).1).1,
      )
  unfolding handle_link_post handle_link_delete
  post_or_delete r s id sess held wrong =
      let r' = form_parsed r in
      let s' = (require_session deps cfg r' s).1 in
      elim (Bool-cases (value_of (codes "_method") r.form == codes "DELETE")) [
        | inl del ↦ rw (del, held) (delete_refused r' id sess s' wrong)
        | inr post ↦ rw (post, held) (post_refused r' id sess s' wrong)
      ]

  -- A post of the link page that has a live session, but not the session's token, is answered 403,
  -- whether it is to link or to unlink an account and whatever else is wrong with its form, and it has
  -- done no more than look up the session and the token: no credential is stored or deleted, no
  -- session is written, and n8n is not called.
  pub handle_link_post_refuses :
      (r : Request) (s : State W) (id : Text) (sess : Session)
      → (require_session deps cfg r s).0 ≡ some (id, sess)
      → token_matches r (deps.sessions.get_csrf id (require_session deps cfg r s).1.world).0 ≡ false
      → ((handle_link_post deps cfg r s).1.world
          ≡ (deps.sessions.get_csrf id (require_session deps cfg r s).1.world).1)
        × ((handle_link_post deps cfg r s).1.response.status ≡ 403)
  handle_link_post_refuses r s id sess held wrong =
      let r' = form_parsed r in
      let same = require_session-form_parsed r s in
      let (refused, world, status) =
        validate_csrf_refuses r' id (require_session deps cfg r' s).1 refl (rw same wrong) in
      rw (post_or_delete r s id sess (rw same held) refused, ← same) (world, status)
