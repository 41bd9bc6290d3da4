-- ===== src/Server/Sessions.antt =====
-- server.go: sessionCookieIDs, lookupSessionFromCookies, requireSession and validateCSRF.
pub mod Ids
use n8n_gw.Security.Cookie.{
  RequestCookies, insecure_proxy_session_cookie_name, proxy_session_cookie_name,
  proxy_session_cookie_name_for_secure,
}
use n8n_gw.Security.Tokens.{equal_token}
use n8n_gw.Session
use n8n_gw.Session.{Session, not_found, broken, ok, err}
use n8n_gw.Server.State.{Request, value_of, State, Action, Handler, ◌>>=◌, ◌>>◌, pure, call}
use n8n_gw.Server.Deps.{Deps, Config}
use n8n_gw.Server.Reply.{write_error, redirect_to_login, clear_session_cookies}
use n8n_gw.Base.{
  Text, codes, ◌==◌, if◌then◌else◌, Bool, true, false, not, ◌||◌, Option, none, some, List, [], ◌∷◌,
  ◌++◌,
}

-- seen[value], which holds exactly the ids so far
unfoldable pub is_in : Text → List Text → Bool
is_in v [] = false
is_in v (x ∷ xs) = x == v || is_in v xs

unfoldable pub ids_of_name : Text → RequestCookies → List Text → List Text
ids_of_name name [] ids = ids
ids_of_name name ((n, v) ∷ cookies) ids =
    ids_of_name name cookies
      (if not (n == name) || (v == [] || is_in v ids) then ids else ids ++ v ∷ [])

unfoldable pub ids_of_names : List Text → RequestCookies → List Text → List Text
ids_of_names [] cookies ids = ids
ids_of_names (name ∷ names) cookies ids = ids_of_names names cookies (ids_of_name name cookies ids)

unfoldable pub session_cookie_ids : Config → Request → List Text
session_cookie_ids cfg r =
    ids_of_names
      (insecure_proxy_session_cookie_name
        ∷ proxy_session_cookie_name_for_secure cfg.cookie_secure
        ∷ proxy_session_cookie_name
        ∷ [])
      r.cookies []

-- What lookupSessionFromCookies returns: no cookie, a session with its id, none that is live, or an
-- error of the store.
pub data Found : Type 0 where
  no_cookie : Found
  live : Text → Session → Found
  no_session : Found
  store_error : Found

module _ {W : Type 0} (deps : Deps W) where
  -- The loop over the ids. A store error ends it, and a session that is not found does not.
  unfoldable pub lookup_ids : List Text → Action W Found
  lookup_ids [] s = (no_session, s)
  lookup_ids (id ∷ ids) s =
      let found = deps.sessions.get_session id s.world in
      let s' : State W = record s { world = found.1 } in
      elim found.0 [
        | ok sess ↦ (live id sess, s')
        | err not_found ↦ lookup_ids ids s'
        | err (broken what) ↦ (store_error, s')
      ]

  abbrev pub lookup_all : List Text → Action W Found
  lookup_all [] = pure no_cookie
  lookup_all (id ∷ ids) = lookup_ids (id ∷ ids)

  module _ (cfg : Config) where
    unfoldable pub lookup_session_from_cookies : Request → Action W Found
    lookup_session_from_cookies r = lookup_all (session_cookie_ids cfg r)

    -- `none` means that the answer is written.
    unfoldable pub on_found : Request → Found → Action W (Option (Text × Session))
    on_found r no_cookie = do redirect_to_login deps cfg r; pure none
    on_found r (live id sess) = pure (some (id, sess))
    on_found r no_session = do
      clear_session_cookies deps cfg
      redirect_to_login deps cfg r
      pure none
    on_found r store_error = do
      write_error deps cfg r 503 (codes "session_store_unavailable")
      pure none

    unfoldable pub require_session : Request → Action W (Option (Text × Session))
    require_session r = do found ← lookup_session_from_cookies r; on_found r found

    unfoldable pub refuse : Request → Action W Bool
    refuse r = do write_error deps cfg r 403 (codes "csrf_invalid"); pure false

    -- The expected token against that of the form.
    unfoldable pub compare_token : Request → Session.Result Text → Action W Bool
    compare_token r (err _) = refuse r
    compare_token r (ok token) =
        if not (equal_token token (value_of (codes "csrf_token") r.form))
        then refuse r
        else pure true

    unfoldable pub validate_csrf : Request → Text → Action W Bool
    validate_csrf r session_id =
        if r.form_is_bad
        then (do write_error deps cfg r 400 (codes "invalid_form"); pure false)
        else (do expected ← call (deps.sessions.get_csrf session_id); compare_token r expected)
