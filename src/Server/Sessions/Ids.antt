-- ===== src/Server/Sessions/Ids.antt =====
-- server.go: whose session a request has.
use n8n_gw.Security.Cookie.{
  RequestCookies, insecure_proxy_session_cookie_name, proxy_session_cookie_name,
  proxy_session_cookie_name_for_secure,
}
use n8n_gw.Session
use n8n_gw.Session.{Session}
use n8n_gw.Server.State.{Request, State}
use n8n_gw.Server.Deps.{Deps, Config}
use n8n_gw.Server.Sessions.{
  is_in, ids_of_name, ids_of_names, session_cookie_ids, Found, no_cookie, live, no_session,
  store_error, lookup_ids, lookup_all, lookup_session_from_cookies, on_found, require_session,
}
use n8n_gw.Base.{
  ◌≡◌, ◌⊎◌, inl, inr, refl, Text, ◌==◌, eq_iff, Bool, true, false, not, ◌&&◌, ◌||◌, some, List, [],
  ◌∷◌, ◌++◌, arith,
}

-- A cookie of the name has the value.
unfoldable pub has_cookie : Text → Text → RequestCookies → Bool
has_cookie name v [] = false
has_cookie name v ((n, u) ∷ cookies) = (n == name && u == v) || has_cookie name v cookies

unfoldable pub distinct : List Text → Bool
distinct [] = true
distinct (x ∷ xs) = not (is_in x xs) && distinct xs

is_in-snoc : (x v : Text) (ids : List Text) → is_in x (ids ++ v ∷ []) ≡ (is_in x ids || v == x)
unfolding is_in
is_in-snoc x v [] = ground arith
is_in-snoc x v (i ∷ ids) = ground (arith, is_in-snoc x v ids)

distinct-snoc :
    (v : Text) (ids : List Text) → distinct (ids ++ v ∷ []) ≡ (distinct ids && not (is_in v ids))
unfolding distinct is_in
distinct-snoc v [] = ground arith
distinct-snoc v (i ∷ ids) =
    ground (arith, distinct-snoc v ids, is_in-snoc i v ids, eq_iff i v, eq_iff v i)

is_in-ids_of_name :
    (name x : Text) (cookies : RequestCookies) (ids : List Text)
    → is_in x (ids_of_name name cookies ids)
      ≡ (is_in x ids || (not (x == []) && has_cookie name x cookies))
unfolding ids_of_name has_cookie
is_in-ids_of_name name x [] ids = ground arith
is_in-ids_of_name name x ((n, v) ∷ cookies) ids = ground (
  arith,
  is_in-ids_of_name name x cookies ids,
  is_in-ids_of_name name x cookies (ids ++ v ∷ []),
  is_in-snoc x v ids,
  eq_iff v x,
  eq_iff v [],
  eq_iff x [],
)

distinct-ids_of_name :
    (name : Text) (cookies : RequestCookies) (ids : List Text)
    → distinct ids ≡ true
    → distinct (ids_of_name name cookies ids) ≡ true
unfolding ids_of_name
distinct-ids_of_name name [] ids h = h
distinct-ids_of_name name ((n, v) ∷ cookies) ids h = ground (
  arith,
  distinct-ids_of_name name cookies ids,
  distinct-ids_of_name name cookies (ids ++ v ∷ []),
  distinct-snoc v ids,
)

-- The ids that sessionCookieIDs collects are distinct, and they are exactly the values, the empty
-- one left out, of the cookies that have one of the three session names.
pub session_cookie_ids_lem :
    (cfg : Config) (r : Request)
    → (distinct (session_cookie_ids cfg r) ≡ true)
      × ((id : Text)
          → is_in id (session_cookie_ids cfg r) ≡ (
              not (id == [])
              && (has_cookie insecure_proxy_session_cookie_name id r.cookies
                  || (has_cookie
                        (proxy_session_cookie_name_for_secure cfg.cookie_secure)
                        id
                        r.cookies
                      || has_cookie proxy_session_cookie_name id r.cookies))))
unfolding session_cookie_ids ids_of_names distinct is_in
session_cookie_ids_lem cfg r =
    let one = ids_of_name insecure_proxy_session_cookie_name r.cookies [] in
    let two = ids_of_name (proxy_session_cookie_name_for_secure cfg.cookie_secure) r.cookies one in
    (
      distinct-ids_of_name proxy_session_cookie_name r.cookies two (
          distinct-ids_of_name (proxy_session_cookie_name_for_secure cfg.cookie_secure) r.cookies
            one (distinct-ids_of_name insecure_proxy_session_cookie_name r.cookies [] refl)),
      λ id. ground (
        arith,
        is_in-ids_of_name proxy_session_cookie_name id r.cookies two,
        is_in-ids_of_name (proxy_session_cookie_name_for_secure cfg.cookie_secure) id r.cookies one,
        is_in-ids_of_name insecure_proxy_session_cookie_name id r.cookies [],
      ),
    )

module _ {W : Type 0} (deps : Deps W) where
  Found-cases :
      (found : Session.Result Session)
      → ((sess : Session) × (found ≡ Session.ok sess))
        ⊎ ((found ≡ Session.err Session.not_found)
            ⊎ ((what : Text) × (found ≡ Session.err (Session.broken what))))
  Found-cases (Session.ok sess) = inl (sess, refl)
  Found-cases (Session.err Session.not_found) = inr (inl refl)
  Found-cases (Session.err (Session.broken what)) = inr (inr (what, refl))

  lookup_ids-live :
      (ids : List Text) (s : State W) (id : Text) (sess : Session)
      → (lookup_ids deps ids s).0 ≡ live id sess
      → (is_in id ids ≡ true) × ((w : W) × ((deps.sessions.get_session id w).0 ≡ Session.ok sess))
  unfolding lookup_ids is_in
  lookup_ids-live [] s id sess h = absurd (ground arith)
  lookup_ids-live (i ∷ ids) s id sess h =
      elim (Found-cases (deps.sessions.get_session i s.world).0) [
        | inl (got, found) ↦ (ground (arith, eq_iff i id), (s.world, ground arith))
        | inr (inl gone) ↦
            (let w = (deps.sessions.get_session i s.world).1 in
              let more = lookup_ids-live ids (record s { world = w }) id sess (ground arith) in
              (ground (arith, more.0), more.1))
        | inr (inr (what, broke)) ↦ absurd (ground arith)
      ]

  lookup_all-live :
      (ids : List Text) (s : State W) (id : Text) (sess : Session)
      → (lookup_all deps ids s).0 ≡ live id sess
      → (is_in id ids ≡ true) × ((w : W) × ((deps.sessions.get_session id w).0 ≡ Session.ok sess))
  lookup_all-live [] s id sess h = absurd (ground arith)
  lookup_all-live (i ∷ ids) s id sess h = lookup_ids-live (i ∷ ids) s id sess h

  on_found-live :
      (cfg : Config) (r : Request) (found : Found) (s : State W) (id : Text) (sess : Session)
      → (on_found deps cfg r found s).0 ≡ some (id, sess)
      → found ≡ live id sess
  unfolding on_found
  on_found-live cfg r no_cookie s id sess h = absurd (ground arith)
  on_found-live cfg r (live i got) s id sess h = ground arith
  on_found-live cfg r no_session s id sess h = absurd (ground arith)
  on_found-live cfg r store_error s id sess h = absurd (ground arith)

  -- A request has a session only if one of its session cookies has the session's id as its value, and
  -- the session store gave the session for this id.
  pub require_session_lem :
      (cfg : Config) (r : Request) (s : State W) (id : Text) (sess : Session)
      → (require_session deps cfg r s).0 ≡ some (id, sess)
      → (is_in id (session_cookie_ids cfg r) ≡ true)
        × ((w : W) × ((deps.sessions.get_session id w).0 ≡ Session.ok sess))
  unfolding require_session lookup_session_from_cookies
  require_session_lem cfg r s id sess h =
      let found = lookup_session_from_cookies deps cfg r s in
      lookup_all-live (session_cookie_ids cfg r) s id sess
        (on_found-live cfg r found.0 found.1 id sess h)
