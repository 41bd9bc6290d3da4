-- ===== src/Server/Logout.antt =====
-- server.go: what is left of a login after a logout.
use mathlib.Core.Path.{subst}
use n8n_gw.Security.Cookie.{clear_proxy_session_cookies, clear_n8n_bridge_cookie}
use n8n_gw.Security.Rewrite.{rewrite_set_cookie}
use n8n_gw.Session.{ok}
use n8n_gw.Server.State.{
  redirect, Response, Request, value_of, State, SetCookie, own, upstream, add_cookie, add_cookies,
  answer, answer_status,
}
use n8n_gw.Server.Deps.{Deps, Config}
use n8n_gw.Server.Reply.{write_n8n_cookies, clear_session_cookies, clear_bridge_cookie}
use n8n_gw.Server.Sessions.{is_in, session_cookie_ids}
use n8n_gw.Server.Auth.{delete_sessions, handle_proxy_logout}
use n8n_gw.Base.{
  ◌≡◌, ◌∙◌, ap, sym, refl, inl, inr, Text, codes, ◌==◌, eq_iff, true, List, [], ◌∷◌, ◌++◌, map,
  append_assoc, append-nil, Bool-cases, arith,
}

module _ {W : Type 0} where
  pub add_cookies_lem :
      (cs : List SetCookie) (s : State W)
      → ((add_cookies cs s).1.world ≡ s.world)
        × ((add_cookies cs s).1.response.set_cookies ≡ s.response.set_cookies ++ cs)
        × ((add_cookies cs s).1.response.answers ≡ s.response.answers)
  unfolding add_cookies add_cookie
  add_cookies_lem [] s = (refl, sym (append-nil s.response.set_cookies), refl)
  add_cookies_lem (c ∷ cs) s =
      let (world, cookies, answers) = add_cookies_lem cs (add_cookie c s).1 in
      (world, cookies ∙ append_assoc s.response.set_cookies (c ∷ []) cs, answers)

module _ {W : Type 0} (deps : Deps W) (cfg : Config) where
  -- `Gone w id` says that no session has the id; a deletion that succeeds brings this about, and neither
  -- another deletion nor a logout at n8n ends it.
  pub record IsDeleting (Gone : W → Text → Type 0) : Type 0 where
    pub deletes :
        (id : Text) (w : W)
        → (deps.sessions.delete_session id w).0 ≡ ok tt
        → Gone (deps.sessions.delete_session id w).1 id
    pub keeps : (id at : Text) (w : W) → Gone w at → Gone (deps.sessions.delete_session id w).1 at
    pub logs_out : (cookie at : Text) (w : W) → Gone w at → Gone (deps.n8n.logout cookie w).1 at

  -- The deletions, one after another, succeed.
  abbrev pub AllDeleted : List Text → W → Type 0
  AllDeleted [] w = Unit {0}
  AllDeleted (id ∷ ids) w =
      ((deps.sessions.delete_session id w).0 ≡ ok tt)
      × AllDeleted ids (deps.sessions.delete_session id w).1

  delete_sessions-response :
      (ids : List Text) (s : State W) → (delete_sessions deps cfg ids s).1.response ≡ s.response
  unfolding delete_sessions
  delete_sessions-response [] s = refl
  delete_sessions-response (id ∷ ids) s =
      delete_sessions-response ids
        (record s { world = (deps.sessions.delete_session id s.world).1 })

  module _ (Gone : W → Text → Type 0) (store : IsDeleting Gone) where
    delete_sessions-keeps :
        (ids : List Text) (at : Text) (s : State W)
        → Gone s.world at
        → Gone (delete_sessions deps cfg ids s).1.world at
    unfolding delete_sessions
    delete_sessions-keeps [] at s h = h
    delete_sessions-keeps (id ∷ ids) at s h =
        delete_sessions-keeps ids at
          (record s { world = (deps.sessions.delete_session id s.world).1 })
          (store.keeps id at s.world h)

    delete_sessions-deletes :
        (ids : List Text) (at : Text) (s : State W)
        → is_in at ids ≡ true
        → AllDeleted ids s.world
        → Gone (delete_sessions deps cfg ids s).1.world at
    unfolding delete_sessions is_in
    delete_sessions-deletes [] at s h all = absurd (ground arith)
    delete_sessions-deletes (id ∷ ids) at s h (first, rest) =
        let s' : State W = record s { world = (deps.sessions.delete_session id s.world).1 } in
        elim (Bool-cases (id == at)) [
          | inl same ↦
              delete_sessions-keeps ids at s'
                (rw (← (eq_iff id at).0 same) (store.deletes id s.world first))
          | inr other ↦ delete_sessions-deletes ids at s' (ground arith) rest
        ]

    -- A logout whose deletions succeed ends every session whose id stands in one of the request's session
    -- cookies, whatever n8n answers to its logout. Whether they succeed or not, there is one answer, the
    -- redirect to "/", and the browser is told last to drop the cookies of the session and of the bridge.
    pub handle_proxy_logout_lem :
        (r : Request) (s : State W)
        → let t = (handle_proxy_logout deps cfg r s).1 in
          (AllDeleted (session_cookie_ids cfg r) s.world
            → (id : Text) → is_in id (session_cookie_ids cfg r) ≡ true
            → Gone t.world id)
          × (t.response.answers ≡ s.response.answers ++ redirect (codes "/") ∷ [])
          × (t.response.status ≡ 302)
          × ((n8n : List SetCookie) × (t.response.set_cookies
                ≡ n8n
                  ++ map own (clear_proxy_session_cookies cfg.cookie_secure)
                  ++ own (clear_n8n_bridge_cookie cfg.cookie_secure) ∷ []))
    unfolding handle_proxy_logout write_n8n_cookies clear_session_cookies clear_bridge_cookie
        add_cookie answer answer_status
    handle_proxy_logout_lem r s =
        let cookie = value_of (codes "Cookie") r.headers in
        let s1 = (delete_sessions deps cfg (session_cookie_ids cfg r) s).1 in
        let logged = deps.n8n.logout cookie s1.world in
        let s2 : State W = record s1 { world = logged.1 } in
        let from_n8n =
          map (λ c. upstream (rewrite_set_cookie c cfg.cookie_secure)) logged.0.0.cookies in
        let s3 = (add_cookies from_n8n s2).1 in
        let (world3, cookies3, answers3) = add_cookies_lem from_n8n s2 in
        let clearing = map own (clear_proxy_session_cookies cfg.cookie_secure) in
        let (world4, cookies4, answers4) = add_cookies_lem clearing s3 in
        (
          (λ all id h.
              subst (λ w. Gone w id) (sym (world4 ∙ world3))
                (store.logs_out cookie id s1.world
                  (delete_sessions-deletes (session_cookie_ids cfg r) id s h all))),
          ap (λ written. written ++ redirect (codes "/") ∷ [])
              (answers4
                ∙ (answers3
                    ∙ ap (λ (p : Response). p.answers)
                        (delete_sessions-response (session_cookie_ids cfg r) s))),
          refl,
          (
            s2.response.set_cookies ++ from_n8n,
            ap (λ cs. cs ++ own (clear_n8n_bridge_cookie cfg.cookie_secure) ∷ [])
                (cookies4 ∙ ap (λ cs. cs ++ clearing) cookies3),
          ),
        )
