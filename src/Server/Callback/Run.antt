-- ===== src/Server/Callback/Run.antt =====
-- server.go: the run of handleAuthCallback in which every step succeeds.
use n8n_gw.Session
use n8n_gw.Session.{Session, OidcState}
use n8n_gw.Vault
use n8n_gw.Vault.{Credential}
use n8n_gw.N8n.{LoginResult, logged_in}
use n8n_gw.Oidc.{Identity}
use n8n_gw.Security.Cookie.{proxy_session_cookies, n8n_bridge_cookie}
use n8n_gw.Security.Rewrite.{rewrite_set_cookie}
use n8n_gw.Server.State.{
  Request, value_of, State, own, upstream, add_cookie, add_cookies, answer, redirect, vault_ops,
}
use n8n_gw.Server.Deps.{Deps, Config}
use n8n_gw.Server.Targets.{safe_return_to}
use n8n_gw.Server.Forwarding.{n8n_login_headers}
use n8n_gw.Server.Reply.{
  write_n8n_cookies, write_proxy_session_cookies, set_bridge_cookie, get_credential,
}
use n8n_gw.Server.Auth.{
  handle_auth_callback, callback_state, callback_identity, callback_session, callback_credential,
  callback_login, mark_linked, finish_callback,
}
use n8n_gw.Server.Logout.{add_cookies_lem}
use n8n_gw.Base.{
  ◌≡◌, ◌∙◌, ap, refl, Text, codes, ◌==◌, true, false, ◌||◌, some, List, [], ◌∷◌, ◌++◌, map, arith,
}

module _ {W : Type 0} (deps : Deps W) (cfg : Config) where
  -- A run of a callback in which every step succeeds, with the worlds between the steps.
  pub record Succeeds (r : Request) (w : W) : Type 0 where
    pub stored : OidcState
    pub identity : Identity
    pub id : Text
    pub cred : Credential
    pub result : LoginResult
    pub sess : Session
    pub w1 : W
    pub w2 : W
    pub w3 : W
    pub w4 : W
    pub w5 : W
    pub w6 : W
    pub w7 : W
    pub given :
        value_of (codes "state") r.query == [] || value_of (codes "code") r.query == [] ≡ false
    pub taken :
        deps.sessions.take_oidc_state (value_of (codes "state") r.query) w ≡ (Session.ok stored, w1)
    pub exchanged :
        deps.oidc.exchange (value_of (codes "code") r.query) stored.nonce stored.code_verifier w1
        ≡ (some identity, w2)
    pub created :
        deps.sessions.create_session
          (record {
            issuer = identity.issuer;
            subject = identity.subject;
            email = identity.email;
            name = identity.name;
            linked = false;
            created_at = 0;
            expires_at = 0;
          })
          w2
        ≡ (Session.ok id, w3)
    pub credential : deps.credentials.get identity.issuer identity.subject w3 ≡ (Vault.ok cred, w4)
    pub logged :
        deps.n8n.login cred.n8n_email_or_login_id cred.n8n_password
          (n8n_login_headers deps.net cfg r)
          w4
        ≡ (logged_in result, w5)
    pub found : deps.sessions.get_session id w5 ≡ (Session.ok sess, w6)
    pub saved :
        deps.sessions.save_session id (record sess { linked = true }) w6 ≡ (Session.ok tt, w7)

  -- What the last step writes: n8n's cookies, the bridge cookie and the redirect.
  Finishes : State W → State W → W → Text → List Text → Type 0
  Finishes s t w target cookies =
      (t.world ≡ w)
      × (t.response.answers ≡ s.response.answers ++ redirect target ∷ [])
      × (t.response.set_cookies
          ≡ (s.response.set_cookies
              ++ map (λ c. upstream (rewrite_set_cookie c cfg.cookie_secure)) cookies)
            ++ own (n8n_bridge_cookie cfg.cookie_secure cfg.session_ttl_seconds) ∷ [])

  finish_callback-Finishes :
      (r : Request) (stored : OidcState) (result : LoginResult) (s : State W)
      → Finishes s
          (finish_callback deps cfg r stored result (Session.ok tt) s).1
          s.world
          (safe_return_to deps.net stored.return_to)
          result.cookies
  unfolding Finishes finish_callback write_n8n_cookies set_bridge_cookie add_cookie answer
  finish_callback-Finishes r stored result s =
      let (world, cookies, answers) =
        add_cookies_lem
          (map (λ c. upstream (rewrite_set_cookie c cfg.cookie_secure)) result.cookies) s in
      (
        world,
        ap (λ xs. xs ++ redirect (safe_return_to deps.net stored.return_to) ∷ []) answers,
        ap (λ cs. cs ++ own (n8n_bridge_cookie cfg.cookie_secure cfg.session_ttl_seconds) ∷ [])
            cookies,
      )

  callback_credential-Finishes :
      (r : Request) (s : State W) (run : Succeeds r s.world) (t : State W)
      → t.world ≡ run.w4
      → Finishes t
          (callback_credential deps cfg r run.stored run.id (Vault.ok run.cred) t).1
          run.w7
          (safe_return_to deps.net run.stored.return_to)
          run.result.cookies
  unfolding Finishes callback_credential callback_login mark_linked
  callback_credential-Finishes r s run t at =
      rw (at, run.logged, run.found, run.saved) (finish_callback-Finishes r run.stored run.result _)

  get_credential-reads :
      (issuer subject : Text) (cred : Credential) (w : W) (t : State W)
      → deps.credentials.get issuer subject t.world ≡ (Vault.ok cred, w)
      → get_credential deps cfg issuer subject t ≡ (
        Vault.ok cred,
        record t {
          world = w;
          metrics = t.metrics ++ vault_ops (codes "read") (codes "success") ∷ [];
        },
      )
  unfolding get_credential
  get_credential-reads issuer subject cred w t e = ground arith

  -- If every step of a callback succeeds, the answer is one redirect, to the safe form of the target that
  -- was stored with the state, and the cookies are those of the new session, n8n's own, rewritten, and the
  -- bridge cookie.
  pub handle_auth_callback_lem :
      (r : Request) (s : State W) (run : Succeeds r s.world)
      → let t = (handle_auth_callback deps cfg r s).1 in
        (t.world ≡ run.w7)
        × (t.response.answers
            ≡ s.response.answers ++ redirect (safe_return_to deps.net run.stored.return_to) ∷ [])
        × (t.response.set_cookies
            ≡ ((s.response.set_cookies
                  ++ map own
                      (proxy_session_cookies run.id cfg.cookie_secure cfg.session_ttl_seconds))
                ++ map (λ c. upstream (rewrite_set_cookie c cfg.cookie_secure)) run.result.cookies)
              ++ own (n8n_bridge_cookie cfg.cookie_secure cfg.session_ttl_seconds) ∷ [])
  unfolding Finishes handle_auth_callback callback_state callback_identity callback_session
      write_proxy_session_cookies
  handle_auth_callback_lem r s run =
      let session =
        map own (proxy_session_cookies run.id cfg.cookie_secure cfg.session_ttl_seconds) in
      let s4 = (add_cookies session (record s { world = run.w3 })).1 in
      let (world, cookies, answers) = add_cookies_lem session (record s { world = run.w3 }) in
      let reads =
        get_credential-reads run.identity.issuer run.identity.subject run.cred run.w4 s4
          (rw world run.credential) in
      let (at_end, answered, set) =
        callback_credential-Finishes r s run
          (record s4 {
            world = run.w4;
            metrics = s4.metrics ++ vault_ops (codes "read") (codes "success") ∷ [];
          })
          refl in
      rw (run.given, run.taken, run.exchanged, run.created)
        (rw reads (
          at_end,
          answered
              ∙ ap (λ xs. xs ++ redirect (safe_return_to deps.net run.stored.return_to) ∷ [])
                  answers,
          set
              ∙ ap
                  (λ cs.
                    (cs
                      ++ map (λ c. upstream (rewrite_set_cookie c cfg.cookie_secure))
                          run.result.cookies)
                    ++ own (n8n_bridge_cookie cfg.cookie_secure cfg.session_ttl_seconds) ∷ [])
                  cookies,
        ))
