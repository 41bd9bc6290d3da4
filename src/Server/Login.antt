-- ===== src/Server/Login.antt =====
-- server.go: a login from handleAuthLogin to the end of handleAuthCallback.
use mathlib.Core.Path.{subst}
use n8n_gw.Session
use n8n_gw.Session.{Session, OidcState}
use n8n_gw.Server.State.{Request, value_of, State, answer, redirect}
use n8n_gw.Server.Deps.{Deps, Config}
use n8n_gw.Server.Targets.{safe_return_to, is_allowed}
use n8n_gw.Server.Sessions.{session_cookie_ids, lookup_session_from_cookies}
use n8n_gw.Server.Auth.{
  handle_auth_login, auth_login_with, start_login, three_randoms, store_state, after_store,
  handle_auth_callback,
}
use n8n_gw.Server.Callback.Run.{Succeeds, handle_auth_callback_lem}
use n8n_gw.Base.{
  ℕ, ◌≡◌, ◌∙◌, ap, sym, refl, inl, inr, Text, codes, some, [], ◌∷◌, ◌++◌, Bool-cases, arith,
}

module _ {W : Type 0} (deps : Deps W) (cfg : Config) where
  -- What a login keeps for its callback.
  abbrev pub kept : Request → Text → Text → ℕ → OidcState
  kept r nonce verifier now = record {
    nonce = nonce;
    code_verifier = verifier;
    return_to = safe_return_to deps.net (value_of (codes "return_to") r.query);
    created_at = now;
  }

  -- A login without a session cookie whose random values and store work, with the worlds between.
  pub record Begins (r : Request) (w : W) : Type 0 where
    pub state : Text
    pub nonce : Text
    pub verifier : Text
    pub w1 : W
    pub w2 : W
    pub w3 : W
    pub w4 : W
    pub no_cookie : session_cookie_ids cfg r ≡ []
    pub state_drawn : deps.random_base64_url 32 w ≡ (some state, w1)
    pub nonce_drawn : deps.random_base64_url 32 w1 ≡ (some nonce, w2)
    pub verifier_drawn : deps.random_base64_url 32 w2 ≡ (some verifier, w3)
    pub stored :
        deps.sessions.store_oidc_state state (kept r nonce verifier (deps.now w3)) w3
        ≡ (Session.ok tt, w4)

  three_randoms-draws :
      (r : Request) (s : State W) (b : Begins r s.world)
      → three_randoms deps cfg s ≡ (some (b.state, b.nonce, b.verifier), record s { world = b.w3 })
  unfolding three_randoms
  three_randoms-draws r s b = ground arith

  store_state-stores :
      (r : Request) (s : State W) (b : Begins r s.world) (t : State W)
      → t.world ≡ b.w3
      → let u = (store_state deps cfg r (some (b.state, b.nonce, b.verifier)) t).1 in
        (u.world ≡ b.w4)
        × (u.response.set_cookies ≡ t.response.set_cookies)
        × (u.response.answers
            ≡ t.response.answers
              ++ redirect (deps.oidc.auth_code_url b.state b.nonce b.verifier) ∷ [])
  unfolding store_state after_store answer
  store_state-stores r s b t at = rw (at, b.stored) (refl, refl, refl)

  pub handle_auth_login_lem :
      (r : Request) (s : State W) (b : Begins r s.world)
      → let t = (handle_auth_login deps cfg r s).1 in
        (t.world ≡ b.w4)
        × (t.response.set_cookies ≡ s.response.set_cookies)
        × (t.response.answers
            ≡ s.response.answers
              ++ redirect (deps.oidc.auth_code_url b.state b.nonce b.verifier) ∷ [])
  unfolding handle_auth_login lookup_session_from_cookies auth_login_with start_login
  handle_auth_login_lem r s b =
      rw (b.no_cookie, three_randoms-draws r s b)
        (store_state-stores r s b (record s { world = b.w3 }) refl)

  safe_twice :
      (value : Text)
      → safe_return_to deps.net (safe_return_to deps.net value) ≡ safe_return_to deps.net value
  unfolding safe_return_to
  safe_twice value = elim (Bool-cases (is_allowed deps.net value)) [
    | inl allowed ↦ rw (allowed, allowed) refl
    | inr other ↦ rw other (ground arith)
  ]

  ok_same :
      (a b : OidcState) → ◌≡◌ {A = Session.Result OidcState} (Session.ok a) (Session.ok b) → a ≡ b
  ok_same a b e = cc

  -- A login without any session cookie, whose random values and whose write to the store succeed, and a
  -- callback that brings its state back, whose every step succeeds, and that starts in the very world that
  -- the login has left, over a store that gives back what it has stored: the login redirects to the
  -- provider with the state, the nonce and the challenge of the verifier and sets no cookie; the callback
  -- exchanges its code with the same nonce and verifier, and redirects to the safe form of the target that
  -- the login was asked for.
  pub handle_auth_login-handle_auth_callback :
      (r r' : Request) (s u : State W) (b : Begins r s.world) (run : Succeeds deps cfg r' u.world)
      → ((state : Text) (v : OidcState) (w w' : W)
          → deps.sessions.store_oidc_state state v w ≡ (Session.ok tt, w')
          → (deps.sessions.take_oidc_state state w').0 ≡ Session.ok v)
      → u.world ≡ (handle_auth_login deps cfg r s).1.world
      → value_of (codes "state") r'.query ≡ b.state
      → let t = (handle_auth_login deps cfg r s).1 in
        (t.response.answers
          ≡ s.response.answers
            ++ redirect (deps.oidc.auth_code_url b.state b.nonce b.verifier) ∷ [])
        × (t.response.set_cookies ≡ s.response.set_cookies)
        × (deps.oidc.exchange (value_of (codes "code") r'.query) b.nonce b.verifier run.w1
            ≡ (some run.identity, run.w2))
        × ((handle_auth_callback deps cfg r' u).1.response.answers
            ≡ u.response.answers
              ++ redirect (safe_return_to deps.net (value_of (codes "return_to") r.query)) ∷ [])
  handle_auth_login-handle_auth_callback r r' s u b run gives_back at same_state =
      let (world, cookies, answers) = handle_auth_login_lem r s b in
      let back =
        gives_back b.state (kept r b.nonce b.verifier (deps.now b.w3)) b.w3 b.w4 b.stored in
      let same : run.stored ≡ kept r b.nonce b.verifier (deps.now b.w3) =
        let key = value_of (codes "state") r'.query in
        sym (
          ok_same _ _ (
            sym back
            ∙ (ap (λ st. (deps.sessions.take_oidc_state st b.w4).0) (sym same_state)
                ∙ (ap (λ w. (deps.sessions.take_oidc_state key w).0) (sym (at ∙ world))
                    ∙ ap (λ p. p.0) run.taken)))) in
      let (_, redirected, _) = handle_auth_callback_lem deps cfg r' u run in
      (
        answers,
        cookies,
        subst
            (λ v.
              deps.oidc.exchange (value_of (codes "code") r'.query) v.nonce v.code_verifier run.w1
              ≡ (some run.identity, run.w2))
            same run.exchanged,
        redirected
            ∙ (ap (λ v. u.response.answers ++ redirect (safe_return_to deps.net v.return_to) ∷ [])
                  same
                ∙ ap (λ x. u.response.answers ++ redirect x ∷ [])
                    (safe_twice (value_of (codes "return_to") r.query))),
      )
