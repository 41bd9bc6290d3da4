-- ===== src/Server/Answers/Parts.antt =====
-- The weight of the answers that each part of a handler adds.
use n8n_gw.Server.State.{
  Request, State, Handler, answer, set_header, add_cookie, add_cookies, SetCookie, Answer, proxied,
  console_proxy,
}
use n8n_gw.N8n.{LoginError, rate_limited}
use n8n_gw.Vault.{Credential}
use n8n_gw.Session
use n8n_gw.Session.{Session}
use n8n_gw.Server.Deps.{Deps, Config}
use n8n_gw.Server.Reply.{
  write_error, redirect_to_login, write_n8n_cookies, write_proxy_session_cookies,
  clear_session_cookies, set_bridge_cookie, clear_bridge_cookie, handle_n8n_login_error,
  get_credential, put_credential, delete_credential,
}
use n8n_gw.Server.Sessions.{
  Found, no_cookie, live, no_session, store_error, lookup_ids, lookup_all, refuse,
  lookup_session_from_cookies, session_cookie_ids, on_found, require_session, validate_csrf,
  compare_token,
}
use n8n_gw.Base.{
  ℕ, ◌≡◌, refl, ◌∙◌, ◌+◌, Text, Bool, true, false, Option, none, some, List, [], ◌∷◌, ◌++◌, arith,
}

-- A guard owes an answer exactly when it does not let the request through.
abbrev pub owed : {A : Type 0} → Option A → ℕ
owed none = 1
owed (some _) = 0

abbrev pub unless : Bool → ℕ
unless true = 0
unless false = 1

-- The weight of answers: k for a request that goes to the console's upstream, 1 for all else.
abbrev pub weigh : ℕ → Answer → ℕ
weigh k (proxied console_proxy status) = k
weigh k _ = 1

abbrev pub weight : ℕ → List Answer → ℕ
weight k [] = 0
weight k (a ∷ more) = weigh k a + weight k more

weight-append :
    (k : ℕ) (more : List Answer) (a : Answer)
    → weight k (more ++ a ∷ []) ≡ weight k more + weigh k a
weight-append k [] a = omega arith
weight-append k (b ∷ more) a = omega (arith, weight-append k more a)

module _ {W : Type 0} where
  abbrev pub answers : ℕ → State W → ℕ
  answers k s = weight k s.response.answers

  -- The action writes one answer, or none.
  abbrev pub AnswersOnce : ℕ → Handler W → Type 0
  AnswersOnce k m = (s : State W) → answers k (m s).1 ≡ answers k s + 1

module _ {W : Type 0} (k : ℕ) where
  pub answer-AnswersOnce :
      (a : Answer) (s : State W) → answers k (answer a s).1 ≡ answers k s + weigh k a
  unfolding answer
  answer-AnswersOnce a s = omega (arith, weight-append k s.response.answers a)

  pub set_header-IsSilent :
      (name value : Text) (s : State W) → answers k (set_header name value s).1 ≡ answers k s
  unfolding set_header
  set_header-IsSilent name value s = refl

  pub add_cookie-IsSilent :
      (c : SetCookie) (s : State W) → answers k (add_cookie c s).1 ≡ answers k s
  unfolding add_cookie
  add_cookie-IsSilent c s = refl

  pub add_cookies-IsSilent :
      (cs : List SetCookie) (s : State W) → answers k (add_cookies cs s).1 ≡ answers k s
  unfolding add_cookies
  add_cookies-IsSilent [] s = refl
  add_cookies-IsSilent (c ∷ cs) s = add_cookies-IsSilent cs (add_cookie c s).1

module _ {W : Type 0} (deps : Deps W) (cfg : Config) (k : ℕ) where
  pub write_error-AnswersOnce :
      (r : Request) (status : ℕ) (code : Text) (s : State W)
      → answers k (write_error deps cfg r status code s).1 ≡ answers k s + 1
  unfolding write_error set_header
  write_error-AnswersOnce r status code s = grind (arith, answer-AnswersOnce)

  pub redirect_to_login-AnswersOnce :
      (r : Request) (s : State W) → answers k (redirect_to_login deps cfg r s).1 ≡ answers k s + 1
  unfolding redirect_to_login
  redirect_to_login-AnswersOnce r s = answer-AnswersOnce k _ s

  pub write_n8n_cookies-IsSilent :
      (cs : List Text) (s : State W) → answers k (write_n8n_cookies deps cfg cs s).1 ≡ answers k s
  unfolding write_n8n_cookies
  write_n8n_cookies-IsSilent cs s = add_cookies-IsSilent k _ s

  pub write_proxy_session_cookies-IsSilent :
      (id : Text) (s : State W)
      → answers k (write_proxy_session_cookies deps cfg id s).1 ≡ answers k s
  unfolding write_proxy_session_cookies
  write_proxy_session_cookies-IsSilent id s = add_cookies-IsSilent k _ s

  pub clear_session_cookies-IsSilent :
      (s : State W) → answers k (clear_session_cookies deps cfg s).1 ≡ answers k s
  unfolding clear_session_cookies
  clear_session_cookies-IsSilent s = add_cookies-IsSilent k _ s

  pub set_bridge_cookie-IsSilent :
      (s : State W) → answers k (set_bridge_cookie deps cfg s).1 ≡ answers k s
  unfolding set_bridge_cookie
  set_bridge_cookie-IsSilent s = add_cookie-IsSilent k _ s

  pub clear_bridge_cookie-IsSilent :
      (s : State W) → answers k (clear_bridge_cookie deps cfg s).1 ≡ answers k s
  unfolding clear_bridge_cookie
  clear_bridge_cookie-IsSilent s = add_cookie-IsSilent k _ s

  pub handle_n8n_login_error-AnswersOnce :
      (r : Request) (e : LoginError) (relink : Bool) (s : State W)
      → answers k (handle_n8n_login_error deps cfg r e relink s).1 ≡ answers k s + 1
  unfolding handle_n8n_login_error set_header
  handle_n8n_login_error-AnswersOnce r rate_limited relink s = write_error-AnswersOnce r _ _ _
  handle_n8n_login_error-AnswersOnce r e true s = answer-AnswersOnce k _ s
  handle_n8n_login_error-AnswersOnce r e false s = write_error-AnswersOnce r _ _ s

  pub get_credential-IsSilent :
      (issuer subject : Text) (s : State W)
      → answers k (get_credential deps cfg issuer subject s).1 ≡ answers k s
  unfolding get_credential
  get_credential-IsSilent issuer subject s = ground arith

  pub put_credential-IsSilent :
      (cred : Credential) (s : State W) → answers k (put_credential deps cfg cred s).1 ≡ answers k s
  unfolding put_credential
  put_credential-IsSilent cred s = refl

  pub delete_credential-IsSilent :
      (issuer subject : Text) (s : State W)
      → answers k (delete_credential deps cfg issuer subject s).1 ≡ answers k s
  unfolding delete_credential
  delete_credential-IsSilent issuer subject s = refl

  pub lookup_ids-IsSilent :
      (ids : List Text) (s : State W) → answers k (lookup_ids deps ids s).1 ≡ answers k s
  unfolding lookup_ids
  lookup_ids-IsSilent [] s = refl
  lookup_ids-IsSilent (id ∷ ids) s =
      let s' : State W = record s { world = (deps.sessions.get_session id s.world).1 } in
      ground (arith, lookup_ids-IsSilent ids s')

  ids_silent : (ids : List Text) (s : State W) → answers k (lookup_all deps ids s).1 ≡ answers k s
  ids_silent [] s = refl
  ids_silent (id ∷ ids) s = lookup_ids-IsSilent (id ∷ ids) s

  pub lookup_session_from_cookies-IsSilent :
      (r : Request) (s : State W)
      → answers k (lookup_session_from_cookies deps cfg r s).1 ≡ answers k s
  unfolding lookup_session_from_cookies
  lookup_session_from_cookies-IsSilent r s = ids_silent (session_cookie_ids cfg r) s

  on_found-owed :
      (r : Request) (f : Found) (s : State W)
      → answers k (on_found deps cfg r f s).1 ≡ answers k s + owed (on_found deps cfg r f s).0
  unfolding on_found
  on_found-owed r no_cookie s = redirect_to_login-AnswersOnce r s
  on_found-owed r (live id sess) s = omega arith
  on_found-owed r no_session s =
      grind (arith, redirect_to_login-AnswersOnce, clear_session_cookies-IsSilent)
  on_found-owed r store_error s = write_error-AnswersOnce r _ _ s

  pub require_session-owed :
      (r : Request) (s : State W)
      → answers k (require_session deps cfg r s).1
        ≡ answers k s + owed (require_session deps cfg r s).0
  unfolding require_session
  require_session-owed r s = ground (
    arith,
    lookup_session_from_cookies-IsSilent r s,
    on_found-owed r (lookup_session_from_cookies deps cfg r s).0
        (lookup_session_from_cookies deps cfg r s).1,
  )

  compare_token_owed :
      (r : Request) (expected : Session.Result Text) (s : State W)
      → answers k (compare_token deps cfg r expected s).1
        ≡ answers k s + unless (compare_token deps cfg r expected s).0
  unfolding compare_token refuse
  compare_token_owed r (Session.err _) s = grind (arith, write_error-AnswersOnce)
  compare_token_owed r (Session.ok token) s = grind (arith, write_error-AnswersOnce)

  pub validate_csrf_owed :
      (r : Request) (id : Text) (s : State W)
      → answers k (validate_csrf deps cfg r id s).1
        ≡ answers k s + unless (validate_csrf deps cfg r id s).0
  unfolding validate_csrf
  validate_csrf_owed r id s = grind (arith, write_error-AnswersOnce, compare_token_owed)

pub ruleset silent = (
  arith, answer-AnswersOnce, set_header-IsSilent, add_cookie-IsSilent, write_error-AnswersOnce,
  redirect_to_login-AnswersOnce, write_n8n_cookies-IsSilent, write_proxy_session_cookies-IsSilent,
  clear_session_cookies-IsSilent, set_bridge_cookie-IsSilent, clear_bridge_cookie-IsSilent,
  handle_n8n_login_error-AnswersOnce, get_credential-IsSilent, put_credential-IsSilent,
  delete_credential-IsSilent, lookup_session_from_cookies-IsSilent,
)
