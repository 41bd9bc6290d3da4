-- ===== src/Session/Redis.antt =====
-- internal/session/store.go: RedisStore, over the commands of the Redis client and encoding/json.
pub mod Laws
pub mod Keys
pub mod Refines
pub mod Tests
use n8n_gw.Base.{
  ℕ, ◌+◌, Text, codes, ltb, if◌then◌else◌, Bool, true, false, Option, none, some, List, [], ◌∷◌,
  ◌++◌,
}
use n8n_gw.Session.{Session, OidcState, Failure, not_found, broken, Result, ok, err, SessionStore}

-- A reply of the server: a value, redis.Nil, or another error.
pub data Reply : Type 0 where
  value : Text → Reply
  nil : Reply
  failed : Text → Reply

-- The commands that the store sends; `true` is success.
pub record RedisClient (W : Type 0) : Type 0 where
  pub set : Text → Text → ℕ → W → Bool × W
  pub get : Text → W → Reply × W
  pub get_del : Text → W → Reply × W
  pub del : List Text → W → Bool × W
  pub ping : W → Bool × W
  pub random : W → Option Text × W
  pub now : W → ℕ

-- json.Marshal and json.Unmarshal at the two types; marshalling them does not fail.
pub record Codec : Type 0 where
  pub marshal_session : Session → Text
  pub unmarshal_session : Text → Option Session
  pub marshal_state : OidcState → Text
  pub unmarshal_state : Text → Option OidcState

-- redis.Options, from redis.ParseURL or with the text as the address.
pub data RedisOptions : Type 0 where
  from_url : Text → RedisOptions
  from_addr : Text → RedisOptions

pub record RedisStore : Type 0 where
  pub options : RedisOptions
  pub session_ttl : ℕ
  pub oidc_ttl : ℕ
  pub csrf_token_ttl : ℕ

abbrev pub redis_session_prefix : Text
redis_session_prefix = codes "n8n_gw:session:"

abbrev pub redis_oidc_state_prefix : Text
redis_oidc_state_prefix = codes "n8n_gw:oidc_state:"

abbrev pub redis_csrf_prefix : Text
redis_csrf_prefix = codes "n8n_gw:csrf:"

-- `reads_url` says whether redis.ParseURL reads the text; one that it does not read is an address.
abbrev pub new_redis_store : (Text → Bool) → Text → ℕ → ℕ → RedisStore
new_redis_store reads_url redis_url session_ttl oidc_ttl = record {
  options = if reads_url redis_url then from_url redis_url else from_addr redis_url;
  session_ttl = session_ttl;
  oidc_ttl = oidc_ttl;
  csrf_token_ttl = session_ttl;
}

abbrev pub done : Bool × Text → Result (Unit {0})
done (true, what) = ok tt
done (false, what) = err (broken what)

module _ {W : Type 0} (client : RedisClient W) (json : Codec) (s : RedisStore) where
  unfoldable pub save_session : Text → Session → W → Result (Unit {0}) × W
  save_session id sess w =
      let (sent, w') =
        client.set (redis_session_prefix ++ id) (json.marshal_session sess) s.session_ttl w in
      (done (sent, codes "save session"), w')

  unfoldable pub create_session : Session → W → Result Text × W
  unfolding save_session
  create_session sess w =
      let (random, w') = client.random w in
      elim random [
        | none ↦ (err (broken (codes "read random bytes")), w')
        | some id ↦
            let now = client.now w' in
            let (saved, w'') =
              save_session id (record sess { created_at = now; expires_at = now + s.session_ttl })
                w' in
            elim saved [ ok _ ↦ (ok id, w'') | err e ↦ (err e, w'') ]
      ]

  unfoldable pub delete_session : Text → W → Result (Unit {0}) × W
  delete_session id w =
      let (sent, w') =
        client.del ((redis_session_prefix ++ id) ∷ (redis_csrf_prefix ++ id) ∷ []) w in
      (done (sent, codes "delete session"), w')

  -- The decoded session, if it has not expired.
  unfoldable pub check_session : Text → Option Session → W → Result Session × W
  unfolding delete_session
  check_session id none w = (err (broken (codes "unmarshal session")), w)
  check_session id (some sess) w =
      if ltb sess.expires_at (client.now w)
      then (err not_found, (delete_session id w).1)
      else (ok sess, w)

  unfoldable pub get_session : Text → W → Result Session × W
  unfolding check_session
  get_session id w =
      let (raw, w') = client.get (redis_session_prefix ++ id) w in
      elim raw [
        | nil ↦ (err not_found, w')
        | failed e ↦ (err (broken e), w')
        | value text ↦ check_session id (json.unmarshal_session text) w'
      ]

  unfoldable pub store_oidc_state : Text → OidcState → W → Result (Unit {0}) × W
  store_oidc_state state v w =
      let (sent, w') =
        client.set (redis_oidc_state_prefix ++ state) (json.marshal_state v) s.oidc_ttl w in
      (done (sent, codes "store oidc state"), w')

  unfoldable pub take_oidc_state : Text → W → Result OidcState × W
  take_oidc_state state w =
      let (raw, w') = client.get_del (redis_oidc_state_prefix ++ state) w in
      elim raw [
        | nil ↦ (err not_found, w')
        | failed e ↦ (err (broken e), w')
        | value text ↦ elim (json.unmarshal_state text) [
          | none ↦ (err (broken (codes "unmarshal oidc state")), w')
          | some v ↦ (ok v, w')
        ]
      ]

  unfoldable pub get_csrf : Text → W → Result Text × W
  get_csrf id w =
      let (raw, w') = client.get (redis_csrf_prefix ++ id) w in
      elim raw [
        | nil ↦ (err not_found, w')
        | failed e ↦ (err (broken e), w')
        | value token ↦ (ok token, w')
      ]

  unfoldable pub set_csrf : Text → Text → W → Result (Unit {0}) × W
  set_csrf id token w =
      let (sent, w') = client.set (redis_csrf_prefix ++ id) token s.csrf_token_ttl w in
      (done (sent, codes "set csrf"), w')

  unfoldable pub ping : W → Result (Unit {0}) × W
  ping w = let (sent, w') = client.ping w in (done (sent, codes "redis ping"), w')

  -- RedisStore as a value of the interface.
  abbrev pub redis_sessions : SessionStore W
  redis_sessions = record {
    create_session = create_session;
    save_session = save_session;
    get_session = get_session;
    delete_session = delete_session;
    store_oidc_state = store_oidc_state;
    take_oidc_state = take_oidc_state;
    get_csrf = get_csrf;
    set_csrf = set_csrf;
    ping = ping;
  }
