-- ===== src/Session/Tests.antt =====
-- The laws of the session stores at concrete sessions.
use n8n_gw.Session.{Session, OidcState, not_found, ok, err}
use n8n_gw.Session.Memory.{
  MemoryStore, new_memory_store, create_session, get_session, take_oidc_state,
}
use n8n_gw.Session.Memory.Laws.{create_session-get_session}
use n8n_gw.Session.Redis
use n8n_gw.Session.Redis.{
  RedisClient, Codec, RedisStore, Reply, value, new_redis_store, redis_session_prefix,
}
use n8n_gw.Session.Redis.Laws.{get_session_is_alive}
use n8n_gw.Session.Spec.{Op}
use n8n_gw.Session.Memory.Runs.{taken, stored, is_there, taken-le-stored}
use n8n_gw.Base.{
  false, ◌≡◌, ◌≢◌, ◌≤◌, ◌<◌, ◌+◌, refl, Text, codes, true, some, none, List, [], ◌∷◌, lookup, ◌++◌,
}

abbrev alice : Session
alice = record {
  issuer = codes "https://idp";
  subject = codes "alice";
  email = codes "alice@example.org";
  name = codes "Alice";
  linked = true;
  created_at = 0;
  expires_at = 0;
}

abbrev login : OidcState
login = record {
  nonce = codes "n";
  code_verifier = codes "v";
  return_to = codes "/";
  created_at = 5;
}

abbrev store : MemoryStore
store = new_memory_store 100 10

create_session-get_session_example :
    let created = create_session (some (codes "id")) 7 alice store in
    let stamped : Session = record alice { created_at = 7; expires_at = 7 + 100 } in
    (created.0 ≡ ok (codes "id"))
    × (50 ≤ 7 + 100 → (get_session 50 (codes "id") created.1).0 ≡ ok stamped)
    × (7 + 100 < 50 → (get_session 50 (codes "id") created.1).0 ≡ err not_found)
    × (7 + 100 < 50 → lookup (codes "id") (get_session 50 (codes "id") created.1).1.sessions ≡ none)
    × ((j : Text) → j ≢ codes "id" → (get_session 50 j created.1).0 ≡ (get_session 50 j store).0)
create_session-get_session_example = create_session-get_session (codes "id") 7 50 alice store

abbrev populated : MemoryStore
populated = (create_session (some (codes "id")) 7 alice store).1

-- A server with one value, and its codec.
abbrev one_value : RedisClient (Unit {0})
one_value = record {
  set = λ k v t w. (true, w);
  get = λ k w. (value (codes "alice"), w);
  get_del = λ k w. (value (codes "alice"), w);
  del = λ ks w. (true, w);
  ping = λ w. (true, w);
  random = λ w. (none, w);
  now = λ w. 0;
}

abbrev one_codec : Codec
one_codec = record {
  marshal_session = λ s. s.subject;
  unmarshal_session = λ t. some alice;
  marshal_state = λ s. s.nonce;
  unmarshal_state = λ t. some login;
}

get_session_is_alive_example :
    (text : Text) × ((one_value.get (redis_session_prefix ++ codes "id") tt).0 ≡ value text)
    × (one_codec.unmarshal_session text ≡ some alice)
    × (one_value.now (one_value.get (redis_session_prefix ++ codes "id") tt).1 ≤ alice.expires_at)
unfolding Redis.get_session Redis.check_session
get_session_is_alive_example =
    get_session_is_alive one_value one_codec
      (new_redis_store (λ url. false) (codes "redis:6379") 100 10) (codes "id") tt alice refl

-- A login state that two callbacks take.
abbrev played_back : List Op
played_back =
    Op.store_oidc_state (codes "s") login
    ∷ Op.take_oidc_state (codes "s")
    ∷ Op.take_oidc_state (codes "s")
    ∷ []

taken-le-stored_example :
    taken (codes "s") played_back store
    ≤ stored (codes "s") played_back + is_there (lookup (codes "s") store.states)
taken-le-stored_example = taken-le-stored (codes "s") played_back store
