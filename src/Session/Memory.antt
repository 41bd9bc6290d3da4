-- ===== src/Session/Memory.antt =====
-- internal/session/memory.go. The mutex makes each method one step.
pub mod Laws
pub mod Refines
pub mod Runs
use n8n_gw.Base.{
  ℕ, ◌+◌, Text, codes, ltb, if◌then◌else◌, Option, none, some, [], Dict, lookup, insert, remove,
}
use n8n_gw.Session.{Session, OidcState, Failure, not_found, broken, Result, ok, err, SessionStore}

pub record MemoryStore : Type 0 where
  pub sessions : Dict Session
  pub states : Dict OidcState
  pub csrf : Dict Text
  pub ttl : ℕ
  pub state_ttl : ℕ

abbrev pub new_memory_store : ℕ → ℕ → MemoryStore
new_memory_store ttl state_ttl = record {
  sessions = [];
  states = [];
  csrf = [];
  ttl = ttl;
  state_ttl = state_ttl;
}

-- The clock reads `now`; `random` is the result of security.RandomBase64URL(32).
unfoldable pub save_session : Text → Session → MemoryStore → Result (Unit {0}) × MemoryStore
save_session id sess s = (ok tt, record s { sessions = insert id sess s.sessions })

unfoldable pub create_session : Option Text → ℕ → Session → MemoryStore → Result Text × MemoryStore
unfolding save_session
create_session none now sess s = (err (broken (codes "read random bytes")), s)
create_session (some id) now sess s =
    let saved = save_session id (record sess { created_at = now; expires_at = now + s.ttl }) s in
    (ok id, saved.1)

abbrev forget : Text → MemoryStore → MemoryStore
forget id s = record s { sessions = remove id s.sessions }

unfoldable pub get_session : ℕ → Text → MemoryStore → Result Session × MemoryStore
get_session now id s = elim (lookup id s.sessions) [
  | none ↦ (err not_found, forget id s)
  | some sess ↦ if ltb sess.expires_at now then (err not_found, forget id s) else (ok sess, s)
]

unfoldable pub delete_session : Text → MemoryStore → Result (Unit {0}) × MemoryStore
delete_session id s = (ok tt, record s { sessions = remove id s.sessions; csrf = remove id s.csrf })

unfoldable pub store_oidc_state : Text → OidcState → MemoryStore → Result (Unit {0}) × MemoryStore
store_oidc_state state value s = (ok tt, record s { states = insert state value s.states })

unfoldable pub take_oidc_state : Text → MemoryStore → Result OidcState × MemoryStore
take_oidc_state state s = elim (lookup state s.states) [
  | none ↦ (err not_found, s)
  | some value ↦ (ok value, record s { states = remove state s.states })
]

unfoldable pub get_csrf : Text → MemoryStore → Result Text × MemoryStore
get_csrf id s = elim (lookup id s.csrf) [ none ↦ (err not_found, s) | some token ↦ (ok token, s) ]

unfoldable pub set_csrf : Text → Text → MemoryStore → Result (Unit {0}) × MemoryStore
set_csrf id token s = (ok tt, record s { csrf = insert id token s.csrf })

unfoldable pub ping : MemoryStore → Result (Unit {0}) × MemoryStore
ping s = (ok tt, s)
