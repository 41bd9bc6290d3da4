-- ===== src/Session/Memory/Refines.antt =====
-- internal/session/memory.go: MemoryStore keeps what the interface promises.
use n8n_gw.Session.{Session}
use n8n_gw.Session.Memory
use n8n_gw.Session.Memory.{MemoryStore}
use n8n_gw.Session.Spec.{
  View, Op, save_session, delete_session, store_oidc_state, take_oidc_state, set_csrf,
}
use n8n_gw.Base.{ℕ, ltb, Bool, false, Option, none, some, lookup}

abbrev pub view : MemoryStore → View
view s = record {
  sessions = λ at. lookup at s.sessions;
  states = λ at. lookup at s.states;
  tokens = λ at. lookup at s.csrf;
}

-- The method behind a call.
unfoldable pub step : Op → MemoryStore → MemoryStore
step (save_session id sess) s = (Memory.save_session id sess s).1
step (delete_session id) s = (Memory.delete_session id s).1
step (store_oidc_state state value) s = (Memory.store_oidc_state state value s).1
step (take_oidc_state state) s = (Memory.take_oidc_state state s).1
step (set_csrf id token) s = (Memory.set_csrf id token s).1

abbrev pub has_ended : ℕ → Option Session → Bool
has_ended now none = false
has_ended now (some sess) = ltb sess.expires_at now
