-- ===== src/Session/Memory/Laws.antt =====
-- internal/session/memory.go: what a session, its token and a login state go through.
use n8n_gw.Session.{Session, OidcState, not_found, ok, err}
use n8n_gw.Session.Memory.{
  MemoryStore, create_session, save_session, get_session, delete_session, take_oidc_state,
  store_oidc_state, get_csrf,
}
use n8n_gw.Base.{
  ℕ, ◌+◌, ◌≤◌, ◌<◌, ◌≡◌, ◌≢◌, refl, Text, none, some, lookup, insert, lookup_inserted,
  lookup_beside, lookup_removed, lookup_left, arith,
}

-- A stored login state is taken once, with its value: a second take of it finds nothing. A take
-- leaves every other state as it was.
pub take_oidc_state_once :
    (state : Text) (value : OidcState) (s : MemoryStore)
    → let stored = (store_oidc_state state value s).1 in
      let taken = take_oidc_state state stored in
      (taken.0 ≡ ok value)
      × ((take_oidc_state state taken.1).0 ≡ err not_found)
      × ((j : Text) → j ≢ state → (take_oidc_state j taken.1).0 ≡ (take_oidc_state j s).0)
unfolding take_oidc_state store_oidc_state
take_oidc_state_once state value s =
    let here = lookup_inserted state value s.states in
    let gone = lookup_removed state (insert state value s.states) in
    (
      ground (arith, here),
      ground (arith, here, gone),
      λ j other. ground (
        arith,
        here,
        lookup_left state j (insert state value s.states) other,
        lookup_beside state j value s.states other,
      ),
    )

-- A session that is created at `now` is found, with its two stamps, up to the end of its life, and
-- not after it; looking for it too late also removes it. No other session is changed.
pub create_session-get_session :
    (id : Text) (now later : ℕ) (sess : Session) (s : MemoryStore)
    → let created = create_session (some id) now sess s in
      let stamped = record sess { created_at = now; expires_at = now + s.ttl } in
      (created.0 ≡ ok id)
      × (later ≤ now + s.ttl → (get_session later id created.1).0 ≡ ok stamped)
      × (now + s.ttl < later → (get_session later id created.1).0 ≡ err not_found)
      × (now + s.ttl < later → lookup id (get_session later id created.1).1.sessions ≡ none)
      × ((j : Text) → j ≢ id → (get_session later j created.1).0 ≡ (get_session later j s).0)
unfolding create_session save_session get_session
create_session-get_session id now later sess s =
    let here =
      lookup_inserted id (record sess { created_at = now; expires_at = now + s.ttl }) s.sessions in
    (
      refl,
      λ early. ground (arith, here),
      λ late. ground (arith, here),
      λ late.
          ground (arith, here, lookup_removed id (create_session (some id) now sess s).1.sessions),
      λ j other. ground (
        arith,
        lookup_beside id j (record sess { created_at = now; expires_at = now + s.ttl }) s.sessions
            other,
      ),
    )

-- A deleted session is not found at any time, nor is its token; every other session and token is
-- found as before.
pub delete_session_forgets :
    (id : Text) (later : ℕ) (s : MemoryStore)
    → let deleted = (delete_session id s).1 in
      ((get_session later id deleted).0 ≡ err not_found)
      × ((get_csrf id deleted).0 ≡ err not_found)
      × ((j : Text)
          → j ≢ id
          → ((get_session later j deleted).0 ≡ (get_session later j s).0)
            × ((get_csrf j deleted).0 ≡ (get_csrf j s).0))
unfolding delete_session get_session get_csrf
delete_session_forgets id later s = (
  ground (arith, lookup_removed id s.sessions),
  ground (arith, lookup_removed id s.csrf),
  λ j other. (
    ground (arith, lookup_left id j s.sessions other),
    ground (arith, lookup_left id j s.csrf other),
  ),
)
