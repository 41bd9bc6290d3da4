-- ===== src/Session/Memory/Runs.antt =====
-- internal/session/memory.go: any sequence of calls, as the mutex orders those of all requests.
use n8n_gw.Session.{Result, ok, err}
use n8n_gw.Session.Memory.{MemoryStore}
use n8n_gw.Session.Memory
use n8n_gw.Session.Spec.{
  Op, save_session, delete_session, store_oidc_state, take_oidc_state, set_csrf,
}
use n8n_gw.Session.Memory.Refines.{step}
use n8n_gw.Base.{
  ℕ, ◌+◌, ◌≤◌, inl, inr, Text, ◌==◌, eq_iff, if◌then◌else◌, Option, none, some, List, [], ◌∷◌,
  lookup, lookup-insert, lookup-remove, Option-cases, arith,
}

abbrev pub succeeds {ℓ} : {A : Type ℓ} → Result A → ℕ
succeeds (ok a) = 1
succeeds (err e) = 0

-- How often a call takes the login state `key` from the store.
unfoldable pub takes : Text → Op → MemoryStore → ℕ
takes key (take_oidc_state state) s =
    if state == key then succeeds (Memory.take_oidc_state state s).0 else 0
takes key _ s = 0

unfoldable pub stores : Text → Op → ℕ
stores key (store_oidc_state state value) = if state == key then 1 else 0
stores key _ = 0

unfoldable pub taken : Text → List Op → MemoryStore → ℕ
unfolding takes step
taken key [] s = 0
taken key (op ∷ ops) s = takes key op s + taken key ops (step op s)

unfoldable pub stored : Text → List Op → ℕ
unfolding stores
stored key [] = 0
stored key (op ∷ ops) = stores key op + stored key ops

abbrev pub is_there {ℓ} : {A : Type ℓ} → Option A → ℕ
is_there none = 0
is_there (some a) = 1

one_step :
    (key : Text) (op : Op) (s : MemoryStore)
    → takes key op s + is_there (lookup key (step op s).states)
      ≤ stores key op + is_there (lookup key s.states)
unfolding takes stores step Memory.save_session Memory.delete_session Memory.store_oidc_state
    Memory.set_csrf
one_step key (save_session id sess) s = omega arith
one_step key (delete_session id) s = omega arith
one_step key (store_oidc_state state value) s =
    ground (arith, lookup-insert state key value s.states)
one_step key (take_oidc_state state) s =
    unfold Memory.take_oidc_state in
    elim (Option-cases (lookup state s.states)) [
      | inl absent ↦ ground (arith, eq_iff state key)
      | inr (value, there) ↦ ground (arith, eq_iff state key, lookup-remove state key s.states)
    ]
one_step key (set_csrf id token) s = omega arith

-- In any sequence of calls a login state is taken at most as often as it was stored, counting the one
-- that was there at the start: a state that is played back a second time is refused.
pub taken-le-stored :
    (key : Text) (ops : List Op) (s : MemoryStore)
    → taken key ops s ≤ stored key ops + is_there (lookup key s.states)
unfolding taken stored
taken-le-stored key [] s = omega arith
taken-le-stored key (op ∷ ops) s =
    omega (arith, one_step key op s, taken-le-stored key ops (step op s))
