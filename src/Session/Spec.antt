-- ===== src/Session/Spec.antt =====
-- What the interface `Store` of internal/session/store.go promises: sessions, login states and
-- tokens by their keys, and the operations that change them.
use n8n_gw.Session.{Session, OidcState, not_found, Result, ok, err}
use n8n_gw.Base.{◌≡◌, Text, ◌==◌, if◌then◌else◌, Option, none, some}

pub record View : Type 0 where
  pub sessions : Text → Option Session
  pub states : Text → Option OidcState
  pub tokens : Text → Option Text

-- The calls that change what is stored, with their arguments.
pub data Op : Type 0 where
  save_session : Text → Session → Op
  delete_session : Text → Op
  store_oidc_state : Text → OidcState → Op
  take_oidc_state : Text → Op
  set_csrf : Text → Text → Op

abbrev pub put {ℓ} : {A : Type ℓ} → Text → A → (Text → Option A) → Text → Option A
put key a m at = if key == at then some a else m at

abbrev pub drop {ℓ} : {A : Type ℓ} → Text → (Text → Option A) → Text → Option A
drop key m at = if key == at then none else m at

-- The store after a call that succeeds.
unfoldable pub after : Op → View → View
after (save_session id sess) v = record v { sessions = put id sess v.sessions }
after (delete_session id) v = record v { sessions = drop id v.sessions; tokens = drop id v.tokens }
after (store_oidc_state state value) v = record v { states = put state value v.states }
after (take_oidc_state state) v = record v { states = drop state v.states }
after (set_csrf id token) v = record v { tokens = put id token v.tokens }

-- Two views hold the same.
abbrev pub Same : View → View → Type 0
Same v u =
    ((at : Text) → v.sessions at ≡ u.sessions at)
    × ((at : Text) → v.states at ≡ u.states at)
    × ((at : Text) → v.tokens at ≡ u.tokens at)

-- The answer to a look-up.
abbrev pub found {ℓ} : {A : Type ℓ} → Option A → Result A
found none = err not_found
found (some a) = ok a
