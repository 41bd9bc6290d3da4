-- ===== src/Session/Redis/Keys.antt =====
-- internal/session/store.go: the three kinds of keys of RedisStore.
use n8n_gw.Session.Redis.{redis_session_prefix, redis_oidc_state_prefix, redis_csrf_prefix}
use n8n_gw.Base.{◌≡◌, refl, Text, ◌==◌, if◌then◌else◌, false, Option, [], ◌∷◌, ◌++◌, arith}

pub same_prefix : (p s t : Text) → (p ++ s) == (p ++ t) ≡ s == t
unfolding ◌==◌
same_prefix [] s t = refl
same_prefix (c ∷ p) s t = ground (arith, same_prefix p s t)

-- Keys of two kinds are never the same.
abbrev pub Apart : Text → Text → Type 0
Apart p q = (s t : Text) → (p ++ s) == (q ++ t) ≡ false

pub session_state : Apart redis_session_prefix redis_oidc_state_prefix
unfolding ◌==◌
session_state s t = refl

pub session_csrf : Apart redis_session_prefix redis_csrf_prefix
unfolding ◌==◌
session_csrf s t = refl

pub state_session : Apart redis_oidc_state_prefix redis_session_prefix
unfolding ◌==◌
state_session s t = refl

pub state_csrf : Apart redis_oidc_state_prefix redis_csrf_prefix
unfolding ◌==◌
state_csrf s t = refl

pub csrf_session : Apart redis_csrf_prefix redis_session_prefix
unfolding ◌==◌
csrf_session s t = refl

pub csrf_state : Apart redis_csrf_prefix redis_oidc_state_prefix
unfolding ◌==◌
csrf_state s t = refl

-- A change of one cell, seen from a key of its own kind and from one of another kind.
abbrev pub Changes : Text → Option Text → (Text → Option Text) → (Text → Option Text) → Type 0
Changes key o old new = (at : Text) → new at ≡ (if key == at then o else old at)

pub changed_here :
    (p k at : Text) (o : Option Text) (old new : Text → Option Text)
    → Changes (p ++ k) o old new
    → new (p ++ at) ≡ (if k == at then o else old (p ++ at))
changed_here p k at o old new changes = ground (arith, changes (p ++ at), same_prefix p k at)

pub changed_beside :
    (p q k at : Text) (o : Option Text) (old new : Text → Option Text)
    → Apart p q
    → Changes (p ++ k) o old new
    → new (q ++ at) ≡ old (q ++ at)
changed_beside p q k at o old new apart changes = ground (arith, changes (q ++ at), apart k at)
