-- ===== src/Session/Redis/Refines.antt =====
-- internal/session/store.go: RedisStore keeps what the interface promises, over a Redis server that
-- answers, within the lives of the keys.
use n8n_gw.Session.{Result, ok, err}
use n8n_gw.Session.Redis
use n8n_gw.Session.Redis.{
  RedisClient, Codec, RedisStore, Reply, value, nil, failed, redis_session_prefix,
  redis_oidc_state_prefix, redis_csrf_prefix,
}
use n8n_gw.Session.Redis.Keys.{
  session_state, session_csrf, state_session, state_csrf, csrf_session, csrf_state, Changes,
  changed_here, changed_beside,
}
use n8n_gw.Session.Spec.{
  View, Op, save_session, delete_session, store_oidc_state, take_oidc_state, set_csrf, after, Same,
}
use n8n_gw.Base.{
  ℕ, ◌≡◌, ◌⊎◌, ◌∙◌, ap, refl, inl, inr, Text, ◌==◌, if◌then◌else◌, Bool, true, false, ◌||◌, Option,
  none, some, List, [], ◌∷◌, ◌++◌, Bool-cases, arith,
}

abbrev pub member : Text → List Text → Bool
member key [] = false
member key (k ∷ keys) = k == key || member key keys

abbrev pub reply_of : Option Text → Reply
reply_of none = nil
reply_of (some v) = value v

Reply-cases :
    (raw : Reply) → ((v : Text) × (raw ≡ value v)) ⊎ ((raw ≡ nil) ⊎ ((e : Text) × (raw ≡ failed e)))
Reply-cases (value v) = inl (v, refl)
Reply-cases nil = inr (inl refl)
Reply-cases (failed e) = inr (inr (e, refl))

module _ {W : Type 0} (client : RedisClient W) (json : Codec) where
  -- What the commands promise of the texts under the keys, where they succeed and no key ends its life
  -- during the command.
  pub record IsServer (cell : W → Text → Option Text) : Type 0 where
    pub set_writes :
        (key v : Text) (ttl : ℕ) (w : W)
        → (client.set key v ttl w).0 ≡ true
        → (at : Text)
        → cell (client.set key v ttl w).1 at ≡ (if key == at then some v else cell w at)
    pub del_removes :
        (keys : List Text) (w : W)
        → (client.del keys w).0 ≡ true
        → (at : Text) → cell (client.del keys w).1 at ≡ (if member at keys then none else cell w at)
    pub get_del_removes :
        (key v : Text) (w : W)
        → (client.get_del key w).0 ≡ value v
        → (at : Text) → cell (client.get_del key w).1 at ≡ (if key == at then none else cell w at)

  -- encoding/json reads back what the call writes: it does so for texts of valid UTF-8.
  abbrev pub ReadsBack : Op → Type 0
  ReadsBack (save_session id sess) = json.unmarshal_session (json.marshal_session sess) ≡ some sess
  ReadsBack (store_oidc_state state v) = json.unmarshal_state (json.marshal_state v) ≡ some v
  ReadsBack (delete_session id) = Unit {0}
  ReadsBack (take_oidc_state state) = Unit {0}
  ReadsBack (set_csrf id token) = Unit {0}

  or_false : (b : Bool) (x y : Option Text) → (if b || false then x else y) ≡ (if b then x else y)
  or_false true x y = refl
  or_false false x y = refl

  abbrev pub decoded {ℓ} : {A : Type ℓ} → (Text → Option A) → Option Text → Option A
  decoded f none = none
  decoded f (some t) = f t

  module _ (s : RedisStore) (cell : W → Text → Option Text) (server : IsServer cell) where
    abbrev pub view : W → View
    view w = record {
      sessions = λ at. decoded json.unmarshal_session (cell w (redis_session_prefix ++ at));
      states = λ at. decoded json.unmarshal_state (cell w (redis_oidc_state_prefix ++ at));
      tokens = λ at. cell w (redis_csrf_prefix ++ at);
    }

    abbrev accepted {ℓ} : {A : Type ℓ} → Result A → Bool
    accepted (ok a) = true
    accepted (err e) = false

    -- The method behind a call: whether it succeeds, and the new state.
    unfoldable pub step : Op → W → Bool × W
    step (save_session id sess) w =
        let r = Redis.save_session client json s id sess w in (accepted r.0, r.1)
    step (delete_session id) w =
        let r = Redis.delete_session client json s id w in (accepted r.0, r.1)
    step (store_oidc_state state v) w =
        let r = Redis.store_oidc_state client json s state v w in (accepted r.0, r.1)
    step (take_oidc_state state) w =
        let r = Redis.take_oidc_state client json s state w in (accepted r.0, r.1)
    step (set_csrf id token) w =
        let r = Redis.set_csrf client json s id token w in (accepted r.0, r.1)

    put_decoded :
        {A : Type 0} (f : Text → Option A) (a : A) (t id at : Text) (o : Option Text)
        → f t ≡ some a
        → decoded f (if id == at then some t else o) ≡ (if id == at then some a else decoded f o)
    put_decoded f a t id at o back = elim (Bool-cases (id == at)) [
      | inl same ↦ rw same back
      | inr other ↦ rw other refl
    ]

    drop_decoded :
        {A : Type 0} (f : Text → Option A) (id at : Text) (o : Option Text)
        → decoded f (if id == at then none else o) ≡ (if id == at then none else decoded f o)
    drop_decoded f id at o = elim (Bool-cases (id == at)) [
      | inl same ↦ rw same refl
      | inr other ↦ rw other refl
    ]

    sent_ok : (sent : Bool) (what : Text) → accepted (Redis.done (sent, what)) ≡ true → sent ≡ true
    sent_ok true what h = refl
    sent_ok false what h = absurd (ground arith)

    take_world :
        (state : Text) (w : W)
        → (Redis.take_oidc_state client json s state w).1
          ≡ (client.get_del (redis_oidc_state_prefix ++ state) w).1
    unfolding Redis.take_oidc_state
    take_world state w = ground arith

    took :
        (state : Text) (w : W)
        → accepted (Redis.take_oidc_state client json s state w).0 ≡ true
        → (v : Text) × ((client.get_del (redis_oidc_state_prefix ++ state) w).0 ≡ value v)
    unfolding Redis.take_oidc_state
    took state w h = elim (Reply-cases (client.get_del (redis_oidc_state_prefix ++ state) w).0) [
      | inl found ↦ found
      | inr (inl absent) ↦ absurd (ground arith)
      | inr (inr (e, bad)) ↦ absurd (ground arith)
    ]

    take-Changes :
        (state : Text) (w : W)
        → accepted (Redis.take_oidc_state client json s state w).0 ≡ true
        → Changes
            (redis_oidc_state_prefix ++ state)
            none
            (cell w)
            (cell (Redis.take_oidc_state client json s state w).1)
    take-Changes state w h at =
        let (v, read) = took state w h in
        rw (take_world state w)
          (server.get_del_removes (redis_oidc_state_prefix ++ state) v w read at)

    -- SaveSession, DeleteSession, StoreOIDCState, TakeOIDCState and SetCSRF, where they succeed, do to the
    -- sessions, the login states and the tokens what the interface promises, and nothing else: the three
    -- kinds of keys do not get in each other's way. This is over a server whose commands do what they
    -- acknowledge, as long as no key ends its life, and for a session or a login state that
    -- encoding/json reads back as it was.
    pub redis_refines :
        (op : Op) (w : W)
        → ReadsBack op
        → (step op w).0 ≡ true
        → Same (view (step op w).1) (after op (view w))
    unfolding step after Redis.save_session Redis.delete_session Redis.store_oidc_state
        Redis.set_csrf ◌==◌
    redis_refines (save_session id sess) w back h =
        let key = redis_session_prefix ++ id in
        let w' = (client.set key (json.marshal_session sess) s.session_ttl w).1 in
        let changes =
          server.set_writes key (json.marshal_session sess) s.session_ttl w (sent_ok _ _ h) in
        (
          (λ at.
              ap (decoded json.unmarshal_session)
                (changed_here redis_session_prefix id at _ (cell w) (cell w') changes)
              ∙ put_decoded json.unmarshal_session sess _ id at _ back),
          (λ at. ap (decoded json.unmarshal_state) (
              changed_beside redis_session_prefix redis_oidc_state_prefix id at _ (cell w) (cell w')
                session_state changes)),
          (λ at.
              changed_beside redis_session_prefix redis_csrf_prefix id at _ (cell w) (cell w')
                session_csrf changes),
        )
    redis_refines (delete_session id) w back h =
        let keys = (redis_session_prefix ++ id) ∷ (redis_csrf_prefix ++ id) ∷ [] in
        let w' = (client.del keys w).1 in
        let removes = server.del_removes keys w (sent_ok _ _ h) in
        let of_session : (at : Text)
            → cell w' (redis_session_prefix ++ at)
              ≡ (if id == at then none else cell w (redis_session_prefix ++ at)) =
          λ at. removes (redis_session_prefix ++ at) ∙ or_false (id == at) _ _ in
        let of_state : (at : Text)
            → cell w' (redis_oidc_state_prefix ++ at) ≡ cell w (redis_oidc_state_prefix ++ at) =
          λ at. removes (redis_oidc_state_prefix ++ at) in
        let of_token : (at : Text)
            → cell w' (redis_csrf_prefix ++ at)
              ≡ (if id == at then none else cell w (redis_csrf_prefix ++ at)) =
          λ at. removes (redis_csrf_prefix ++ at) ∙ or_false (id == at) _ _ in
        (
          (λ at.
              ap (decoded json.unmarshal_session) (of_session at)
              ∙ drop_decoded json.unmarshal_session id at _),
          (λ at. ap (decoded json.unmarshal_state) (of_state at)),
          of_token,
        )
    redis_refines (store_oidc_state state v) w back h =
        let key = redis_oidc_state_prefix ++ state in
        let w' = (client.set key (json.marshal_state v) s.oidc_ttl w).1 in
        let changes = server.set_writes key (json.marshal_state v) s.oidc_ttl w (sent_ok _ _ h) in
        (
          (λ at. ap (decoded json.unmarshal_session) (
              changed_beside redis_oidc_state_prefix redis_session_prefix state at _ (cell w)
                (cell w') state_session changes)),
          (λ at.
              ap (decoded json.unmarshal_state)
                (changed_here redis_oidc_state_prefix state at _ (cell w) (cell w') changes)
              ∙ put_decoded json.unmarshal_state v _ state at _ back),
          (λ at.
              changed_beside redis_oidc_state_prefix redis_csrf_prefix state at _ (cell w) (cell w')
                state_csrf changes),
        )
    redis_refines (take_oidc_state state) w back h =
        let w' = (Redis.take_oidc_state client json s state w).1 in
        let changes = take-Changes state w h in
        (
          (λ at. ap (decoded json.unmarshal_session) (
              changed_beside redis_oidc_state_prefix redis_session_prefix state at none (cell w)
                (cell w') state_session changes)),
          (λ at.
              ap (decoded json.unmarshal_state)
                (changed_here redis_oidc_state_prefix state at none (cell w) (cell w') changes)
              ∙ drop_decoded json.unmarshal_state state at _),
          (λ at.
              changed_beside redis_oidc_state_prefix redis_csrf_prefix state at none (cell w)
                (cell w') state_csrf changes),
        )
    redis_refines (set_csrf id token) w back h =
        let key = redis_csrf_prefix ++ id in
        let w' = (client.set key token s.csrf_token_ttl w).1 in
        let changes = server.set_writes key token s.csrf_token_ttl w (sent_ok _ _ h) in
        (
          (λ at. ap (decoded json.unmarshal_session) (
              changed_beside redis_csrf_prefix redis_session_prefix id at _ (cell w) (cell w')
                csrf_session changes)),
          (λ at. ap (decoded json.unmarshal_state) (
              changed_beside redis_csrf_prefix redis_oidc_state_prefix id at _ (cell w) (cell w')
                csrf_state changes)),
          (λ at. changed_here redis_csrf_prefix id at _ (cell w) (cell w') changes),
        )
