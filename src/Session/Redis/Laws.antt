-- ===== src/Session/Redis/Laws.antt =====
-- internal/session/store.go: RedisStore and the end of a session's life.
use n8n_gw.Session.{Session, ok}
use n8n_gw.Session.Redis.{
  RedisClient, Codec, RedisStore, Reply, nil, value, failed, redis_session_prefix, get_session,
  check_session,
}
use n8n_gw.Base.{◌≤◌, ◌≡◌, ◌⊎◌, inl, inr, refl, Text, ◌++◌, Option, none, some, arith}

Reply-cases :
    (reply : Reply)
    → (reply ≡ nil) ⊎ (((e : Text) × (reply ≡ failed e)) ⊎ ((t : Text) × (reply ≡ value t)))
Reply-cases nil = inl refl
Reply-cases (failed e) = inr (inl (e, refl))
Reply-cases (value t) = inr (inr (t, refl))

module _ {W : Type 0} (client : RedisClient W) (json : Codec) (s : RedisStore) where
  check_session_is_alive :
      (id : Text) (o : Option Session) (w : W) (sess : Session)
      → (check_session client json s id o w).0 ≡ ok sess
      → (o ≡ some sess) × (client.now w ≤ sess.expires_at)
  unfolding check_session
  check_session_is_alive id none w sess found = absurd (ground arith)
  check_session_is_alive id (some got) w sess found = ground arith

  -- What GetSession returns is the decoded text of the session's key, and its life has not ended.
  pub get_session_is_alive :
      (id : Text) (w : W) (sess : Session)
      → (get_session client json s id w).0 ≡ ok sess
      → (text : Text) × ((client.get (redis_session_prefix ++ id) w).0 ≡ value text)
        × (json.unmarshal_session text ≡ some sess)
        × (client.now (client.get (redis_session_prefix ++ id) w).1 ≤ sess.expires_at)
  unfolding get_session check_session
  get_session_is_alive id w sess found =
      elim (Reply-cases (client.get (redis_session_prefix ++ id) w).0) [
        | inl none_there ↦ absurd (ground arith)
        | inr (inl (e, broke)) ↦ absurd (ground arith)
        | inr (inr (text, got)) ↦
            let (decoded, alive) =
              check_session_is_alive id (json.unmarshal_session text)
                (client.get (redis_session_prefix ++ id) w).1 sess
                (rw (got, get_session) at found) in
            (text, got, decoded, alive)
      ]
