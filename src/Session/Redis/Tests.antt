-- ===== src/Session/Redis/Tests.antt =====
-- RedisStore over a server that is a map of texts, with an encoding of sessions.
use n8n_gw.Session.{Session, OidcState}
use n8n_gw.Session.Redis
use n8n_gw.Session.Redis.{RedisClient, Codec, new_redis_store}
use n8n_gw.Session.Spec.{Op, Same, after}
use n8n_gw.Session.Redis.Refines.{IsServer, member, reply_of, view, step, redis_refines}
use n8n_gw.Base.{
  ℕ, zero, suc, ◌≡◌, refl, inl, inr, Text, codes, if◌then◌else◌, Bool, true, false, Option, none,
  some, List, [], ◌∷◌, Dict, lookup, insert, remove, lookup-insert, lookup-remove, Bool-cases,
  arith,
}

-- A text with a mark before each byte, and a mark at its end.
write_text : Text → Text → Text
write_text [] rest = 0 ∷ rest
write_text (c ∷ s) rest = 1 ∷ c ∷ write_text s rest

read_text : Text → Text × Text
read_text [] = ([], [])
read_text (zero ∷ t) = ([], t)
read_text (suc _ ∷ []) = ([], [])
read_text (suc _ ∷ c ∷ t) = (c ∷ (read_text t).0, (read_text t).1)

read_text-write_text : (s rest : Text) → read_text (write_text s rest) ≡ (s, rest)
unfolding read_text write_text
read_text-write_text [] rest = refl
read_text-write_text (c ∷ s) rest = rw (read_text-write_text s rest) refl

flag : Bool → ℕ
flag true = 1
flag false = 0

marshal_session : Session → Text
unfolding write_text flag
marshal_session s = write_text s.issuer (
    write_text s.subject
      (write_text s.email (write_text s.name (flag s.linked ∷ s.created_at ∷ s.expires_at ∷ []))))

read_numbers : Text → Text → Text → Text → Text → Option Session
read_numbers issuer subject email name (linked ∷ created ∷ expires ∷ []) = some (record {
  issuer = issuer;
  subject = subject;
  email = email;
  name = name;
  linked = elim linked [ zero ↦ false | suc _ ↦ true ];
  created_at = created;
  expires_at = expires;
})
read_numbers issuer subject email name _ = none

unmarshal_session : Text → Option Session
unfolding read_text read_numbers
unmarshal_session t =
    let issuer = read_text t in
    let subject = read_text issuer.1 in
    let email = read_text subject.1 in
    let name = read_text email.1 in read_numbers issuer.0 subject.0 email.0 name.0 name.1

read_numbers-flag :
    (s : Session)
    → read_numbers s.issuer s.subject s.email s.name
        (flag s.linked ∷ s.created_at ∷ s.expires_at ∷ [])
      ≡ some s
unfolding read_numbers flag
read_numbers-flag s = elim (Bool-cases s.linked) [
  | inl linked ↦ ground arith
  | inr not_linked ↦ ground arith
]

session_back : (s : Session) → unmarshal_session (marshal_session s) ≡ some s
unfolding unmarshal_session marshal_session
session_back s =
    let t0 : Text = flag s.linked ∷ s.created_at ∷ s.expires_at ∷ [] in
    let t1 = write_text s.name t0 in
    let t2 = write_text s.email t1 in
    let t3 = write_text s.subject t2 in
    rw
      (
        read_text-write_text s.issuer t3,
        read_text-write_text s.subject t2,
        read_text-write_text s.email t1,
        read_text-write_text s.name t0,
      )
      (read_numbers-flag s)

marshal_state : OidcState → Text
marshal_state s =
    write_text s.nonce (write_text s.code_verifier (write_text s.return_to (s.created_at ∷ [])))

read_created : Text → Text → Text → Text → Option OidcState
read_created nonce verifier return_to (created ∷ []) = some (record {
  nonce = nonce;
  code_verifier = verifier;
  return_to = return_to;
  created_at = created;
})
read_created nonce verifier return_to _ = none

unmarshal_state : Text → Option OidcState
unmarshal_state t =
    let nonce = read_text t in
    let verifier = read_text nonce.1 in
    let return_to = read_text verifier.1 in read_created nonce.0 verifier.0 return_to.0 return_to.1

state_back : (s : OidcState) → unmarshal_state (marshal_state s) ≡ some s
unfolding unmarshal_state marshal_state read_created
state_back s =
    let t0 : Text = s.created_at ∷ [] in
    let t1 = write_text s.return_to t0 in
    let t2 = write_text s.code_verifier t1 in
    rw
      (
        read_text-write_text s.nonce t2,
        read_text-write_text s.code_verifier t1,
        read_text-write_text s.return_to t0,
      )
      refl

remove_all : List Text → Dict Text → Dict Text
remove_all [] w = w
remove_all (key ∷ keys) w = remove_all keys (remove key w)

abbrev server : RedisClient (Dict Text)
server = record {
  set = λ key v ttl w. (true, insert key v w);
  get = λ key w. (reply_of (lookup key w), w);
  get_del = λ key w. (reply_of (lookup key w), remove key w);
  del = λ keys w. (true, remove_all keys w);
  ping = λ w. (true, w);
  random = λ w. (some (codes "id"), w);
  now = λ w. 7;
}

abbrev reads_url : Text → Bool
reads_url url = false

abbrev login : OidcState
login = record {
  nonce = codes "n";
  code_verifier = codes "v";
  return_to = codes "/";
  created_at = 5;
}

abbrev codec : Codec
codec = record {
  marshal_session = marshal_session;
  unmarshal_session = unmarshal_session;
  marshal_state = marshal_state;
  unmarshal_state = unmarshal_state;
}

abbrev cell : Dict Text → Text → Option Text
cell w key = lookup key w

lookup-remove_all :
    (keys : List Text) (at : Text) (w : Dict Text)
    → lookup at (remove_all keys w) ≡ (if member at keys then none else lookup at w)
unfolding remove_all
lookup-remove_all [] at w = refl
lookup-remove_all (key ∷ keys) at w =
    ground (arith, lookup-remove_all keys at (remove key w), lookup-remove key at w)

server-IsServer : IsServer server codec cell
server-IsServer = record {
  set_writes = λ key v ttl w _ at. lookup-insert key at v w;
  del_removes = λ keys w _ at. lookup-remove_all keys at w;
  get_del_removes = λ key v w _ at. lookup-remove key at w;
}

redis_refines_example :
    let store = new_redis_store reads_url (codes "redis:6379") 100 10 in
    let op = Op.store_oidc_state (codes "st") login in
    Same
      (view server codec store cell server-IsServer
        (step server codec store cell server-IsServer op []).1)
      (after op (view server codec store cell server-IsServer []))
unfolding step Redis.store_oidc_state
redis_refines_example =
    redis_refines server codec (new_redis_store reads_url (codes "redis:6379") 100 10) cell
      server-IsServer (Op.store_oidc_state (codes "st") login) [] (state_back login) refl
