-- ===== src/Vault/Kv.antt =====
-- internal/vault/credential_store.go: KVStore, over the calls of the Vault client.
use n8n_gw.Vault.{Credential, not_found, broken, Result, ok, err, CredentialStore}
use n8n_gw.Vault.Paths.{data_path, metadata_path}
use n8n_gw.Base.{
  ℕ, ◌*◌, ◌/◌, Text, codes, ◌==◌, nat_eq, ltb, if◌then◌else◌, Bool, true, false, not, ◌||◌, Option,
  none, some, [], ◌∷◌, Dict, lookup, to_lower, contains,
}

-- vaultapi.ResponseError with its status, or another error with its message.
pub data VaultError : Type 0 where
  response_error : ℕ → VaultError
  other_error : Text → VaultError

pub data Reply {ℓ} (A : Type ℓ) : Type ℓ where
  done : A → Reply A
  fault : VaultError → Reply A

-- A value of map[string]any, where only strings are told from the rest.
pub data Any : Type 0 where
  text : Text → Any
  other : Any

-- What a read finds: nothing, a secret with no map under "data", or that map.
pub data Secret : Type 0 where
  no_secret : Secret
  no_map : Secret
  fields : Dict Any → Secret

pub record VaultClient (W : Type 0) : Type 0 where
  pub read : Text → W → Reply Secret × W
  pub write : Text → Dict Text → W → Reply (Unit {0}) × W
  pub delete : Text → W → Reply (Unit {0}) × W
  pub lookup_self : W → Reply (Unit {0}) × W
  pub renew_self : W → Bool × W
  pub app_role_login : Text → Text → W → Reply (Option (Text × ℕ)) × W
  pub set_token : Text → W → W
  pub now : W → ℕ

pub record KvStore : Type 0 where
  pub mount : Text
  pub prefix : Text
  pub role_id : Text
  pub secret_id : Text

-- time.RFC3339 both ways, and the hash of a path component.
pub record Formats : Type 0 where
  pub format_time : ℕ → Text
  pub parse_rfc3339 : Text → Option ℕ
  pub hash_component : Text → Text

unfoldable pub is_vault_auth_error : VaultError → Bool
unfolding to_lower contains
is_vault_auth_error (response_error status) = nat_eq status 401 || nat_eq status 403
is_vault_auth_error (other_error message) = contains (to_lower message) (codes "permission denied")

unfoldable pub string_value : Option Any → Text
string_value none = []
string_value (some (text s)) = s
string_value (some other) = []

unfoldable pub parse_time : Formats → Text → ℕ
unfolding ◌==◌
parse_time formats s =
    if s == [] then 0 else elim (formats.parse_rfc3339 s) [ none ↦ 0 | some t ↦ t ]

unfoldable pub decode_credential : Formats → Dict Any → Result Credential
unfolding string_value parse_time lookup ◌==◌
decode_credential formats m =
    let issuer = string_value (lookup (codes "issuer") m) in
    let subject = string_value (lookup (codes "subject") m) in
    let login_id = string_value (lookup (codes "n8n_email_or_login_id") m) in
    let password = string_value (lookup (codes "n8n_password") m) in
    if issuer == [] || (subject == [] || (login_id == [] || password == []))
    then err (broken (codes "vault credential is missing required fields"))
    else ok (record {
      issuer = issuer;
      subject = subject;
      email = string_value (lookup (codes "email") m);
      n8n_email_or_login_id = login_id;
      n8n_password = password;
      linked_at = parse_time formats (string_value (lookup (codes "linked_at") m));
      updated_at = parse_time formats (string_value (lookup (codes "updated_at") m));
    })

-- The payload of Put.
unfoldable pub encode_credential : Formats → Credential → Dict Text
encode_credential formats cred =
    (codes "issuer", cred.issuer)
    ∷ (codes "subject", cred.subject)
    ∷ (codes "email", cred.email)
    ∷ (codes "n8n_email_or_login_id", cred.n8n_email_or_login_id)
    ∷ (codes "n8n_password", cred.n8n_password)
    ∷ (codes "linked_at", formats.format_time cred.linked_at)
    ∷ (codes "updated_at", formats.format_time cred.updated_at)
    ∷ []

-- startTokenRenewal: the interval in seconds; a duration of zero counts as an hour.
unfoldable pub renewal_interval : ℕ → ℕ
renewal_interval ttl_seconds =
    let ttl : ℕ = if nat_eq ttl_seconds 0 then 3600 else ttl_seconds in
    let interval : ℕ = ttl * 2 / 3 in if ltb interval 300 then 300 else interval

module _ {W : Type 0} (client : VaultClient W) where
  -- loginAppRole: the lease of a token that is not empty.
  unfoldable pub login_app_role : Text → Text → W → Option ℕ × W
  unfolding ◌==◌
  login_app_role role_id secret_id w =
      let (reply, w') = client.app_role_login role_id secret_id w in
      elim reply [
        | fault _ ↦ (none, w')
        | done none ↦ (none, w')
        | done (some (token, lease)) ↦
            if token == [] then (none, w') else (some lease, client.set_token token w')
      ]

  module _ (formats : Formats) (s : KvStore) where
    unfoldable pub reauthenticate_after_auth_error : VaultError → W → Bool × W
    unfolding login_app_role is_vault_auth_error ◌==◌
    reauthenticate_after_auth_error e w =
        if s.role_id == [] || (s.secret_id == [] || not (is_vault_auth_error e))
        then (false, w)
        else let (lease, w') = login_app_role s.role_id s.secret_id w in
          elim lease [ none ↦ (false, w') | some _ ↦ (true, w') ]

    -- A call, and once more after an authentication error that a new login mends.
    unfoldable pub with_retry {ℓ} : {A : Type ℓ} → (W → Reply A × W) → W → Reply A × W
    unfolding reauthenticate_after_auth_error
    with_retry call w =
        let (reply, w') = call w in
        elim reply [
          | done a ↦ (done a, w')
          | fault e ↦
              let (again, w'') = reauthenticate_after_auth_error e w' in
              if again then call w'' else (fault e, w'')
        ]

    unfoldable pub read_credential : Reply Secret → Result Credential
    unfolding decode_credential
    read_credential (fault e) = err (broken (codes "vault read credential"))
    read_credential (done no_secret) = err not_found
    read_credential (done no_map) = err not_found
    read_credential (done (fields m)) = decode_credential formats m

    unfoldable pub get : Text → Text → W → Result Credential × W
    unfolding with_retry read_credential data_path
    get issuer subject w =
        let (reply, w') =
          with_retry
            (client.read (data_path formats.hash_component s.mount s.prefix issuer subject)) w in
        (read_credential reply, w')

    abbrev pub finished : Text → Reply (Unit {0}) → Result (Unit {0})
    finished what (done _) = ok tt
    finished what (fault e) = err (broken what)

    unfoldable pub stamped : ℕ → Credential → Credential
    stamped now cred = record cred {
      linked_at = if nat_eq cred.linked_at 0 then now else cred.linked_at;
      updated_at = now;
    }

    unfoldable pub put : Credential → W → Result (Unit {0}) × W
    unfolding with_retry encode_credential data_path stamped
    put cred w =
        let path = data_path formats.hash_component s.mount s.prefix cred.issuer cred.subject in
        let payload = encode_credential formats (stamped (client.now w) cred) in
        let (reply, w') = with_retry (client.write path payload) w in
        (finished (codes "vault write credential") reply, w')

    unfoldable pub delete : Text → Text → W → Result (Unit {0}) × W
    unfolding with_retry metadata_path
    delete issuer subject w =
        let path = metadata_path formats.hash_component s.mount s.prefix issuer subject in
        let (reply, w') = with_retry (client.delete path) w in
        (finished (codes "vault delete credential metadata") reply, w')

    unfoldable pub ping : W → Result (Unit {0}) × W
    unfolding with_retry
    ping w =
        let (reply, w') = with_retry client.lookup_self w in
        (finished (codes "vault token lookup") reply, w')

    abbrev pub kv_credentials : CredentialStore W
    kv_credentials = record { get = get; put = put; delete = delete; ping = ping }
