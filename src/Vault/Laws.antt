-- ===== src/Vault/Laws.antt =====
-- internal/vault: what the stores keep, and how KVStore retries.
use n8n_gw.Vault.{Credential, ok}
use n8n_gw.Vault.Kv.{
  VaultClient, done, Any, text, Formats, KvStore, decode_credential, encode_credential,
  renewal_interval, fields,
}
use n8n_gw.Base.{
  ℕ, ◌*◌, ◌≤◌, ◌≡◌, ◌≢◌, ◌⊎◌, Text, nat_eq, if◌then◌else◌, some, [], ◌∷◌, Dict, arith,
}

-- What Vault gives back for a payload of strings.
abbrev pub as_any : Dict Text → Dict Any
as_any [] = []
as_any ((k, v) ∷ m) = (k, text v) ∷ as_any m

-- The timestamps are read back as they were written.
abbrev pub ReadsBack : Formats → ℕ → Type 0
ReadsBack formats t =
    (formats.format_time t ≢ []) × (formats.parse_rfc3339 (formats.format_time t) ≡ some t)

-- The text of the instant `t` is read as `u`: time.RFC3339 keeps whole seconds.
abbrev pub ReadsAs : Formats → ℕ → ℕ → Type 0
ReadsAs formats t u =
    (formats.format_time t ≢ []) × (formats.parse_rfc3339 (formats.format_time t) ≡ some u)

-- A credential whose four required fields are not empty is decoded from what Put writes, if its two
-- timestamps are read back by time.RFC3339.
pub decode_credential-encode_credential :
    (formats : Formats) (cred : Credential)
    → cred.issuer ≢ []
    → cred.subject ≢ []
    → cred.n8n_email_or_login_id ≢ []
    → cred.n8n_password ≢ []
    → ReadsBack formats cred.linked_at
    → ReadsBack formats cred.updated_at
    → decode_credential formats (as_any (encode_credential formats cred)) ≡ ok cred
unfolding decode_credential encode_credential
decode_credential-encode_credential formats cred issuer subject login password linked updated =
    ground arith

-- The token is renewed no more often than every five minutes, and before two thirds of its life have
-- passed if that is longer; a missing duration counts as an hour.
pub renewal_interval_bounds :
    (ttl : ℕ)
    → (300 ≤ renewal_interval ttl)
      × ((renewal_interval ttl ≡ 300)
          ⊎ (renewal_interval ttl * 3 ≤ (if nat_eq ttl 0 then 3600 else ttl) * 2))
unfolding renewal_interval
renewal_interval_bounds ttl = ground arith

module _ {W : Type 0} (client : VaultClient W) (formats : Formats) (s : KvStore) where
  -- What the KV engine promises: a read right after a write that succeeded gives what was written.
  abbrev pub ReadsOwnWrites : Type 0
  ReadsOwnWrites =
      (path : Text) (payload : Dict Text) (w : W)
      → (client.write path payload w).0 ≡ done tt
      → (client.read path (client.write path payload w).1).0 ≡ done (fields (as_any payload))
