-- ===== src/Vault/Memory.antt =====
-- internal/vault/memory.go.
use n8n_gw.Vault.{Credential, not_found, Result, ok, err, CredentialStore}
use n8n_gw.Vault.Paths.{path_for}
use n8n_gw.Base.{Text, Dict, lookup, insert, remove, none, some, []}

abbrev pub MemoryStore : Type 0
MemoryStore = Dict Credential

module _ (hash_component : Text → Text) where
  unfoldable pub get : Text → Text → MemoryStore → Result Credential × MemoryStore
  get issuer subject s = elim (lookup (path_for hash_component [] issuer subject) s) [
    | none ↦ (err not_found, s)
    | some cred ↦ (ok cred, s)
  ]

  unfoldable pub put : Credential → MemoryStore → Result (Unit {0}) × MemoryStore
  put cred s = (ok tt, insert (path_for hash_component [] cred.issuer cred.subject) cred s)

  unfoldable pub delete : Text → Text → MemoryStore → Result (Unit {0}) × MemoryStore
  delete issuer subject s = (ok tt, remove (path_for hash_component [] issuer subject) s)

  abbrev pub memory_credentials : CredentialStore MemoryStore
  memory_credentials = record { get = get; put = put; delete = delete; ping = λ s. (ok tt, s) }
