-- ===== src/Vault.antt =====
-- internal/vault: the data of credential_store.go and its interface `Store`.
pub mod Paths
pub mod Kv
pub mod Memory
pub mod Start
pub mod Separate
pub mod Laws
pub mod Tests
use n8n_gw.Base.{ℕ, Text, Option}

-- Instants as in the sessions; 0 is the zero time.
pub record Credential : Type 0 where
  pub issuer : Text
  pub subject : Text
  pub email : Text
  pub n8n_email_or_login_id : Text
  pub n8n_password : Text
  pub linked_at : ℕ
  pub updated_at : ℕ

-- errors.Is(err, ErrNotFound) tells the two kinds apart.
pub data Failure : Type 0 where
  not_found : Failure
  broken : Text → Failure

pub data Result {ℓ} (A : Type ℓ) : Type ℓ where
  ok : A → Result A
  err : Failure → Result A

pub record CredentialStore (W : Type 0) : Type 0 where
  pub get : Text → Text → W → Result Credential × W
  pub put : Credential → W → Result (Unit {0}) × W
  pub delete : Text → Text → W → Result (Unit {0}) × W
  pub ping : W → Result (Unit {0}) × W
