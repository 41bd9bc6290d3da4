-- ===== src/Session.antt =====
-- internal/session: the data of store.go and its interface `Store`, with two implementations below.
pub mod Memory
pub mod Redis
pub mod Spec
pub mod Tests
use n8n_gw.Base.{ℕ, Text, Bool}

-- Instants are numbers of nanoseconds; 0 is the zero time.
pub record Session : Type 0 where
  pub issuer : Text
  pub subject : Text
  pub email : Text
  pub name : Text
  pub linked : Bool
  pub created_at : ℕ
  pub expires_at : ℕ

pub record OidcState : Type 0 where
  pub nonce : Text
  pub code_verifier : Text
  pub return_to : Text
  pub created_at : ℕ

-- errors.Is(err, ErrNotFound) tells the two kinds apart.
pub data Failure : Type 0 where
  not_found : Failure
  broken : Text → Failure

pub data Result {ℓ} (A : Type ℓ) : Type ℓ where
  ok : A → Result A
  err : Failure → Result A

-- The interface, over the state `W` of the world that an implementation changes.
pub record SessionStore (W : Type 0) : Type 0 where
  pub create_session : Session → W → Result Text × W
  pub save_session : Text → Session → W → Result (Unit {0}) × W
  pub get_session : Text → W → Result Session × W
  pub delete_session : Text → W → Result (Unit {0}) × W
  pub store_oidc_state : Text → OidcState → W → Result (Unit {0}) × W
  pub take_oidc_state : Text → W → Result OidcState × W
  pub get_csrf : Text → W → Result Text × W
  pub set_csrf : Text → Text → W → Result (Unit {0}) × W
  pub ping : W → Result (Unit {0}) × W
