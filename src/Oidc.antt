-- ===== src/Oidc.antt =====
-- internal/oidc/client.go, over golang.org/x/oauth2 and go-oidc.
pub mod Trust
pub mod Fake
pub mod Tests
use n8n_gw.Base.{
  Text, codes, ◌==◌, if◌then◌else◌, Bool, true, false, not, ◌||◌, Option, none, some, List, [], ◌∷◌,
}

pub record Config : Type 0 where
  pub issuer_url : Text
  pub client_id : Text
  pub client_secret : Text
  pub scopes : List Text
  pub redirect_url : Text

pub record Identity : Type 0 where
  pub issuer : Text
  pub subject : Text
  pub email : Text
  pub name : Text

-- The interface `Client`, over the state `W` of the world; `none` is an error of the exchange.
pub record OidcClient (W : Type 0) : Type 0 where
  pub auth_code_url : Text → Text → Text → Text
  pub exchange : Text → Text → Text → W → Option Identity × W
  pub ping : W → Bool × W

-- The fields of a verified id_token that the program reads.
pub record IdToken : Type 0 where
  pub nonce : Text
  pub issuer : Text
  pub subject : Text

pub record Claims : Type 0 where
  pub email : Text
  pub name : Text

-- oauth2.Config.AuthCodeURL and Exchange, where a token shows its "id_token" if that is a string, the
-- verifier of go-oidc, the decoder of claims, and base64 over SHA-256.
pub record Provider (W : Type 0) : Type 0 where
  pub auth_code_url : Text → List (Text × Text) → Text
  pub exchange : Text → Text → W → Option (Option Text) × W
  pub verify : Text → W → Option IdToken × W
  pub claims : IdToken → Option Claims
  pub sha256_base64 : Text → Text

-- ProviderClient: New sets both fields.
pub record ProviderClient : Type 0 where
  pub has_provider : Bool
  pub has_verifier : Bool
  pub scopes : List Text
  pub redirect_url : Text

-- New, where `discovered` says that gooidc.NewProvider succeeds.
unfoldable pub new : Bool → Config → Option ProviderClient
new discovered cfg =
    let scopes = elim cfg.scopes as (λ _. List Text) [
      | [] ↦ codes "openid" ∷ codes "profile" ∷ codes "email" ∷ []
      | _ ∷ _ ↦ cfg.scopes
    ] in
    if discovered
    then some (record {
      has_provider = true;
      has_verifier = true;
      scopes = scopes;
      redirect_url = cfg.redirect_url;
    })
    else none

pub data ExchangeError : Type 0 where
  exchange_failed missing_id_token verify_failed nonce_mismatch claims_failed : ExchangeError

pub data Exchange : Type 0 where
  identified : Identity → Exchange
  failed : ExchangeError → Exchange

module _ {W : Type 0} (provider : Provider W) where
  unfoldable pub code_challenge_s256 : Text → Text
  code_challenge_s256 verifier = provider.sha256_base64 verifier

  unfoldable pub auth_code_url : Text → Text → Text → Text
  unfolding code_challenge_s256
  auth_code_url state nonce code_verifier = provider.auth_code_url state (
      (codes "access_type", codes "online")
      ∷ (codes "nonce", nonce)
      ∷ (codes "code_challenge", code_challenge_s256 code_verifier)
      ∷ (codes "code_challenge_method", codes "S256")
      ∷ [])

  -- The end of Exchange, from the verified token on.
  unfoldable pub identify : Text → IdToken → Exchange
  unfolding ◌==◌
  identify nonce token =
      if not (token.nonce == nonce) then failed nonce_mismatch else elim (provider.claims token) [
        | none ↦ failed claims_failed
        | some claims ↦ identified (record {
          issuer = token.issuer;
          subject = token.subject;
          email = claims.email;
          name = claims.name;
        })
      ]

  unfoldable pub verify_raw : Text → Text → W → Exchange × W
  unfolding identify ◌==◌
  verify_raw nonce raw w =
      if raw == [] then (failed missing_id_token, w) else elim (provider.verify raw w).0 [
        | none ↦ (failed verify_failed, (provider.verify raw w).1)
        | some token ↦ (identify nonce token, (provider.verify raw w).1)
      ]

  unfoldable pub exchange : Text → Text → Text → W → Exchange × W
  unfolding verify_raw
  exchange code nonce code_verifier w =
      let got = provider.exchange code code_verifier w in
      elim got.0 [
        | none ↦ (failed exchange_failed, got.1)
        | some none ↦ (failed missing_id_token, got.1)
        | some (some raw) ↦ verify_raw nonce raw got.1
      ]

  unfoldable pub ping : ProviderClient → W → Bool × W
  ping c w = (not (not c.has_provider || not c.has_verifier), w)

  abbrev pub identity_of : Exchange → Option Identity
  identity_of (identified identity) = some identity
  identity_of (failed e) = none

  -- The client as a value of the interface.
  abbrev pub provider_client : ProviderClient → OidcClient W
  provider_client c = record {
    auth_code_url = auth_code_url;
    exchange = λ code nonce verifier w.
        (identity_of (exchange code nonce verifier w).0, (exchange code nonce verifier w).1);
    ping = ping c;
  }
