-- ===== src/Oidc/Trust.antt =====
-- internal/oidc/client.go: whose identity Exchange returns.
use n8n_gw.Oidc.{Identity, IdToken, Claims, Provider, identified, identify, verify_raw, exchange}
use n8n_gw.Base.{◌≡◌, inl, inr, Text, eq_iff, some, Option-cases, arith}

module _ {W : Type 0} (provider : Provider W) where
  -- A verified token and its claims stand behind an identity.
  pub record IsTrusted (nonce raw : Text) (w : W) (i : Identity) : Type 0 where
    pub token : IdToken
    pub claims : Claims
    pub verified : (provider.verify raw w).0 ≡ some token
    pub decoded : provider.claims token ≡ some claims
    pub same_nonce : token.nonce ≡ nonce
    pub issuer : i.issuer ≡ token.issuer
    pub subject : i.subject ≡ token.subject
    pub email : i.email ≡ claims.email
    pub name : i.name ≡ claims.name

  identify-IsTrusted :
      (nonce raw : Text) (token : IdToken) (w : W) (i : Identity)
      → (provider.verify raw w).0 ≡ some token
      → identify provider nonce token ≡ identified i
      → IsTrusted nonce raw w i
  unfolding identify
  identify-IsTrusted nonce raw token w i verified h = elim (Option-cases (provider.claims token)) [
    | inl bad ↦ absurd (ground arith)
    | inr (claims, good) ↦ record {
      token = token;
      claims = claims;
      verified = verified;
      decoded = good;
      same_nonce = ground (arith, eq_iff token.nonce nonce);
      issuer = ground arith;
      subject = ground arith;
      email = ground arith;
      name = ground arith;
    }
  ]

  verify_raw-IsTrusted :
      (nonce raw : Text) (w : W) (i : Identity)
      → (verify_raw provider nonce raw w).0 ≡ identified i
      → IsTrusted nonce raw w i
  unfolding verify_raw
  verify_raw-IsTrusted nonce raw w i h = elim (Option-cases (provider.verify raw w).0) [
    | inl bad ↦ absurd (ground arith)
    | inr (token, good) ↦ identify-IsTrusted nonce raw token w i good (ground arith)
  ]

  -- If Exchange returns an identity, the provider gave an id_token for the code and its verifier, this
  -- token was verified, its nonce is the one that the login began with, and the identity is that of the
  -- token and its claims.
  pub exchange-IsTrusted :
      (code nonce verifier : Text) (w : W) (i : Identity)
      → (exchange provider code nonce verifier w).0 ≡ identified i
      → (raw : Text) × (((provider.exchange code verifier w).0 ≡ some (some raw))
          × IsTrusted nonce raw (provider.exchange code verifier w).1 i)
  unfolding exchange
  exchange-IsTrusted code nonce verifier w i h =
      elim (Option-cases (provider.exchange code verifier w).0) [
        | inl bad ↦ absurd (ground arith)
        | inr (shown, got) ↦ elim (Option-cases shown) [
          | inl absent ↦ absurd (ground arith)
          | inr (raw, there) ↦ (
            raw,
            (
              ground arith,
              verify_raw-IsTrusted nonce raw (provider.exchange code verifier w).1 i (ground arith),
            ),
          )
        ]
      ]
