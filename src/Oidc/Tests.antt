-- ===== src/Oidc/Tests.antt =====
-- The exchange at a provider that knows one code.
use n8n_gw.Oidc.{Identity, Provider, exchange, identify, verify_raw}
use n8n_gw.Oidc.Trust.{IsTrusted, exchange-IsTrusted}
use n8n_gw.Base.{◌≡◌, refl, Text, codes, ◌==◌, some}

abbrev pub provider : Provider (Unit {0})
provider = record {
  auth_code_url = λ state params. codes "https://idp/auth";
  exchange = λ code verifier w. (some (some (codes "token")), w);
  verify = λ raw w.
      (some (record { nonce = codes "n"; issuer = codes "idp"; subject = codes "alice" }), w);
  claims = λ token. some (record { email = codes "alice@example.org"; name = codes "Alice" });
  sha256_base64 = λ s. s;
}

abbrev alice : Identity
alice = record {
  issuer = codes "idp";
  subject = codes "alice";
  email = codes "alice@example.org";
  name = codes "Alice";
}

exchange-IsTrusted_example :
    (raw : Text) × (((provider.exchange (codes "c") (codes "v") tt).0 ≡ some (some raw))
      × IsTrusted provider (codes "n") raw (provider.exchange (codes "c") (codes "v") tt).1 alice)
unfolding exchange verify_raw identify ◌==◌
exchange-IsTrusted_example =
    exchange-IsTrusted provider (codes "c") (codes "n") (codes "v") tt alice refl
