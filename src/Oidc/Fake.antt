-- ===== src/Oidc/Fake.antt =====
-- internal/oidc/fake.go: the client of tests; `query_escape` is url.QueryEscape.
use n8n_gw.Oidc.{Identity, OidcClient}
use n8n_gw.Base.{Text, codes, ◌==◌, if◌then◌else◌, Bool, true, Option, none, some, [], ◌++◌}

pub record FakeClient (W : Type 0) : Type 0 where
  pub auth_url : Text
  pub identity : Identity
  pub exchange_func : Option (Text → Text → Text → W → Option Identity × W)
  pub ping_func : Option (W → Bool × W)

module _ {W : Type 0} (query_escape : Text → Text) (c : FakeClient W) where
  unfoldable pub auth_code_url : Text → Text → Text → Text
  unfolding ◌==◌
  auth_code_url state nonce code_verifier =
      if c.auth_url == []
      then codes "/fake-idp?state=" ++ query_escape state
      else c.auth_url ++ (codes "?state=" ++ query_escape state)

  unfoldable pub exchange : Text → Text → Text → W → Option Identity × W
  unfolding ◌==◌
  exchange code nonce code_verifier w = elim c.exchange_func [
    | some run ↦ run code nonce code_verifier w
    | none ↦ if c.identity.subject == [] then (none, w) else (some c.identity, w)
  ]

  unfoldable pub ping : W → Bool × W
  ping w = elim c.ping_func [ none ↦ (true, w) | some run ↦ run w ]

  abbrev pub fake_oidc : OidcClient W
  fake_oidc = record { auth_code_url = auth_code_url; exchange = exchange; ping = ping }
