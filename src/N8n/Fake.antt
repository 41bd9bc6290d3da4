-- ===== src/N8n/Fake.antt =====
-- internal/n8n/fake.go: the client of tests, whose functions may be nil.
use n8n_gw.N8n.{Login, refused, failed, CurrentUserResult, LogoutResult, N8nClient}
use n8n_gw.Base.{Text, codes, Bool, true, Option, none, some, []}

pub record FakeClient (W : Type 0) : Type 0 where
  pub login_func : Option (Text → Text → W → Login × W)
  pub current_user_func : Option (Text → W → Option CurrentUserResult × W)
  pub logout_func : Option (Text → W → (LogoutResult × Bool) × W)
  pub ping_func : Option (W → Bool × W)

abbrev unauthorized : CurrentUserResult
unauthorized = record {
  status_code = 401;
  body = codes "{\"error\":\"unauthorized\"}";
  cookies = [];
  content_type = codes "application/json";
}

module _ {W : Type 0} (c : FakeClient W) where
  unfoldable pub login : Text → Text → W → Login × W
  login id password w = elim c.login_func [
    | none ↦ (refused (failed (codes "fake n8n LoginFunc is nil")), w)
    | some run ↦ run id password w
  ]

  unfoldable pub current_user : Text → W → Option CurrentUserResult × W
  current_user cookie w = elim c.current_user_func [
    | none ↦ (some unauthorized, w)
    | some run ↦ run cookie w
  ]

  unfoldable pub logout : Text → W → (LogoutResult × Bool) × W
  logout cookie w = elim c.logout_func [
    | none ↦ ((record { status_code = 200; cookies = [] }, true), w)
    | some run ↦ run cookie w
  ]

  unfoldable pub ping : W → Bool × W
  ping w = elim c.ping_func [ none ↦ (true, w) | some run ↦ run w ]

  -- The forwarded headers are not used.
  abbrev pub fake_n8n : N8nClient W
  fake_n8n = record {
    login = λ id password headers. login id password;
    current_user = current_user;
    logout = logout;
    ping = ping;
  }
