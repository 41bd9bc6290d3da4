-- ===== src/N8n/Outcome.antt =====
-- internal/n8n/client.go: when a login succeeds.
use n8n_gw.N8n.{
  HttpResponse, LoginResult, logged_in, refused, login_outcome, looks_like_mfa, invalid_credential,
  mfa_required, rate_limited,
}
use n8n_gw.Base.{◌≤◌, ◌≡◌, ◌≢◌, ◌↔◌, ◌⊎◌, true, false, [], arith}

-- A login succeeds exactly if the status is one of 200 to 299 and there is a Set-Cookie header; its
-- result is the response's status, body and cookies.
pub login_outcome-logged_in_iff :
    (resp : HttpResponse) (result : LoginResult)
    → (login_outcome resp ≡ logged_in result) ↔ (
        (200 ≤ resp.status_code)
        × (resp.status_code ≤ 299)
        × (resp.set_cookies ≢ [])
        × (result ≡ record {
          status_code = resp.status_code;
          body = resp.body;
          cookies = resp.set_cookies;
        }))
unfolding login_outcome
login_outcome-logged_in_iff resp result = ground arith

-- The three refusals that the gateway tells apart.
pub login_outcome-refused_iff :
    (resp : HttpResponse)
    → ((login_outcome resp ≡ refused rate_limited) ↔ (resp.status_code ≡ 429))
      × ((login_outcome resp ≡ refused mfa_required) ↔ (
          ((resp.status_code ≡ 400) ⊎ (resp.status_code ≡ 401))
          × (looks_like_mfa resp.body ≡ true)))
      × ((login_outcome resp ≡ refused invalid_credential) ↔ (
          ((resp.status_code ≡ 400) ⊎ (resp.status_code ≡ 401))
          × (looks_like_mfa resp.body ≡ false)))
unfolding login_outcome
login_outcome-refused_iff resp = ground arith
