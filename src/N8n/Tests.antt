-- ===== src/N8n/Tests.antt =====
-- The laws of the n8n client at concrete responses.
use n8n_gw.N8n.{
  HttpResponse, LoginResult, logged_in, refused, login_outcome, looks_like_mfa, invalid_credential,
  mfa_required, rate_limited,
}
use n8n_gw.N8n.Outcome.{login_outcome-logged_in_iff, login_outcome-refused_iff}
use n8n_gw.Base.{◌≡◌, ◌≢◌, ◌≤◌, ◌↔◌, ◌⊎◌, codes, true, false, [], ◌∷◌}

abbrev welcome : HttpResponse
welcome = record {
  status_code = 200;
  body = codes "{}";
  set_cookies = codes "n8n-auth=abc" ∷ [];
  content_type = codes "application/json";
}

abbrev needs_mfa : HttpResponse
needs_mfa = record {
  status_code = 401;
  body = codes "MFA Error";
  set_cookies = [];
  content_type = codes "application/json";
}

abbrev accepted : LoginResult
accepted = record { status_code = 200; body = codes "{}"; cookies = codes "n8n-auth=abc" ∷ [] }

login_outcome-logged_in_iff_example : (login_outcome welcome ≡ logged_in accepted) ↔ (
    (200 ≤ welcome.status_code)
    × (welcome.status_code ≤ 299)
    × (welcome.set_cookies ≢ [])
    × (accepted ≡ record {
      status_code = welcome.status_code;
      body = welcome.body;
      cookies = welcome.set_cookies;
    }))
login_outcome-logged_in_iff_example = login_outcome-logged_in_iff welcome accepted

login_outcome-refused_iff_example :
    ((login_outcome needs_mfa ≡ refused rate_limited) ↔ (needs_mfa.status_code ≡ 429))
    × ((login_outcome needs_mfa ≡ refused mfa_required) ↔ (
        ((needs_mfa.status_code ≡ 400) ⊎ (needs_mfa.status_code ≡ 401))
        × (looks_like_mfa needs_mfa.body ≡ true)))
    × ((login_outcome needs_mfa ≡ refused invalid_credential) ↔ (
        ((needs_mfa.status_code ≡ 400) ⊎ (needs_mfa.status_code ≡ 401))
        × (looks_like_mfa needs_mfa.body ≡ false)))
login_outcome-refused_iff_example = login_outcome-refused_iff needs_mfa
