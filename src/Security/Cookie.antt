-- ===== src/Security/Cookie.antt =====
-- internal/security/cookie.go, lines 1 to 105: the gateway's own cookies.
pub mod Laws
use n8n_gw.Base.{
  ℕ, Text, codes, ◌==◌, if◌then◌else◌, Bool, true, false, ◌||◌, Option, none, some, List, [], ◌∷◌,
  ◌++◌,
}

pub data SameSite : Type 0 where
  same_site_lax : SameSite
  same_site_none : SameSite

-- MaxAge of http.Cookie: a positive number of seconds, 0 for no attribute, or -1 for removal.
pub data MaxAge : Type 0 where
  seconds : ℕ → MaxAge
  expired : MaxAge

-- The fields of http.Cookie that the program sets. HttpOnly and Path are in every one.
pub record Cookie : Type 0 where
  pub name : Text
  pub value : Text
  pub path : Text
  pub max_age : MaxAge
  pub secure : Bool
  pub http_only : Bool
  pub same_site : SameSite

abbrev pub proxy_session_cookie_name : Text
proxy_session_cookie_name = codes "__Host-n8np_session"

abbrev pub insecure_proxy_session_cookie_name : Text
insecure_proxy_session_cookie_name = codes "n8np_session"

abbrev pub n8n_bridge_cookie_name : Text
n8n_bridge_cookie_name = codes "n8np_n8n_bridge"

unfoldable pub proxy_session_cookie_name_for_secure : Bool → Text
proxy_session_cookie_name_for_secure secure =
    if secure then proxy_session_cookie_name else insecure_proxy_session_cookie_name

unfoldable pub same_site_for_session_cookie : Bool → SameSite
same_site_for_session_cookie secure = if secure then same_site_none else same_site_lax

unfoldable pub proxy_session_cookie : Text → Bool → ℕ → Cookie
unfolding proxy_session_cookie_name_for_secure same_site_for_session_cookie
proxy_session_cookie session_id secure max_age = record {
  name = proxy_session_cookie_name_for_secure secure;
  value = session_id;
  path = codes "/";
  max_age = seconds max_age;
  secure = secure;
  http_only = true;
  same_site = same_site_for_session_cookie secure;
}

unfoldable pub proxy_session_cookies : Text → Bool → ℕ → List Cookie
unfolding proxy_session_cookie
proxy_session_cookies session_id secure max_age =
    proxy_session_cookie session_id secure max_age
    ∷ (if secure
        then record {
          name = insecure_proxy_session_cookie_name;
          value = session_id;
          path = codes "/";
          max_age = seconds max_age;
          secure = true;
          http_only = true;
          same_site = same_site_for_session_cookie secure;
        }
          ∷ []
        else [])

unfoldable pub clear_proxy_session_cookie : Bool → Cookie
unfolding proxy_session_cookie_name_for_secure same_site_for_session_cookie
clear_proxy_session_cookie secure = record {
  name = proxy_session_cookie_name_for_secure secure;
  value = [];
  path = codes "/";
  max_age = expired;
  secure = secure;
  http_only = true;
  same_site = same_site_for_session_cookie secure;
}

unfoldable pub clear_proxy_session_cookies : Bool → List Cookie
unfolding clear_proxy_session_cookie
clear_proxy_session_cookies secure =
    clear_proxy_session_cookie secure
    ∷ ((if secure
          then record {
            name = insecure_proxy_session_cookie_name;
            value = [];
            path = codes "/";
            max_age = expired;
            secure = true;
            http_only = true;
            same_site = same_site_for_session_cookie secure;
          }
            ∷ []
          else [])
        ++ (clear_proxy_session_cookie false ∷ []))

unfoldable pub n8n_bridge_cookie : Bool → ℕ → Cookie
unfolding same_site_for_session_cookie
n8n_bridge_cookie secure max_age = record {
  name = n8n_bridge_cookie_name;
  value = codes "1";
  path = codes "/";
  max_age = seconds max_age;
  secure = secure;
  http_only = true;
  same_site = same_site_for_session_cookie secure;
}

unfoldable pub clear_n8n_bridge_cookie : Bool → Cookie
unfolding same_site_for_session_cookie
clear_n8n_bridge_cookie secure = record {
  name = n8n_bridge_cookie_name;
  value = [];
  path = codes "/";
  max_age = expired;
  secure = secure;
  http_only = true;
  same_site = same_site_for_session_cookie secure;
}

-- r.Cookies(), as net/http reads them from the request: names and values in order.
abbrev pub RequestCookies : Type 0
RequestCookies = List (Text × Text)

-- r.Cookie(name): the first cookie of that name.
unfoldable pub request_cookie : Text → RequestCookies → Option Text
unfolding ◌==◌
request_cookie name [] = none
request_cookie name ((n, v) ∷ cookies) = if n == name then some v else request_cookie name cookies

unfoldable pub has_n8n_bridge_cookie : RequestCookies → Bool
unfolding request_cookie
has_n8n_bridge_cookie cookies = elim (request_cookie n8n_bridge_cookie_name cookies) [
  | none ↦ false
  | some value ↦ value == codes "1"
]

unfoldable pub is_proxy_cookie_name : Text → Bool
unfolding ◌==◌
is_proxy_cookie_name name =
    name == proxy_session_cookie_name
    || (name == insecure_proxy_session_cookie_name || name == n8n_bridge_cookie_name)
