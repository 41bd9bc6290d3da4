-- ===== src/N8n.antt =====
-- internal/n8n/client.go, over the HTTP client.
pub mod Outcome
pub mod Fake
pub mod Tests
use n8n_gw.Url.{Url}
use n8n_gw.Vault.Paths.{trim_slashes_left}
use n8n_gw.Base.{
  ℕ, Text, codes, ◌==◌, nat_eq, ltb, leb, if◌then◌else◌, Bool, true, false, ◌||◌, Option, none,
  some, List, [], ◌∷◌, ◌++◌, Dict, lookup, insert, to_lower, contains, reverse,
}

pub data LoginError : Type 0 where
  invalid_credential : LoginError
  mfa_required : LoginError
  rate_limited : LoginError
  no_session_cookie : LoginError
  failed : Text → LoginError

pub record LoginResult : Type 0 where
  pub status_code : ℕ
  pub body : Text
  pub cookies : List Text

pub record CurrentUserResult : Type 0 where
  pub status_code : ℕ
  pub body : Text
  pub cookies : List Text
  pub content_type : Text

pub record LogoutResult : Type 0 where
  pub status_code : ℕ
  pub cookies : List Text

pub data Login : Type 0 where
  logged_in : LoginResult → Login
  refused : LoginError → Login

-- The interface. A logout gives its cookies also where it fails; the Boolean says that it succeeds.
pub record N8nClient (W : Type 0) : Type 0 where
  pub login : Text → Text → Dict Text → W → Login × W
  pub current_user : Text → W → Option CurrentUserResult × W
  pub logout : Text → W → (LogoutResult × Bool) × W
  pub ping : W → Bool × W

-- The upstream's answer, with the body up to the limit of io.LimitReader.
pub record HttpResponse : Type 0 where
  pub status_code : ℕ
  pub body : Text
  pub set_cookies : List Text
  pub content_type : Text

-- A request: method, path below the upstream, headers and body; `none` is a transport error.
pub record HttpClient (W : Type 0) : Type 0 where
  pub do_request : Text → Text → Dict Text → Text → W → Option HttpResponse × W

-- The transport of net/http: the timeout in nanoseconds, the method, the URL, the headers and the body.
abbrev pub Transport : Type 0 → Type 0
Transport W = ℕ → Text → Url → Dict Text → Text → W → Option HttpResponse × W

-- strings.TrimRight(s, "/")
unfoldable pub trim_slashes_right : Text → Text
unfolding trim_slashes_left
trim_slashes_right s = reverse (trim_slashes_left (reverse s))

-- The URL of a path below the upstream.
unfoldable pub join : Url → Text → Url
unfolding trim_slashes_right
join upstream path = record upstream {
  path = trim_slashes_right upstream.path ++ path;
  raw_query = [];
}

abbrev pub new_client : {W : Type 0} → Transport W → Url → ℕ → HttpClient W
new_client send upstream timeout = record {
  do_request = λ method path headers body. send timeout method (join upstream path) headers body;
}

unfoldable pub looks_like_mfa : Text → Bool
unfolding to_lower contains
looks_like_mfa body =
    let lower = to_lower body in contains lower (codes "mfa") || contains lower (codes "998")

unfoldable pub login_outcome : HttpResponse → Login
unfolding looks_like_mfa
login_outcome resp =
    if nat_eq resp.status_code 429
    then refused rate_limited
    else if nat_eq resp.status_code 400 || nat_eq resp.status_code 401
    then (if looks_like_mfa resp.body then refused mfa_required else refused invalid_credential)
    else if ltb resp.status_code 200 || ltb 299 resp.status_code
    then refused (failed (codes "n8n login failed"))
    else elim resp.set_cookies [
      | [] ↦ refused no_session_cookie
      | _ ∷ _ ↦
          logged_in (record {
            status_code = resp.status_code;
            body = resp.body;
            cookies = resp.set_cookies;
          })
    ]

abbrev copied : List Text
copied =
    codes "User-Agent"
    ∷ codes "Accept-Language"
    ∷ codes "X-Forwarded-For"
    ∷ codes "X-Forwarded-Host"
    ∷ codes "X-Forwarded-Proto"
    ∷ codes "X-Real-IP"
    ∷ []

-- One source of copyLoginHeaders.
unfoldable pub copy_headers : List Text → Dict Text → Dict Text → Dict Text
unfolding lookup insert ◌==◌
copy_headers [] source dst = dst
copy_headers (name ∷ names) source dst =
    copy_headers names source (elim (lookup name source) [
      | none ↦ dst
      | some v ↦ if v == [] then dst else insert name v dst
    ])

unfoldable pub copy_login_headers : Dict Text → Dict Text → Dict Text
unfolding copy_headers
copy_login_headers dst source = copy_headers copied source dst

abbrev with_cookie : Text → Dict Text → Dict Text
with_cookie cookie headers =
    if cookie == [] then headers else insert (codes "Cookie") cookie headers

-- `login_body` is the JSON of the two texts.
module _ {W : Type 0} (client : HttpClient W) (login_body : Text → Text → Text) where
  unfoldable pub login : Text → Text → Dict Text → W → Login × W
  unfolding copy_login_headers login_outcome
  login id password headers w =
      let json =
        (codes "Content-Type", codes "application/json")
        ∷ (codes "Accept", codes "application/json")
        ∷ [] in
      let (answer, w') =
        client.do_request (codes "POST") (codes "/rest/login") (copy_login_headers json headers)
          (login_body id password) w in
      elim answer [
        | none ↦ (refused (failed (codes "send n8n login request")), w')
        | some resp ↦ (login_outcome resp, w')
      ]

  unfoldable pub current_user : Text → W → Option CurrentUserResult × W
  unfolding ◌==◌ insert
  current_user cookie w =
      let (answer, w') =
        client.do_request (codes "GET") (codes "/rest/login")
          (with_cookie cookie ((codes "Accept", codes "application/json") ∷ [])) [] w in
      elim answer [
        | none ↦ (none, w')
        | some resp ↦ (
          some (record {
            status_code = resp.status_code;
            body = resp.body;
            cookies = resp.set_cookies;
            content_type = resp.content_type;
          }),
          w',
        )
      ]

  unfoldable pub logout : Text → W → (LogoutResult × Bool) × W
  unfolding ◌==◌ insert
  logout cookie w =
      let (answer, w') =
        client.do_request (codes "POST") (codes "/rest/logout") (with_cookie cookie []) [] w in
      elim answer [
        | none ↦ ((record { status_code = 0; cookies = [] }, false), w')
        | some resp ↦ (
          (
            record { status_code = resp.status_code; cookies = resp.set_cookies },
            ltb resp.status_code 500,
          ),
          w',
        )
      ]

  abbrev is_up : Option HttpResponse → Bool
  is_up none = false
  is_up (some resp) = ltb resp.status_code 500

  -- /healthz first, and the root if that does not answer well.
  unfoldable pub ping : W → Bool × W
  ping w =
      let (health, w') = client.do_request (codes "GET") (codes "/healthz") [] [] w in
      let (root, w'') = client.do_request (codes "GET") (codes "/") [] [] w' in
      if is_up health then (true, w') else (is_up root, w'')

  abbrev pub http_n8n : N8nClient W
  http_n8n = record { login = login; current_user = current_user; logout = logout; ping = ping }
