-- ===== src/Proxy.antt =====
-- internal/proxy/reverse_proxy.go, over httputil.ReverseProxy: what it does to a request on its way
-- to n8n and to the response on its way back.
pub mod Forwarded
pub mod Paths
pub mod Hops
pub mod Tests
use n8n_gw.Security.Rewrite.{rewrite_set_cookies}
use n8n_gw.Security.Sanitize.{sanitized_upstream_cookie_header}
use n8n_gw.Url.{Url}
use n8n_gw.Base.Case.{lower_byte}
use n8n_gw.Base.Space.{strip_all}
use n8n_gw.Base.{
  map, reverse, length, leb, ℕ, Text, codes, ◌==◌, has_prefix, has_suffix, ltb, if◌then◌else◌, Bool,
  true, false, not, ◌&&◌, ◌||◌, Option, none, some, List, [], ◌∷◌, ◌++◌, Dict, lookup, insert,
  remove, split, trim_space, equal_fold,
}

-- The fields of the outgoing request that the director reads or sets.
pub record Outgoing : Type 0 where
  pub scheme : Text
  pub url_host : Text
  pub path : Text
  pub host : Text
  pub remote_addr : Text
  pub has_tls : Bool
  pub headers : Dict Text

-- Header.Get, which is "" at a missing key.
abbrev pub or_empty : Option Text → Text
or_empty none = []
or_empty (some v) = v

abbrev pub header : Text → Outgoing → Text
header name r = or_empty (lookup name r.headers)

abbrev pub set : Text → Text → Outgoing → Outgoing
set name value r = record r { headers = insert name value r.headers }

abbrev pub del : Text → Outgoing → Outgoing
del name r = record r { headers = remove name r.headers }

unfoldable pub has_header_token : List Text → Text → Bool
unfolding equal_fold trim_space
has_header_token [] token = false
has_header_token (part ∷ parts) token =
    equal_fold (trim_space part) token || has_header_token parts token

unfoldable pub is_websocket_upgrade : Outgoing → Bool
unfolding has_header_token split equal_fold trim_space
is_websocket_upgrade r =
    equal_fold (trim_space (header (codes "Upgrade") r)) (codes "websocket")
    && has_header_token (split b',' (header (codes "Connection") r)) (codes "upgrade")

abbrev first_of : List Text → Text
first_of [] = []
first_of (part ∷ _) = part

unfoldable pub forwarded_proto : Outgoing → Text
unfolding split ◌==◌
forwarded_proto r =
    if header (codes "X-Forwarded-Proto") r == []
    then (if r.has_tls then codes "https" else codes "http")
    else first_of (split b',' (header (codes "X-Forwarded-Proto") r))

-- b[1:], of a text with a slash at its head.
abbrev pub rest_of : Text → Text
rest_of [] = []
rest_of (_ ∷ s) = s

unfoldable pub single_joining_slash : Text → Text → Text
unfolding has_suffix has_prefix
single_joining_slash a b =
    let a_slash = has_suffix a (codes "/") in
    let b_slash = has_prefix b (codes "/") in
    if a_slash && b_slash
    then a ++ rest_of b
    else if not a_slash && not b_slash
    then a ++ (codes "/" ++ b)
    else a ++ b

-- The cookies that the upstream sees.
unfoldable pub set_upstream_cookie : Outgoing → Outgoing
unfolding ◌==◌
set_upstream_cookie r =
    let cookie = sanitized_upstream_cookie_header (header (codes "Cookie") r) in
    if cookie == [] then del (codes "Cookie") r else set (codes "Cookie") cookie r

abbrev pub addressed : Url → Outgoing → Outgoing
addressed upstream r = record r {
  scheme = upstream.scheme;
  url_host = upstream.host;
  host = upstream.host;
  path =
      if not (upstream.path == []) && not (upstream.path == codes "/")
      then single_joining_slash upstream.path r.path
      else r.path;
}

-- The headers that httputil.ReverseProxy never passes on.
abbrev pub hop_headers : List Text
hop_headers =
    codes "Connection"
    ∷ codes "Proxy-Connection"
    ∷ codes "Keep-Alive"
    ∷ codes "Proxy-Authenticate"
    ∷ codes "Proxy-Authorization"
    ∷ codes "Te"
    ∷ codes "Trailer"
    ∷ codes "Transfer-Encoding"
    ∷ codes "Upgrade"
    ∷ []

abbrev blanks : List Text
blanks = (9 ∷ []) ∷ (10 ∷ []) ∷ (13 ∷ []) ∷ (32 ∷ []) ∷ []

-- textproto.TrimString
unfoldable pub trim_string : Text → Text
unfolding strip_all
trim_string s =
    let t = strip_all (length s) blanks s in reverse (strip_all (length t) blanks (reverse t))

-- A list of tokens has the token, without regard to the case of ASCII letters.
unfoldable pub has_token : List Text → Text → Bool
unfolding ◌==◌ trim_string
has_token [] token = false
has_token (part ∷ parts) token =
    map lower_byte (trim_string part) == map lower_byte token || has_token parts token

-- The names of a Dict of headers are canonical. A header is dropped if Connection names it, or if it
-- is one of hop_headers.
unfoldable pub is_dropped : Text → Text → Bool
unfolding has_token split
is_dropped connection name = has_token (split b',' connection) name || has_token hop_headers name

unfoldable pub end_to_end : Text → Dict Text → Dict Text
end_to_end connection [] = []
end_to_end connection ((name, value) ∷ rest) =
    if is_dropped connection name
    then end_to_end connection rest
    else (name, value) ∷ end_to_end connection rest

-- The protocol that the client asks to switch to.
unfoldable pub upgrade_type : Outgoing → Text
unfolding has_token split
upgrade_type r =
    if has_token (split b',' (header (codes "Connection") r)) (codes "Upgrade")
    then header (codes "Upgrade") r
    else []

-- ASCII without control characters.
unfoldable pub is_print : Text → Bool
is_print [] = true
is_print (c ∷ s) = leb b' ' c && leb c b'~' && is_print s

abbrev pub keep_te : Text → Outgoing → Outgoing
keep_te te r =
    if has_token (split b',' te) (codes "trailers")
    then set (codes "Te") (codes "trailers") r
    else r

abbrev pub keep_upgrade : Text → Outgoing → Outgoing
keep_upgrade protocol r =
    if protocol == []
    then r
    else set (codes "Upgrade") protocol (set (codes "Connection") (codes "Upgrade") r)

-- What httputil.ReverseProxy does to the headers behind the director.
unfoldable pub remove_hop_by_hop : Outgoing → Outgoing
remove_hop_by_hop r = keep_upgrade (upgrade_type r) (
    keep_te (header (codes "Te") r)
      (record r { headers = end_to_end (header (codes "Connection") r) r.headers }))

-- `split_host_port` is the host that net.SplitHostPort finds.
module _ (split_host_port : Text → Option Text) where
  unfoldable pub append_x_forwarded_for : Outgoing → Outgoing
  unfolding ◌==◌
  append_x_forwarded_for r =
      let client_ip = elim (split_host_port r.remote_addr) as (λ _. Text) [
        | some ip ↦ ip
        | none ↦ r.remote_addr
      ] in
      let prior = header (codes "X-Forwarded-For") r in
      if prior == []
      then set (codes "X-Forwarded-For") client_ip r
      else set (codes "X-Forwarded-For") (prior ++ (codes ", " ++ client_ip)) r

  -- The closure `director` of NewWithPublicBaseAndErrorCallback.
  unfoldable pub director : Url → Option Url → Outgoing → Outgoing
  director upstream public_base r =
      let original_host = elim public_base as (λ _. Text) [
        | none ↦ r.host
        | some base ↦ base.host
      ] in
      let original_scheme = elim public_base as (λ _. Text) [
        | none ↦ forwarded_proto r
        | some base ↦ base.scheme
      ] in
      set_upstream_cookie (
        append_x_forwarded_for (
          set (codes "X-Forwarded-Proto") original_scheme
            (set (codes "X-Forwarded-Host") original_host (addressed upstream r))))

  -- httputil.ReverseProxy adds the client's address to X-Forwarded-For, if the address parses.
  unfoldable pub proxy_forwarded_for : Outgoing → Outgoing
  proxy_forwarded_for r = elim (split_host_port r.remote_addr) [
    | none ↦ r
    | some ip ↦ elim (lookup (codes "X-Forwarded-For") r.headers) [
      | none ↦ set (codes "X-Forwarded-For") ip r
      | some prior ↦ set (codes "X-Forwarded-For") (prior ++ (codes ", " ++ ip)) r
    ]
  ]

  -- What ReverseProxy sends: behind the director come its own two changes.
  abbrev pub sent : Url → Option Url → Outgoing → Outgoing
  sent upstream public_base r =
      proxy_forwarded_for (remove_hop_by_hop (director upstream public_base r))

-- The response as ModifyResponse leaves it: the status and the Set-Cookie lines.
pub record Incoming : Type 0 where
  pub status : ℕ
  pub set_cookies : List Text

unfoldable pub modify_response : Bool → Incoming → Incoming
modify_response force_secure resp = record resp {
  set_cookies = rewrite_set_cookies resp.set_cookies force_secure;
}

-- A failed round trip: errors.Is(err, context.DeadlineExceeded), or another error.
pub data Failure : Type 0 where
  deadline_exceeded : Failure
  unreachable : Failure

unfoldable pub error_status : Failure → ℕ
error_status deadline_exceeded = 504
error_status unreachable = 502

pub data Outcome : Type 0 where
  replied : Incoming → Outcome
  broke : Failure → Outcome

-- ReverseProxy: timeouts are numbers of nanoseconds, and 0 also stands for what is below it.
pub record ReverseProxy : Type 0 where
  pub upstream : Url
  pub public_base : Option Url
  pub timeout : ℕ
  pub force_secure : Bool

-- The timeout of ServeHTTP's context, if it has one.
unfoldable pub deadline : ReverseProxy → Outgoing → Option ℕ
deadline p r =
    if is_websocket_upgrade r then none else if ltb 0 p.timeout then some p.timeout else none

module _ {W : Type 0} (split_host_port : Text → Option Text)
    (round_trip : Option ℕ → Outgoing → W → Outcome × W) where
  -- ServeHTTP: the response, and whether the error callback is called. A protocol that cannot be
  -- printed is an error before the round trip.
  unfoldable pub serve : ReverseProxy → Outgoing → W → (Incoming × Bool) × W
  serve p r w =
      let directed = director split_host_port p.upstream p.public_base r in
      let request = proxy_forwarded_for split_host_port (remove_hop_by_hop directed) in
      let got =
        if is_print (upgrade_type directed)
        then round_trip (deadline p r) request w
        else (broke unreachable, w) in
      elim got.0 [
        | replied resp ↦ ((modify_response p.force_secure resp, false), got.1)
        | broke e ↦ ((record { status = error_status e; set_cookies = [] }, true), got.1)
      ]

-- BodyLimitMiddleware: the limit that is put on the body, if there is one.
unfoldable pub body_limit : ℕ → Bool → Option ℕ
body_limit limit has_body = if ltb 0 limit && has_body then some limit else none
