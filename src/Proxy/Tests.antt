-- ===== src/Proxy/Tests.antt =====
-- The proxy at a concrete request.
use n8n_gw.Proxy.{Outgoing, header, set, is_dropped, has_token}
use n8n_gw.Proxy.Forwarded.{is_set}
use n8n_gw.Proxy.Hops.{to_n8n, drops, is_restored, sent_lem, forwarded_for_twice}
use n8n_gw.Security.Sanitize.{sanitized_upstream_cookie_header}
use n8n_gw.Url.{Url}
use n8n_gw.Base.{
  ◌≡◌, refl, Text, codes, ◌==◌, if◌then◌else◌, false, Option, none, some, [], ◌∷◌, ◌++◌, lookup,
  insert,
}

abbrev n8n : Url
n8n = record {
  scheme = codes "http";
  opaque = [];
  host = codes "n8n:5678";
  path = codes "/";
  force_query = false;
  raw_query = [];
}

abbrev public_url : Url
public_url = record n8n { scheme = codes "https"; host = codes "n8n.example.org" }

abbrev request : Outgoing
request = record {
  scheme = [];
  url_host = [];
  path = codes "/rest/login";
  host = codes "n8n.example.org";
  remote_addr = codes "10.0.0.1:9";
  has_tls = false;
  headers =
      (codes "X-Forwarded-Host", codes "evil.example")
      ∷ (codes "Cookie", codes "n8np_session=s; a=1")
      ∷ [];
}

abbrev split_host_port : Text → Option Text
split_host_port s = some (codes "10.0.0.1")

sent_lem_example :
    let at_n8n = to_n8n split_host_port n8n public_url request in
    let dropped = drops split_host_port n8n public_url request in
    (at_n8n.scheme ≡ codes "http")
    × (at_n8n.host ≡ codes "n8n:5678")
    × (at_n8n.url_host ≡ codes "n8n:5678")
    × (lookup (codes "X-Forwarded-Host") at_n8n.headers
        ≡ (if dropped (codes "X-Forwarded-Host") then none else some (codes "n8n.example.org")))
    × (lookup (codes "X-Forwarded-Proto") at_n8n.headers
        ≡ (if dropped (codes "X-Forwarded-Proto") then none else some (codes "https")))
    × (lookup (codes "Cookie") at_n8n.headers ≡ (
        let cookie = sanitized_upstream_cookie_header (header (codes "Cookie") request) in
        if dropped (codes "Cookie") then none else if cookie == [] then none else some cookie))
    × ((name : Text)
        → is_set split_host_port n8n public_url request name ≡ false
        → is_restored name ≡ false
        → lookup name at_n8n.headers ≡ (if dropped name then none else lookup name request.headers))
sent_lem_example = sent_lem split_host_port n8n public_url request

-- A request that names X-Forwarded-Host in Connection does not bring the public host to n8n.
hidden_host :
    (lookup
      (codes "X-Forwarded-Host")
      (to_n8n split_host_port n8n public_url
        (set (codes "Connection") (codes "close, x-forwarded-host") request)).headers)
    ≡ none
unfolding is_dropped has_token lookup insert
hidden_host =
    let (_, _, _, hidden, _, _, _) =
      sent_lem split_host_port n8n public_url
        (set (codes "Connection") (codes "close, x-forwarded-host") request) in
    hidden

forwarded_for_twice_example :
    lookup (codes "X-Forwarded-For") (to_n8n split_host_port n8n public_url request).headers
    ≡ some (
        if drops split_host_port n8n public_url request (codes "X-Forwarded-For")
        then codes "10.0.0.1"
        else (if header (codes "X-Forwarded-For") request == []
            then codes "10.0.0.1"
            else header (codes "X-Forwarded-For") request ++ (codes ", " ++ codes "10.0.0.1"))
          ++ (codes ", " ++ codes "10.0.0.1"))
forwarded_for_twice_example =
    forwarded_for_twice split_host_port n8n public_url request (codes "10.0.0.1") refl
