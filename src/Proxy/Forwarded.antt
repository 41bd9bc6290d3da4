-- ===== src/Proxy/Forwarded.antt =====
-- internal/proxy/reverse_proxy.go: the headers as the director leaves them.
use n8n_gw.Proxy.{
  Outgoing, or_empty, header, set, append_x_forwarded_for, set_upstream_cookie, director, addressed,
}
use n8n_gw.Security.Sanitize.{sanitized_upstream_cookie_header}
use n8n_gw.Url.{Url}
use n8n_gw.Base.{
  ◌≡◌, refl, inl, inr, ap, ◌∙◌, Text, codes, ◌==◌, eq_iff, if◌then◌else◌, Bool, false, ◌||◌, Option,
  none, some, [], ◌++◌, lookup, lookup-insert, lookup-remove, Bool-cases, arith,
}

-- A header after a change, by its name.
header-set :
    (name at value : Text) (r : Outgoing)
    → lookup at (set name value r).headers
      ≡ (if name == at then some value else lookup at r.headers)
header-set name at value r = lookup-insert name at value r.headers

pub header_beside :
    (name at value : Text) (r : Outgoing)
    → name == at ≡ false
    → lookup at (set name value r).headers ≡ lookup at r.headers
header_beside name at value r other = ground (arith, header-set name at value r)

pub header_here :
    (name value : Text) (r : Outgoing) → lookup name (set name value r).headers ≡ some value
header_here name value r = ground (arith, header-set name name value r, eq_iff name name)

abbrev Same : Outgoing → Outgoing → Type 0
Same r t =
    (r.scheme ≡ t.scheme)
    × (r.host ≡ t.host)
    × (r.url_host ≡ t.url_host)
    × (r.remote_addr ≡ t.remote_addr)

module _ (split_host_port : Text → Option Text) (r : Outgoing) where
  append_x_forwarded_for-Same : Same (append_x_forwarded_for split_host_port r) r
  unfolding append_x_forwarded_for
  append_x_forwarded_for-Same = elim (Bool-cases (header (codes "X-Forwarded-For") r == [])) [
    | inl first ↦ rw first (refl, refl, refl, refl)
    | inr more ↦ rw more (refl, refl, refl, refl)
  ]

  append_x_forwarded_for-lookup :
      (at : Text)
      → codes "X-Forwarded-For" == at ≡ false
      → lookup at (append_x_forwarded_for split_host_port r).headers ≡ lookup at r.headers
  unfolding append_x_forwarded_for
  append_x_forwarded_for-lookup at other =
      elim (Bool-cases (header (codes "X-Forwarded-For") r == [])) [
        | inl first ↦ rw first (header_beside (codes "X-Forwarded-For") at _ r other)
        | inr more ↦ rw more (header_beside (codes "X-Forwarded-For") at _ r other)
      ]

abbrev shown : Text → Option Text
shown cookie = if cookie == [] then none else some cookie

module _ (r : Outgoing) where
  set_upstream_cookie-Same : Same (set_upstream_cookie r) r
  unfolding set_upstream_cookie
  set_upstream_cookie-Same =
      elim (Bool-cases (sanitized_upstream_cookie_header (header (codes "Cookie") r) == [])) [
        | inl first ↦ rw first (refl, refl, refl, refl)
        | inr more ↦ rw more (refl, refl, refl, refl)
      ]

  set_upstream_cookie-lookup :
      (at : Text)
      → lookup at (set_upstream_cookie r).headers ≡ (
          if codes "Cookie" == at
          then shown (sanitized_upstream_cookie_header (header (codes "Cookie") r))
          else lookup at r.headers)
  unfolding set_upstream_cookie
  set_upstream_cookie-lookup at =
      let cookie = sanitized_upstream_cookie_header (header (codes "Cookie") r) in
      elim (Bool-cases (cookie == [])) [
        | inl first ↦ rw first (lookup-remove (codes "Cookie") at r.headers)
        | inr more ↦ rw more (header-set (codes "Cookie") at cookie r)
      ]

module _ (split_host_port : Text → Option Text) (upstream base : Url) (r : Outgoing) where
  abbrev pub directed : Outgoing
  directed = director split_host_port upstream (some base) r

  -- The headers that the director sets or removes.
  abbrev pub is_set : Text → Bool
  is_set name =
      codes "X-Forwarded-Host" == name
      || (codes "X-Forwarded-Proto" == name
          || (codes "X-Forwarded-For" == name || codes "Cookie" == name))

  abbrev before_cookie : Outgoing
  before_cookie = append_x_forwarded_for split_host_port (
      set (codes "X-Forwarded-Proto") base.scheme
        (set (codes "X-Forwarded-Host") base.host (addressed upstream r)))

  untouched :
      (at : Text)
      → codes "X-Forwarded-Host" == at ≡ false
      → codes "X-Forwarded-Proto" == at ≡ false
      → codes "X-Forwarded-For" == at ≡ false
      → lookup at before_cookie.headers ≡ lookup at r.headers
  untouched at host proto chain =
      let s1 = set (codes "X-Forwarded-Host") base.host (addressed upstream r) in
      let s2 = set (codes "X-Forwarded-Proto") base.scheme s1 in
      append_x_forwarded_for-lookup split_host_port s2 at chain
      ∙ (header_beside (codes "X-Forwarded-Proto") at base.scheme s1 proto
          ∙ header_beside (codes "X-Forwarded-Host") at base.host (addressed upstream r) host)

  beside_all :
      (name : Text)
      → is_set name ≡ false
      → lookup name (set_upstream_cookie before_cookie).headers ≡ lookup name r.headers
  beside_all name other =
      ground (arith, set_upstream_cookie-lookup before_cookie name, untouched name)

  -- The director with a public base URL.
  pub director_lem :
      (directed.scheme ≡ upstream.scheme)
      × (directed.host ≡ upstream.host)
      × (directed.url_host ≡ upstream.host)
      × (lookup (codes "X-Forwarded-Host") directed.headers ≡ some base.host)
      × (lookup (codes "X-Forwarded-Proto") directed.headers ≡ some base.scheme)
      × (lookup (codes "Cookie") directed.headers ≡ (
          let cookie = sanitized_upstream_cookie_header (header (codes "Cookie") r) in
          if cookie == [] then none else some cookie))
      × ((name : Text) → is_set name ≡ false → lookup name directed.headers ≡ lookup name r.headers)
  unfolding director ◌==◌
  director_lem =
      let s1 = set (codes "X-Forwarded-Host") base.host (addressed upstream r) in
      let s2 = set (codes "X-Forwarded-Proto") base.scheme s1 in
      let s3 = append_x_forwarded_for split_host_port s2 in
      let (scheme, host, url_host, _) = append_x_forwarded_for-Same split_host_port s2 in
      let (scheme', host', url_host', _) = set_upstream_cookie-Same s3 in
      (
        scheme' ∙ scheme,
        host' ∙ host,
        url_host' ∙ url_host,
        set_upstream_cookie-lookup s3 (codes "X-Forwarded-Host")
            ∙ (append_x_forwarded_for-lookup split_host_port s2 (codes "X-Forwarded-Host") refl
                ∙ (header_beside (codes "X-Forwarded-Proto") (codes "X-Forwarded-Host") base.scheme
                      s1 refl
                    ∙ header_here (codes "X-Forwarded-Host") base.host (addressed upstream r))),
        set_upstream_cookie-lookup s3 (codes "X-Forwarded-Proto")
            ∙ (append_x_forwarded_for-lookup split_host_port s2 (codes "X-Forwarded-Proto") refl
                ∙ header_here (codes "X-Forwarded-Proto") base.scheme s1),
        set_upstream_cookie-lookup s3 (codes "Cookie")
            ∙ ap (λ o. shown (sanitized_upstream_cookie_header (or_empty o)))
                (untouched (codes "Cookie") refl refl refl),
        beside_all,
      )

module _ (split_host_port : Text → Option Text) (ip : Text) where
  append_x_forwarded_for-here :
      (r : Outgoing)
      → split_host_port r.remote_addr ≡ some ip
      → lookup (codes "X-Forwarded-For") (append_x_forwarded_for split_host_port r).headers
        ≡ some (
            if header (codes "X-Forwarded-For") r == []
            then ip
            else header (codes "X-Forwarded-For") r ++ (codes ", " ++ ip))
  unfolding append_x_forwarded_for
  append_x_forwarded_for-here r parses =
      elim (Bool-cases (header (codes "X-Forwarded-For") r == [])) [
        | inl first ↦ rw (first, parses) (header_here (codes "X-Forwarded-For") ip r)
        | inr more ↦ rw (more, parses) (header_here (codes "X-Forwarded-For") _ r)
      ]

  -- The director ends X-Forwarded-For in the address.
  pub director-forwarded_for :
      (upstream base : Url) (r : Outgoing)
      → split_host_port r.remote_addr ≡ some ip
      → (lookup (codes "X-Forwarded-For") (directed split_host_port upstream base r).headers
          ≡ some (
              if header (codes "X-Forwarded-For") r == []
              then ip
              else header (codes "X-Forwarded-For") r ++ (codes ", " ++ ip)))
        × ((directed split_host_port upstream base r).remote_addr ≡ r.remote_addr)
  unfolding director ◌==◌
  director-forwarded_for upstream base r parses =
      let s1 = set (codes "X-Forwarded-Host") base.host (addressed upstream r) in
      let s2 = set (codes "X-Forwarded-Proto") base.scheme s1 in
      let s3 = append_x_forwarded_for split_host_port s2 in
      let (_, _, _, at) = append_x_forwarded_for-Same split_host_port s2 in
      let (_, _, _, at') = set_upstream_cookie-Same s3 in
      let same =
        header_beside (codes "X-Forwarded-Proto") (codes "X-Forwarded-For") base.scheme s1 refl
        ∙ header_beside (codes "X-Forwarded-Host") (codes "X-Forwarded-For") base.host
            (addressed upstream r) refl in
      let chain = λ (o : Option Text).
        some (if or_empty o == [] then ip else or_empty o ++ (codes ", " ++ ip)) in
      (
        set_upstream_cookie-lookup s3 (codes "X-Forwarded-For")
            ∙ (append_x_forwarded_for-here s2 parses ∙ ap chain same),
        at' ∙ at,
      )
