-- ===== src/Proxy/Hops.antt =====
-- internal/proxy/reverse_proxy.go over httputil.ReverseProxy: the headers that n8n gets.
use n8n_gw.Proxy.{
  Outgoing, header, or_empty, set, proxy_forwarded_for, sent, has_token, is_dropped, end_to_end,
  upgrade_type, keep_te, keep_upgrade, remove_hop_by_hop,
}
use n8n_gw.Proxy.Forwarded.{
  directed, is_set, director_lem, director-forwarded_for, header_beside, header_here,
}
use n8n_gw.Security.Sanitize.{sanitized_upstream_cookie_header}
use n8n_gw.Url.{Url}
use n8n_gw.Base.{
  ◌≡◌, ◌∙◌, ap, refl, inl, inr, Text, codes, ◌==◌, eq_iff, if◌then◌else◌, Bool, false, ◌||◌, Option,
  none, some, [], ◌∷◌, ◌++◌, Dict, lookup, split, Bool-cases, Option-cases, arith,
}

end_to_end-lookup :
    (connection at : Text) (m : Dict Text)
    → lookup at (end_to_end connection m) ≡ (if is_dropped connection at then none else lookup at m)
unfolding end_to_end lookup
end_to_end-lookup connection at [] = ground arith
end_to_end-lookup connection at ((name, value) ∷ rest) = elim (Bool-cases (name == at)) [
  | inl same ↦
      rw ((eq_iff name at).0 same)
        (ground (arith, end_to_end-lookup connection at rest, eq_iff at at))
  | inr other ↦ ground (arith, end_to_end-lookup connection at rest)
]

-- The headers that ReverseProxy may set again.
abbrev pub is_restored : Text → Bool
is_restored name = codes "Te" == name || (codes "Connection" == name || codes "Upgrade" == name)

or_falses : (a b : Bool) → a || b ≡ false → (a ≡ false) × (b ≡ false)
or_falses a b h = ground arith

-- The two requests agree on the header and on where they go.
abbrev Agree : Text → Outgoing → Outgoing → Type 0
Agree at r t =
    (lookup at r.headers ≡ lookup at t.headers)
    × (r.host ≡ t.host)
    × (r.url_host ≡ t.url_host)
    × (r.scheme ≡ t.scheme)
    × (r.remote_addr ≡ t.remote_addr)

module _ (r : Outgoing) (at : Text) where
  keep_te-Agree : (te : Text) → codes "Te" == at ≡ false → Agree at (keep_te te r) r
  keep_te-Agree te other = elim (Bool-cases (has_token (split b',' te) (codes "trailers"))) [
    | inl some_te ↦ rw some_te (header_beside (codes "Te") at _ r other, refl, refl, refl, refl)
    | inr no_te ↦ rw no_te (refl, refl, refl, refl, refl)
  ]

  keep_upgrade-Agree :
      (protocol : Text)
      → codes "Connection" == at ≡ false
      → codes "Upgrade" == at ≡ false
      → Agree at (keep_upgrade protocol r) r
  keep_upgrade-Agree protocol no_connection no_upgrade = elim (Bool-cases (protocol == [])) [
    | inl stays ↦ rw stays (refl, refl, refl, refl, refl)
    | inr switches ↦ rw switches (
      header_beside (codes "Upgrade") at _ (set (codes "Connection") (codes "Upgrade") r) no_upgrade
          ∙ header_beside (codes "Connection") at _ r no_connection,
      refl,
      refl,
      refl,
      refl,
    )
  ]

module _ (r : Outgoing) (at : Text) where
  remove_hop_by_hop-lookup :
      codes "Te" == at ≡ false
      → codes "Connection" == at ≡ false
      → codes "Upgrade" == at ≡ false
      → (lookup at (remove_hop_by_hop r).headers
          ≡ (if is_dropped (header (codes "Connection") r) at then none else lookup at r.headers))
        × ((remove_hop_by_hop r).host ≡ r.host)
        × ((remove_hop_by_hop r).url_host ≡ r.url_host)
        × ((remove_hop_by_hop r).scheme ≡ r.scheme)
        × ((remove_hop_by_hop r).remote_addr ≡ r.remote_addr)
  unfolding remove_hop_by_hop
  remove_hop_by_hop-lookup no_te no_connection no_upgrade =
      let connection = header (codes "Connection") r in
      let bare : Outgoing = record r { headers = end_to_end connection r.headers } in
      let te = keep_te (header (codes "Te") r) bare in
      let (l, h, u, c, a) = keep_upgrade-Agree te at (upgrade_type r) no_connection no_upgrade in
      let (l', h', u', c', a') = keep_te-Agree bare at (header (codes "Te") r) no_te in
      (l ∙ (l' ∙ end_to_end-lookup connection at r.headers), h ∙ h', u ∙ u', c ∙ c', a ∙ a')

-- The headers beside X-Forwarded-For, behind httputil.ReverseProxy.
module _ (split_host_port : Text → Option Text) (r : Outgoing) where
  proxy_forwarded_for-lookup :
      (at : Text)
      → codes "X-Forwarded-For" == at ≡ false
      → lookup at (proxy_forwarded_for split_host_port r).headers ≡ lookup at r.headers
  unfolding proxy_forwarded_for
  proxy_forwarded_for-lookup at other = elim (Option-cases (split_host_port r.remote_addr)) [
    | inl unknown ↦ rw (unknown, proxy_forwarded_for) refl
    | inr (ip, parses) ↦ elim (Option-cases (lookup (codes "X-Forwarded-For") r.headers)) [
      | inl first ↦
          rw (parses, first, proxy_forwarded_for)
            (header_beside (codes "X-Forwarded-For") at _ r other)
      | inr (prior, there) ↦
          rw (parses, there, proxy_forwarded_for)
            (header_beside (codes "X-Forwarded-For") at _ r other)
    ]
  ]

  proxy_forwarded_for-address :
      ((proxy_forwarded_for split_host_port r).host ≡ r.host)
      × ((proxy_forwarded_for split_host_port r).url_host ≡ r.url_host)
      × ((proxy_forwarded_for split_host_port r).scheme ≡ r.scheme)
  unfolding proxy_forwarded_for
  proxy_forwarded_for-address = ground arith

module _ (split_host_port : Text → Option Text) (upstream base : Url) (r : Outgoing) where
  abbrev pub to_n8n : Outgoing
  to_n8n = sent split_host_port upstream (some base) r

  -- The request's own Connection header decides what is dropped.
  abbrev pub drops : Text → Bool
  drops name = is_dropped (header (codes "Connection") r) name

  connection_kept :
      header (codes "Connection") (directed split_host_port upstream base r)
      ≡ header (codes "Connection") r
  unfolding ◌==◌
  connection_kept =
      let (_, _, _, _, _, _, rest) = director_lem split_host_port upstream base r in
      ap or_empty (rest (codes "Connection") refl)

  pub upgrade_type-directed :
      upgrade_type (directed split_host_port upstream base r) ≡ upgrade_type r
  unfolding upgrade_type ◌==◌
  upgrade_type-directed =
      let (_, _, _, _, _, _, rest) = director_lem split_host_port upstream base r in
      let switch : Option Text → Option Text → Text =
        λ c u. if has_token (split b',' (or_empty c)) (codes "Upgrade") then or_empty u else [] in
      ap
        (λ c.
          switch c (lookup (codes "Upgrade") (directed split_host_port upstream base r).headers))
        (rest (codes "Connection") refl)
      ∙ ap (switch (lookup (codes "Connection") r.headers)) (rest (codes "Upgrade") refl)

  -- A header that neither ReverseProxy restores nor carries the client's address.
  arrives :
      (at : Text)
      → codes "Te" == at ≡ false
      → codes "Connection" == at ≡ false
      → codes "Upgrade" == at ≡ false
      → codes "X-Forwarded-For" == at ≡ false
      → lookup at to_n8n.headers
        ≡ (if drops at then none else lookup at (directed split_host_port upstream base r).headers)
  arrives at no_te no_connection no_upgrade no_chain =
      let d = directed split_host_port upstream base r in
      let (kept, _, _, _, _) = remove_hop_by_hop-lookup d at no_te no_connection no_upgrade in
      proxy_forwarded_for-lookup split_host_port (remove_hop_by_hop d) at no_chain
      ∙ (kept
          ∙ ap
              (λ c.
                if is_dropped c at
                then none
                else lookup at (directed split_host_port upstream base r).headers)
              connection_kept)

  -- With a public base URL, n8n is addressed by its own scheme and host. Of all headers but
  -- X-Forwarded-For, Te, Connection and Upgrade, those that the client's Connection header names and those
  -- of one hop do not arrive, also if they are X-Forwarded-Host, X-Forwarded-Proto or Cookie. If these
  -- three arrive, they are the host and the scheme of the public URL whatever the client sent, and the
  -- sanitized cookies; the others arrive as the client sent them.
  pub sent_lem :
      (to_n8n.scheme ≡ upstream.scheme)
      × (to_n8n.host ≡ upstream.host)
      × (to_n8n.url_host ≡ upstream.host)
      × (lookup (codes "X-Forwarded-Host") to_n8n.headers
          ≡ (if drops (codes "X-Forwarded-Host") then none else some base.host))
      × (lookup (codes "X-Forwarded-Proto") to_n8n.headers
          ≡ (if drops (codes "X-Forwarded-Proto") then none else some base.scheme))
      × (lookup (codes "Cookie") to_n8n.headers ≡ (
          let cookie = sanitized_upstream_cookie_header (header (codes "Cookie") r) in
          if drops (codes "Cookie") then none else if cookie == [] then none else some cookie))
      × ((name : Text)
          → is_set split_host_port upstream base r name ≡ false
          → is_restored name ≡ false
          → lookup name to_n8n.headers ≡ (if drops name then none else lookup name r.headers))
  unfolding ◌==◌
  sent_lem =
      let d = directed split_host_port upstream base r in
      let (scheme, host, url_host, named, proto, cookie, rest) =
        director_lem split_host_port upstream base r in
      let (_, h, u, c, _) = remove_hop_by_hop-lookup d (codes "Cookie") refl refl refl in
      let (h', u', c') = proxy_forwarded_for-address split_host_port (remove_hop_by_hop d) in
      (
        c' ∙ (c ∙ scheme),
        h' ∙ (h ∙ host),
        u' ∙ (u ∙ url_host),
        rw (← named) (arrives (codes "X-Forwarded-Host") refl refl refl refl),
        rw (← proto) (arrives (codes "X-Forwarded-Proto") refl refl refl refl),
        rw (← cookie) (arrives (codes "Cookie") refl refl refl refl),
        λ name other own.
            let (no_te, own') = or_falses (codes "Te" == name) _ own in
            let (no_connection, no_upgrade) =
              or_falses (codes "Connection" == name) (codes "Upgrade" == name) own' in
            let (_, other') = or_falses (codes "X-Forwarded-Host" == name) _ other in
            let (_, other'') = or_falses (codes "X-Forwarded-Proto" == name) _ other' in
            let (no_chain, _) =
              or_falses (codes "X-Forwarded-For" == name) (codes "Cookie" == name) other'' in
            arrives name no_te no_connection no_upgrade no_chain
            ∙ ap (λ o. if drops name then none else o) (rest name other),
      )

abbrev chained : Text → Option Text → Text
chained ip none = ip
chained ip (some prior) = prior ++ (codes ", " ++ ip)

proxy_forwarded_for-here :
    (split_host_port : Text → Option Text) (ip : Text) (r : Outgoing)
    → split_host_port r.remote_addr ≡ some ip
    → lookup (codes "X-Forwarded-For") (proxy_forwarded_for split_host_port r).headers
      ≡ some (chained ip (lookup (codes "X-Forwarded-For") r.headers))
unfolding proxy_forwarded_for
proxy_forwarded_for-here split_host_port ip r parses =
    elim (Option-cases (lookup (codes "X-Forwarded-For") r.headers)) [
      | inl first ↦
          rw (parses, first, proxy_forwarded_for) (header_here (codes "X-Forwarded-For") _ r)
      | inr (prior, there) ↦
          rw (parses, there, proxy_forwarded_for) (header_here (codes "X-Forwarded-For") _ r)
    ]

-- X-Forwarded-For holds the address of the client, if it parses, twice behind what the client sent:
-- once from the director and once from httputil.ReverseProxy. If the client's Connection header names
-- X-Forwarded-For, what the director has set is dropped, and the address stands there alone.
pub forwarded_for_twice :
    (split_host_port : Text → Option Text) (upstream base : Url) (r : Outgoing) (ip : Text)
    → split_host_port r.remote_addr ≡ some ip
    → lookup (codes "X-Forwarded-For") (to_n8n split_host_port upstream base r).headers
      ≡ some (
          if drops split_host_port upstream base r (codes "X-Forwarded-For")
          then ip
          else (if header (codes "X-Forwarded-For") r == []
              then ip
              else header (codes "X-Forwarded-For") r ++ (codes ", " ++ ip))
            ++ (codes ", " ++ ip))
unfolding ◌==◌
forwarded_for_twice split_host_port upstream base r ip parses =
    let d = directed split_host_port upstream base r in
    let dropped = drops split_host_port upstream base r (codes "X-Forwarded-For") in
    let (chain, at) = director-forwarded_for split_host_port ip upstream base r parses in
    let (kept, _, _, _, at') =
      remove_hop_by_hop-lookup d (codes "X-Forwarded-For") refl refl refl in
    let there =
      kept
      ∙ (ap
            (λ c.
              if is_dropped c (codes "X-Forwarded-For")
              then none
              else lookup (codes "X-Forwarded-For") d.headers)
            (connection_kept split_host_port upstream base r)
          ∙ ap (λ o. if dropped then none else o) chain) in
    proxy_forwarded_for-here split_host_port ip (remove_hop_by_hop d)
      (ap split_host_port (at' ∙ at) ∙ parses)
    ∙ (ap (λ o. some (chained ip o)) there
        ∙ (elim (Bool-cases dropped) [ inl yes_it ↦ rw yes_it refl | inr no_it ↦ rw no_it refl ]))
