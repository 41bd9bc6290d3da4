-- ===== src/Server/Forwarding.antt =====
-- server.go: the headers that depend on the client's address, and the request id.
use n8n_gw.Server.State.{Request, value_of}
use n8n_gw.Server.Deps.{Net, Config}
use n8n_gw.Base.{
  Text, codes, ◌==◌, if◌then◌else◌, Bool, true, false, not, ◌||◌, none, some, List, [], ◌∷◌, Dict,
  insert, remove,
}

abbrev has_none {ℓ} : {A : Type ℓ} → List A → Bool
has_none [] = true
has_none (_ ∷ _) = false

module _ (net : Net) where
  unfoldable pub remote_ip : Text → Text
  remote_ip remote_addr = elim (net.split_host_port remote_addr) [
    | some host ↦ host
    | none ↦ remote_addr
  ]

  -- A range that does not parse is passed over.
  unfoldable pub any_contains : List Text → Text → Bool
  any_contains [] ip = false
  any_contains (cidr ∷ cidrs) ip = elim (net.cidr_contains cidr ip) [
    | none ↦ any_contains cidrs ip
    | some hit ↦ if hit then true else any_contains cidrs ip
  ]

  unfoldable pub remote_addr_trusted : Text → List Text → Bool
  remote_addr_trusted remote_addr cidrs = elim (net.parse_ip (remote_ip remote_addr)) [
    | none ↦ false
    | some ip ↦ any_contains cidrs ip
  ]

  unfoldable pub normalize_forwarded_headers : Config → Request → Request
  normalize_forwarded_headers cfg r =
      if has_none cfg.trusted_proxy_cidrs
        || not (remote_addr_trusted r.remote_addr cfg.trusted_proxy_cidrs)
      then record r {
        headers =
            remove (codes "X-Forwarded-Proto")
              (remove (codes "X-Forwarded-Host") (remove (codes "X-Forwarded-For") r.headers));
      }
      else r

  abbrev copy_header : Request → Text → Dict Text → Dict Text
  copy_header r name headers =
      if value_of name r.headers == []
      then headers
      else insert name (value_of name r.headers) headers

  unfoldable pub n8n_login_headers : Config → Request → Dict Text
  n8n_login_headers cfg r =
      let copied =
        copy_header r (codes "Accept-Language") (copy_header r (codes "User-Agent") []) in
      let ip = remote_ip r.remote_addr in
      let addressed =
        if ip == []
        then copied
        else insert (codes "X-Real-IP") ip (insert (codes "X-Forwarded-For") ip copied) in
      insert (codes "X-Forwarded-Proto") cfg.public_base_scheme
        (insert (codes "X-Forwarded-Host") cfg.public_base_host addressed)
