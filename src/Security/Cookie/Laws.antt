-- ===== src/Security/Cookie/Laws.antt =====
-- internal/security/cookie.go: the cookies of a login and of a logout.
use n8n_gw.Security.Cookie.{
  Cookie, expired, proxy_session_cookies, clear_proxy_session_cookies, proxy_session_cookie,
  clear_proxy_session_cookie, proxy_session_cookie_name_for_secure, same_site_for_session_cookie,
  n8n_bridge_cookie, clear_n8n_bridge_cookie,
}
use n8n_gw.Base.{
  ℕ, ◌≡◌, ◌⊎◌, refl, inl, inr, Text, codes, has_prefix, ◌++◌, Bool, true, false, List, [], ◌∷◌, All,
  arith,
}

-- The first cookie is removed by the second: a browser takes two cookies of one name and path for
-- the same one, and an insecure answer may not replace a secure cookie.
abbrev pub Clears : Cookie → Cookie → Type 0
Clears c d =
    (c.name ≡ d.name)
    × (c.path ≡ d.path)
    × (c.secure ≡ d.secure)
    × (c.http_only ≡ d.http_only)
    × (c.same_site ≡ d.same_site)
    × (d.value ≡ [])
    × (d.max_age ≡ expired)

abbrev pub ClearedBy : List Cookie → Cookie → Type 0
ClearedBy [] c = ⊥
ClearedBy (d ∷ ds) c = Clears c d ⊎ ClearedBy ds c

-- What RFC 6265bis asks of a cookie with the prefix __Host-: the Secure attribute and the path "/".
abbrev pub KeepsHostPrefix : Cookie → Type 0
KeepsHostPrefix c =
    has_prefix c.name (codes "__Host-") ≡ true → (c.secure ≡ true) × (c.path ≡ codes "/")

-- Every cookie that the gateway sets for its session and for the bridge is cleared by a cookie of the
-- logout with the same name, path and attributes, and all of them keep the rules of the __Host- prefix.
pub clear_cookies_lem :
    (session_id : Text) (secure : Bool) (max_age : ℕ)
    → let set =
        proxy_session_cookies session_id secure max_age ++ n8n_bridge_cookie secure max_age ∷ [] in
      let cleared = clear_proxy_session_cookies secure ++ clear_n8n_bridge_cookie secure ∷ [] in
      All (ClearedBy cleared) set × All KeepsHostPrefix set × All KeepsHostPrefix cleared
unfolding proxy_session_cookies clear_proxy_session_cookies proxy_session_cookie
    clear_proxy_session_cookie proxy_session_cookie_name_for_secure same_site_for_session_cookie
    n8n_bridge_cookie clear_n8n_bridge_cookie has_prefix
clear_cookies_lem session_id true max_age = (
  (
    inl (refl, refl, refl, refl, refl, refl, refl),
    (
      inr (inl (refl, refl, refl, refl, refl, refl, refl)),
      (inr (inr (inr (inl (refl, refl, refl, refl, refl, refl, refl)))), tt),
    ),
  ),
  (λ h. (refl, refl), (λ h. (refl, refl), (λ h. (refl, refl), tt))),
  (λ h. (refl, refl), (λ h. (refl, refl), (λ h. absurd (ground arith), (λ h. (refl, refl), tt)))),
)
clear_cookies_lem session_id false max_age = (
  (
    inl (refl, refl, refl, refl, refl, refl, refl),
    (inr (inr (inl (refl, refl, refl, refl, refl, refl, refl))), tt),
  ),
  (λ h. absurd (ground arith), (λ h. absurd (ground arith), tt)),
  (λ h. absurd (ground arith), (λ h. absurd (ground arith), (λ h. absurd (ground arith), tt))),
)
