-- ===== src/Logging/Redaction.antt =====
-- internal/logging/logging.go: which values a log line does not show.
use n8n_gw.Logging.{sensitive_keys, has_key, Attr, redacted, redact_key_value, redact_attr}
use n8n_gw.Base.{
  ℕ, ◌+◌, ◌<◌, ◌≡◌, refl, Text, codes, List, leb, if◌then◌else◌, true, false, ◌&&◌, [], ◌∷◌, All,
  map, to_lower, arith,
}

-- A letter of ASCII without its case.
abbrev pub small : ℕ → ℕ
small c = if leb b'A' c && leb c b'Z' then c + 32 else c

abbrev pub IsAscii : Text → Type 0
IsAscii = All (λ c. c < 128)

to_lower_of_ascii : (s : Text) → IsAscii s → to_lower s ≡ map small s
unfolding to_lower
to_lower_of_ascii [] h = refl
to_lower_of_ascii (a ∷ []) h = ground arith
to_lower_of_ascii (a ∷ b ∷ []) (ha, hb) = ground arith
to_lower_of_ascii (a ∷ b ∷ c ∷ s) (ha, h) = ground (arith, to_lower_of_ascii (b ∷ c ∷ s) h)

-- Where RedactKeyValue and redactAttr agree.
redact_attr_value : (attr : Attr) → (redact_attr attr).value ≡ redact_key_value attr.key attr.value
unfolding redact_attr redact_key_value
redact_attr_value attr = ground arith

-- The names of secrets in the attributes of a log line.
abbrev pub secret_names : List Text
secret_names =
    codes "password"
    ∷ codes "n8n_password"
    ∷ codes "authorization"
    ∷ codes "cookie"
    ∷ codes "set-cookie"
    ∷ codes "id_token"
    ∷ codes "access_token"
    ∷ codes "refresh_token"
    ∷ codes "code"
    ∷ codes "csrf_token"
    ∷ []

sensitive_keys-secret_names : (key : Text) → has_key key sensitive_keys ≡ has_key key secret_names
unfolding has_key
sensitive_keys-secret_names key = refl

-- A key of ASCII is judged without regard to the case of its letters: if it spells one of the ten
-- names of secrets, its value is redacted, and if not, the attribute is logged as it is. The key is
-- never changed, and RedactKeyValue gives the same value.
pub redact_attr_lem :
    (attr : Attr)
    → IsAscii attr.key
    → ((redact_attr attr).key ≡ attr.key)
      × ((redact_attr attr).value ≡ redact_key_value attr.key attr.value)
      × (has_key (map small attr.key) secret_names ≡ true → (redact_attr attr).value ≡ redacted)
      × (has_key (map small attr.key) secret_names ≡ false → redact_attr attr ≡ attr)
unfolding redact_attr
redact_attr_lem attr ascii =
    let e = to_lower_of_ascii attr.key ascii in
    let same = sensitive_keys-secret_names (map small attr.key) in
    (
      ground arith,
      redact_attr_value attr,
      λ h. ground (arith, e, same),
      λ h. ground (arith, e, same),
    )
