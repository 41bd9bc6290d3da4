-- ===== src/Logging/Tests.antt =====
-- The redaction at a concrete attribute.
use n8n_gw.Logging.{Attr, text, redacted, sensitive_keys, has_key, redact_key_value, redact_attr}
use n8n_gw.Logging.Redaction.{small, redact_attr_lem}
use n8n_gw.Base.{◌≡◌, codes, true, false, map, arith}

abbrev cookie : Attr
cookie = record { key = codes "Cookie"; value = text (codes "n8n-auth=secret") }

redact_attr_lem_example :
    ((redact_attr cookie).key ≡ codes "Cookie")
    × ((redact_attr cookie).value
        ≡ redact_key_value (codes "Cookie") (text (codes "n8n-auth=secret")))
    × (has_key (map small (codes "Cookie")) sensitive_keys ≡ true
        → (redact_attr cookie).value ≡ redacted)
    × (has_key (map small (codes "Cookie")) sensitive_keys ≡ false → redact_attr cookie ≡ cookie)
redact_attr_lem_example = redact_attr_lem cookie (ground arith)
