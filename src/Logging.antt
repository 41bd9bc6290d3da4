-- ===== src/Logging.antt =====
-- internal/logging/logging.go: the level of the logger and the redaction of secrets.
pub mod Redaction
pub mod Tests
use n8n_gw.Base.{Text, codes, ◌==◌, if◌then◌else◌, Bool, true, false, ◌||◌, List, [], ◌∷◌, to_lower}

pub data Level : Type 0 where
  debug info warn error : Level

-- The keys of the map sensitiveKeys.
abbrev pub sensitive_keys : List Text
sensitive_keys =
    codes "password"
    ∷ codes "n8n_password"
    ∷ codes "authorization"
    ∷ codes "cookie"
    ∷ codes "set-cookie"
    ∷ codes "id_token"
    ∷ codes "access_token"
    ∷ codes "refresh_token"
    ∷ codes "code"
    ∷ codes "csrf_token"
    ∷ []

unfoldable pub has_key : Text → List Text → Bool
unfolding ◌==◌
has_key key [] = false
has_key key (k ∷ keys) = k == key || has_key key keys

-- The switch of New.
unfoldable pub level_of : Text → Level
unfolding to_lower ◌==◌
level_of level =
    let name = to_lower level in
    if name == codes "debug"
    then debug
    else if name == codes "warn"
    then warn
    else if name == codes "error"
    then error
    else info

-- An attribute of a log line: a text, or another value.
pub data Value : Type 0 where
  text : Text → Value
  other : Text → Value

pub record Attr : Type 0 where
  pub key : Text
  pub value : Value

abbrev pub redacted : Value
redacted = text (codes "[REDACTED]")

unfoldable pub redact_key_value : Text → Value → Value
redact_key_value key value = if has_key (to_lower key) sensitive_keys then redacted else value

unfoldable pub redact_attr : Attr → Attr
redact_attr attr =
    if has_key (to_lower attr.key) sensitive_keys then record attr { value = redacted } else attr
