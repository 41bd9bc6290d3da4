-- ===== src/Security/Tokens.antt =====
-- internal/security/csrf.go and internal/security/random.go.
use n8n_gw.Base.{Text, ◌==◌, if◌then◌else◌, Bool, false, ◌||◌, Option, none, some, [], ℕ}

-- RandomBase64URL(bytes), over crypto/rand and base64: `none` if the read fails.
unfoldable pub random_base64_url : (ℕ → Option Text) → (Text → Text) → ℕ → Option Text
random_base64_url read encode bytes = elim (read bytes) [
  | none ↦ none
  | some buf ↦ some (encode buf)
]

unfoldable pub new_csrf_token : (ℕ → Option Text) → (Text → Text) → Option Text
unfolding random_base64_url
new_csrf_token read encode = random_base64_url read encode 32

-- ConstantTimeCompare is 1 exactly at equal texts.
unfoldable pub equal_token : Text → Text → Bool
unfolding ◌==◌
equal_token expected actual = if expected == [] || actual == [] then false else expected == actual
