-- ===== src/Security.antt =====
-- internal/security: cookies, return targets and tokens.
pub mod ReturnUrl
pub mod Cookie
pub mod Rewrite
pub mod Sanitize
pub mod Tokens
pub mod Tests
