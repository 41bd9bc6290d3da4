-- ===== src/Server.antt =====
-- internal/httpserver/server.go: the handlers, as actions that change the state of the world, the
-- response and the metrics.
pub mod State
pub mod Deps
pub mod Reply
pub mod Targets
pub mod Sessions
pub mod Forwarding
pub mod Bridge
pub mod Auth
pub mod Link
pub mod Ready
pub mod Readiness
pub mod Serve
pub mod Answers
pub mod Csrf
pub mod New
pub mod Logout
pub mod Callback
pub mod Login
pub mod Tests
pub mod LoginTests
pub mod RoundTests
