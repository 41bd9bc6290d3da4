-- ===== src/Server/Answers.antt =====
-- server.go: each handler writes exactly one answer, whatever the dependencies return.
pub mod Parts
pub mod Bridge
pub mod Auth
pub mod Link
pub mod Http
