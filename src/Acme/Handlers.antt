-- ===== src/Acme/Handlers.antt =====
-- internal/acme/handlers.go and finalize.go: the handlers and the goroutines, access by access.
pub mod Register
pub mod Validate
pub mod Finalize
pub mod Poll
pub mod Proved
