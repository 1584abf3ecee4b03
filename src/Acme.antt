-- ===== src/Acme.antt =====
-- internal/acme: the server that takes orders for certificates, proves the control of their names, and
-- has the certificates made.
pub mod Rows
pub mod Tables
pub mod Statements
pub mod Nonce
pub mod Jws
pub mod Outside
pub mod Thread
pub mod Handlers
pub mod System
mod Run
mod Tests
