-- ===== src/Identity.antt =====
-- identity/identity.go: whether two strings from two hosts name one model.
pub mod Words
pub mod Parts
pub mod Token
pub mod Tokens
pub mod Assemble
pub mod Parse
mod Examples
mod Tests
