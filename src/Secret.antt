-- ===== src/Secret.antt =====
-- pkg/secret: registry credentials.
pub mod Wildcard
pub mod Registry
pub mod Base64
pub mod Auth
pub mod Keyring
pub mod Store
pub mod Plugin
mod Samples
