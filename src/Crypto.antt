-- ===== src/Crypto.antt =====
-- core/internal/crypto/crypto.go. What it calls of crypto, encoding and golang.org/x/crypto is a parameter.
pub mod MasterKey
pub mod Passwords
pub mod Totp
pub mod RecoveryCodes
pub mod Primitives
