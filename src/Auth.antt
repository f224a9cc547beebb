-- ===== src/Auth.antt =====
-- Passwords, tokens and random strings: the crates astroplant-auth and random-string.
pub mod RandomString
pub mod Hash
pub mod Token
