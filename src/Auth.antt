-- ===== src/Auth.antt =====
-- internal/auth: sign-in.
pub mod Limiter
pub mod Totp
pub mod Local
