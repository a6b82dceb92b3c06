-- ===== src/Auth.antt =====
-- internal/auth/service: the errors that its services share.
pub mod Attempts
pub mod Verification
pub mod Mfa
pub mod PasswordReset

pub data ServiceError : Type 0 where
  service_unavailable account_locked ip_locked mfa_rate_limited : ServiceError
