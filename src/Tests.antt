-- ===== src/Tests.antt =====
-- Tests and concrete instances of the theorems, by component.
mod Fixtures
mod Account
mod Consent
mod ClientService
mod ClientAuth
mod Token
mod Access
mod Utility
mod Oauth2
mod DeviceCode
mod RateLimit
mod Session
mod Auth
mod Mfa
mod PasswordReset
