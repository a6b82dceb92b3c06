-- ===== src/Oauth2.antt =====
-- internal/oauth2: clients, their registration, authorization codes, device codes and consents.
pub mod Client
pub mod ClientTable
pub mod ClientService
pub mod ClientAuth
pub mod AuthCode
pub mod DeviceCode
pub mod Consent
