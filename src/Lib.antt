-- ===== src/Lib.antt =====
-- gosso is an identity server in Go: accounts and roles, OAuth2 clients with the authorization code
-- and device grants, refresh tokens, and the services around them. Its services keep their state in
-- Redis, where Lua scripts make the changes that must not be torn apart; HTTP handlers call them.
-- This development models the core of these parts and what makes them correct.
--
-- Prelude and its children: tests on numbers, texts (comparison, code points, strings.TrimSpace,
--   the bytes of a text), maps as lists of entries, and `Result` for Go's value and error.
-- Redis: the server as an interface, a record of commands and of the laws that the code relies on;
--   Redis.Keys has the keys, one constructor per prefix; Redis.Memory is a server in memory that
--   meets the laws, on which the tests run. `Link` says what the network does to a call: it goes
--   through, its request is lost, or its reply. A script runs whole or not at all, so `exec` runs it
--   as one step. A failed call has no result, which go-redis gives as nil with the error.
-- Utility: internal/utility/bigendian.go, mask.go, password.go.
-- Account: internal/account/domain/account.go, and Account.Role role.go. Account.Lifecycle follows
--   an account through any calls.
-- Oauth2.Client: internal/oauth2/domain/client.go; Client.Redirect and Client.Scopes have what is
--   proved of redirect URIs, scopes and NewOAuth2Client.
-- Oauth2.ClientTable: the rows of internal/oauth2/repository/client_repository_impl.go, and
--   Oauth2.ClientService: internal/oauth2/service/client_service.go. A transaction reads, and then
--   writes, and others may commit in between; it commits or not.
-- Oauth2.ClientAuth: internal/oauth2/service/client_auth_service.go, AuthenticateClient.
-- Oauth2.AuthCode: internal/oauth2/domain/authorization_code.go and
--   internal/oauth2/service/auth_code_service.go: GenerateCode, ValidateCode, VerifyPKCE.
-- Oauth2.DeviceCode: internal/oauth2/domain/device_code.go; DeviceCode.Create has CreateDeviceCode
--   and the look-ups of internal/oauth2/service/device_code_service.go, DeviceCode.Service its
--   calls on stored codes with their scripts, and the modules below it what is proved of them.
-- Oauth2.Consent: internal/oauth2/domain/consent.go, the rows of
--   internal/oauth2/repository/consent_repository_impl.go, and
--   internal/oauth2/service/consent_service.go; Consent.Cache has what is proved of its cache.
-- Token: internal/token/domain; Token.Blacklist: internal/token/service/blacklist_service.go;
--   Token.Refresh: the refresh tokens of token_service.go, token_service_validate.go and
--   token_service_revoke.go, Refresh.Rotation being RotateRefreshToken. Refresh.Script, Rotated,
--   Once, Quiet and Others treat concurrent exchanges, Refresh.Sessions, Ended and Logout the index
--   of a session's tokens, Refresh.Revocation the revocation of an account.
-- Token.Access: the access tokens of the same files, as claims; Access.Issue and Access.Admission
--   have what is proved of their issue and their validation.
-- Session: internal/session/domain/session.go and internal/session/service; Session.Limit has the
--   eviction script and enforceSessionLimit, Session.Service the calls on one session, of which
--   Session.Change has those that change it, Session.Manage revocation and listing. The scripts run
--   over the same Redis. Session.Cache, Refines, Calls, Updated, Run and Agreement compare the
--   service with one that has no local cache; Stable,
--   Gone and Ended follow a session that was ended; Evicted, Limited, Capped and Enforced treat the
--   limit, Spared and Created what it spares. TokenRevoker is an interface, which Session.Tokens
--   fills with the token service, and Session.Logout treats the two together.
--   GetSession shares its session with the local cache, so that a write to it is seen there:
--   `cache_write`, and `shared` for UpdateSession, whose caller has the session from anywhere.
-- Auth.Attempts: CheckAndIncr of internal/cache/redis_client.go and the limits of
--   internal/auth/service/auth_login.go and auth_login_helpers.go on it; Attempts.Bound has what is
--   proved of them. Auth.Verification: internal/auth/service/verification_service.go; its children
--   Guesses and Sent have what is proved of it. Auth.Mfa: internal/auth/service/mfa_service.go; its
--   children Backup, Generated and Totp have what is proved of it.
-- Auth.PasswordReset: internal/auth/service/password_reset_service.go, its children Request and
--   Verify being RequestReset and VerifyAndReset, over the tokens and the sessions;
--   PasswordReset.Index and Ends have what is proved of it.
-- Account.Credential: internal/account/domain/credential.go; Credential.Rows has the rows of
--   internal/account/repository/credential_repository_impl.go, and Credential.Found what is found.
-- RateLimit: middleware/redis_ratelimit.go, the script of the sliding window on its key, and what
--   the middleware answers; the clock of Redis goes forward from one script to the next.
-- Tests: runs on concrete inputs.
--
-- How the code is written here. A method on a pointer takes an Option, `none` for nil, where the
-- code tests for nil. What a function mutates is returned. time.Now, uuid.New and crypto/rand are
-- arguments: a time is the number of nanoseconds since Go's zero time, and the source of randomness
-- gives `none` where it fails. Errors are constructors, without the texts that wrap them.
-- Parameters, with what is assumed of them where it is used: Redis; JSON (`Codec`: what is encoded
-- decodes to itself); the hash functions; url.Parse; the Unicode classes of letters and digits; the
-- Lua patterns that find a session in a token's JSON text, a time in a session's and the attempts
-- in a reset's; bytes.Equal; whom the context says the request is from; bcrypt; Argon2; AES-GCM;
-- totp; HMAC-SHA-256; strings.ToLower and strings.EqualFold; golang-jwt, which signs and parses.
-- Lifetimes are whole numbers, in place of Go's floats of seconds rounded up.
-- The prefixes of the keys are distinct, so that keys of different constructors are different.
-- Fuel: the loop of BigEndianBytes runs on its argument, which bounds the number of its rounds as
-- each divides by 256. All other loops are by recursion on a list or a text.
--
-- Not modelled: audit records, log lines and metrics, which nothing reads back; the HTTP layer; the
-- other SQL repositories, the listing of consents and their deletion with an account; key files;
-- the rest of login, passkeys, social login, OpenID Connect, the other middleware and the
-- configuration.
pub mod Prelude
pub mod Account
pub mod Token
pub mod Utility
pub mod RateLimit
pub mod Session
pub mod Auth
pub mod Redis
pub mod Oauth2
pub mod Tests
