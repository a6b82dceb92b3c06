-- ===== src/Tests/Fixtures.antt =====
-- What the tests store in the Redis server in memory, and the encodings of it.
use gosso.Prelude.{
  ℕ, ◌+◌, if◌then◌else◌, ◌≡◌, refl, Option, none, some, String, Bool, true, false, ◌&&◌, leb,
  nat_eq, ◌==◌, eq_iff, arith, ap, sym, ◌∙◌, inl, inr, Option-cases,
}
use gosso.Redis.{Redis, Codec, Raw, up}
use gosso.Redis.Memory.{memory}
use gosso.Oauth2.AuthCode.{AuthorizationCode}
use gosso.Oauth2.DeviceCode.{DeviceCode}
use gosso.Oauth2.Consent.{Entry}
use gosso.Token.{RefreshToken}
use gosso.Token.Refresh.{RefreshTokenReplay, Store}
use gosso.Session.{Session, Config}
use gosso.Auth.Verification
use gosso.Auth.Verification.{VerifyCodeData}
use gosso.Auth.PasswordReset
use gosso.Auth.PasswordReset.{PasswordResetData}
use gosso.Account.{fresh_account}
use gosso.Session.Tokens.{token_revoker}

pub data Payload : Type 0 where
  code : AuthorizationCode → Payload
  device : DeviceCode → Payload
  number : ℕ → Payload
  plain : String → Payload
  refresh : RefreshToken → Payload
  replayed : RefreshTokenReplay → Payload
  consented : Entry → Payload
  session_text : Session → Payload
  code_data : VerifyCodeData → Payload
  reset_text : PasswordResetData → Payload

abbrev pub server : Redis
server = memory Payload

abbrev to_code : Payload → Option AuthorizationCode
to_code (code a) = some a
to_code _ = none

abbrev to_device : Payload → Option DeviceCode
to_device (device a) = some a
to_device _ = none

abbrev to_number : Payload → Option ℕ
to_number (number a) = some a
to_number _ = none

abbrev to_plain : Payload → String
to_plain (plain a) = a
to_plain _ = ""

abbrev pub code_json : Codec Payload AuthorizationCode
code_json = record { encode = code; decode = to_code; decode-encode = λ a. refl }

abbrev pub device_json : Codec Payload DeviceCode
device_json = record { encode = device; decode = to_device; decode-encode = λ a. refl }

abbrev pub number_text : Codec Payload ℕ
number_text = record { encode = number; decode = to_number; decode-encode = λ a. refl }

abbrev pub plain_text : Raw Payload
plain_text = record { to_text = plain; of_text = to_plain; of_text-to_text = λ a. refl }

abbrev to_refresh : Payload → Option RefreshToken
to_refresh (refresh a) = some a
to_refresh _ = none

abbrev to_replay : Payload → Option RefreshTokenReplay
to_replay (replayed a) = some a
to_replay _ = none

abbrev to_entry : Payload → Option Entry
to_entry (consented a) = some a
to_entry _ = none

abbrev pub consent_json : Codec Payload Entry
consent_json = record { encode = consented; decode = to_entry; decode-encode = λ a. refl }

abbrev session_of : Payload → String
session_of (refresh a) = a.session_id
session_of _ = ""

-- Stand-ins for the hash functions.
abbrev pub same : String → String
same s = s

abbrev pub ascii_upper : ℕ → Bool
ascii_upper c = leb 65 c && leb c 90

abbrev pub ascii_lower : ℕ → Bool
ascii_lower c = leb 97 c && leb c 122

abbrev pub ascii_digit : ℕ → Bool
ascii_digit c = leb 48 c && leb c 57

-- A token service with access tokens of 15 minutes and refresh tokens of a day.
abbrev pub tokens : Store server
tokens = record {
  token_json = record { encode = refresh; decode = to_refresh; decode-encode = λ a. refl };
  replay_json = record { encode = replayed; decode = to_replay; decode-encode = λ a. refl };
  epoch = number_text;
  raw = plain_text;
  session_in = session_of;
  hash_token = same;
  access_expiry = 900000000000;
  refresh_expiry = 86400000000000;
  enforce_ip_binding = false;
}

abbrev to_session : Payload → Option Session
to_session (session_text s) = some s
to_session _ = none

-- bytes.Equal, of the texts of two sessions that have no metadata.
abbrev same_flag : Bool → Bool → Bool
same_flag true b = b
same_flag false true = false
same_flag false false = true

abbrev bare : Session → Bool
bare s = elim s.metadata [ none ↦ true | some m ↦ false ]

abbrev same_session : Session → Session → Bool
same_session a b =
    bare a
    && bare b
    && a.id == b.id
    && a.account_id == b.account_id
    && a.username == b.username
    && a.ip == b.ip
    && a.user_agent == b.user_agent
    && same_flag a.mfa_verified b.mfa_verified
    && nat_eq a.created_at b.created_at
    && nat_eq a.last_active_at b.last_active_at

abbrev same_text : Payload → Payload → Bool
same_text (session_text a) (session_text b) = same_session a b
same_text _ _ = false

same_flag-path : (a b : Bool) → same_flag a b ≡ true → a ≡ b
same_flag-path true true h = refl
same_flag-path true false h = absurd (ground arith)
same_flag-path false true h = absurd (ground arith)
same_flag-path false false h = refl

bare-path : (s : Session) → bare s ≡ true → s.metadata ≡ none
bare-path s h = elim (Option-cases s.metadata) [
  | inl e ↦ e
  | inr (m, e) ↦ absurd (let h' = rw e at h in ground arith)
]

same_session-path : (a b : Session) → same_session a b ≡ true → a ≡ b
same_session-path a b h =
    let p1 : a.id ≡ b.id = ground (arith, eq_iff a.id b.id) in
    let p2 : a.account_id ≡ b.account_id = ground (arith, eq_iff a.account_id b.account_id) in
    let p3 : a.username ≡ b.username = ground (arith, eq_iff a.username b.username) in
    let p4 : a.ip ≡ b.ip = ground (arith, eq_iff a.ip b.ip) in
    let p5 : a.user_agent ≡ b.user_agent = ground (arith, eq_iff a.user_agent b.user_agent) in
    let p6 = same_flag-path a.mfa_verified b.mfa_verified (ground arith) in
    let p7 : a.created_at ≡ b.created_at = ground arith in
    let p8 : a.last_active_at ≡ b.last_active_at = ground arith in
    let p9 = bare-path a (ground arith) ∙ sym (bare-path b (ground arith)) in
    λ i. record {
      id = p1 i;
      account_id = p2 i;
      username = p3 i;
      ip = p4 i;
      user_agent = p5 i;
      mfa_verified = p6 i;
      created_at = p7 i;
      last_active_at = p8 i;
      metadata = p9 i;
    }

pub same_text-path : (a b : Payload) → same_text a b ≡ true → a ≡ b
same_text-path (session_text a) (session_text b) h = ap session_text (same_session-path a b h)
same_text-path _ _ h = absurd (ground arith)

-- What the eviction script finds in a session's text: the tests write the time as the user name.
abbrev time_in : Payload → Option String
time_in (session_text s) = some s.username
time_in _ = none

-- A session service of two sessions for each account, over the token service.
abbrev pub sessions : Config server
sessions = record {
  json = record { encode = session_text; decode = to_session; decode-encode = λ a. refl };
  last_active = time_in;
  same_bytes = same_text;
  same_bytes-path = same_text-path;
  session_ttl = 3600000000000;
  max_session_age = 86400000000000;
  max_sessions = 2;
  token_revoker = some (token_revoker server tokens up);
  index_fail_closed = true;
}

abbrev to_code_data : Payload → Option VerifyCodeData
to_code_data (code_data a) = some a
to_code_data _ = none

-- Verification codes with three attempts, which are sent well by mail and not at all as texts.
abbrev pub verification : Verification.Config server
verification = record {
  json = record { encode = code_data; decode = to_code_data; decode-encode = λ a. refl };
  raw = plain_text;
  code_ttl = 600000000000;
  cooldown_ttl = 60000000000;
  max_attempts = 3;
  hash_pepper = "p";
  hmac_hex = λ pepper code. code;
  to_lower = same;
  equal_fold = λ a b. a == b;
  send_email = λ to code. true;
  send_sms = λ to code. false;
}

abbrev to_reset : Payload → Option PasswordResetData
to_reset (reset_text a) = some a
to_reset _ = none

abbrev attempts_in : Payload → ℕ
attempts_in (reset_text a) = a.attempts
attempts_in _ = 0

abbrev bump : Payload → Payload
bump (reset_text a) = reset_text (record a { attempts = a.attempts + 1 })
bump t = t

-- Password resets with two attempts, for the account of Ann, over the services above.
abbrev pub resets : PasswordReset.Config server
resets = record {
  json = record { encode = reset_text; decode = to_reset; decode-encode = λ a. refl };
  raw = plain_text;
  attempts_in = attempts_in;
  bump = bump;
  token_ttl = 1800000000000;
  cooldown_ttl = 60000000000;
  max_attempts = 2;
  hash_token = same;
  hash_password = λ s. some s;
  strong = λ s. true;
  to_lower = same;
  query_escape = same;
  base_url = some "https://id.example/reset";
  send_reset_link = λ to link. true;
  find_account = λ id. if id == "ann" then some (fresh_account "ann" 10 "Ann") else none;
  clearer = none;
  token_revoker = some tokens;
  sessions = sessions;
}
