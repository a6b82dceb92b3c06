-- ===== src/Token.antt =====
-- internal/token/domain: refresh tokens and the entries of the blacklist.
pub mod Blacklist
pub mod Refresh
pub mod Access
use gosso.Prelude.{
  ℕ, ◌≡◌, refl, Bool, true, Option, none, some, String, ltb, nat_eq, is_empty, Result, ok, err,
  ◌>>=◌, ◌>>◌, reject,
}
use gosso.Oauth2.Client.{Time}

pub record RefreshToken : Type 0 where
  pub token : String
  pub account_id : String
  pub client_id : String
  pub session_id : String
  pub scope : String
  pub ip : String
  pub user_agent : String
  pub expires_at : Time
  pub created_at : Time

pub record TokenBlacklist : Type 0 where
  pub jti : String
  pub reason : String
  pub revoked_at : Time
  pub expires_at : Time

-- The errors of the package and its services, without their texts.
pub data TokenError : Type 0 where
  refresh_token_required refresh_token_account_required refresh_token_expires_required : TokenError
  blacklist_jti_required blacklist_expires_at_required : TokenError
  token_not_revoked token_revoked refresh_token_expired blacklist_unavailable : TokenError
  invalid_token parse_failed sign_failed : TokenError
  key_not_found redis_failed unmarshal_failed invalid_replay : TokenError
  generate_failed ip_required : TokenError

-- `time.Time.IsZero`
abbrev pub is_zero : Time → Bool
is_zero t = nat_eq t 0

unfoldable pub new_refresh_token : Time → String → String → Time → Result TokenError RefreshToken
new_refresh_token now token account_id expires_at = do
  reject (is_empty token) refresh_token_required
  reject (is_empty account_id) refresh_token_account_required
  reject (is_zero expires_at) refresh_token_expires_required
  ok (record {
    token = token;
    account_id = account_id;
    client_id = "";
    session_id = "";
    scope = "";
    ip = "";
    user_agent = "";
    expires_at = expires_at;
    created_at = now;
  })

unfoldable pub new_token_blacklist :
    Time → String → String → Time → Result TokenError TokenBlacklist
new_token_blacklist now jti reason expires_at = do
  reject (is_empty jti) blacklist_jti_required
  reject (is_zero expires_at) blacklist_expires_at_required
  ok (record { jti = jti; reason = reason; revoked_at = now; expires_at = expires_at })

-- `none` is the nil entry.
unfoldable pub is_expired : Time → Option TokenBlacklist → Bool
is_expired now none = true
is_expired now (some t) = ltb t.expires_at now
