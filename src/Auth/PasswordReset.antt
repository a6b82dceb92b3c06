-- ===== src/Auth/PasswordReset.antt =====
-- internal/auth/service/password_reset_service.go, over the sessions and the tokens.
pub mod Request
pub mod Verify
pub mod Index
pub mod Ends
use gosso.Prelude.{ℕ, ◌≡◌, Bool, Option, String}
use gosso.Redis.{Redis, Codec, Raw, account_sessions}
use gosso.Account.{Account}
use gosso.Token.Refresh.{Store}
use gosso.Session

pub data ResetError : Type 0 where
  service_unavailable password_cooldown invalid_token exhausted password_too_weak : ResetError
  account_not_found account_not_active hash_failed update_failed delete_failed : ResetError
  no_randomness store_failed invalid_base_url send_failed unmarshal_failed : ResetError

-- passwordResetData
pub record PasswordResetData : Type 0 where
  pub account_id : String
  pub email : String
  pub username : String
  pub attempts : ℕ

-- LoginRateLimitClearer: what the clearing makes of Redis, in which it deletes counters.
pub record LoginRateLimitClearer (r : Redis) : Type 0 where
  pub clear : String → r.Db → r.Db
  pub keeps_index :
      (username a : String) (d : r.Db)
      → r.smembers (clear username d) (account_sessions a) ≡ r.smembers d (account_sessions a)

-- What the service is set up with, and what it uses. `attempts_in` and `bump` are the Lua pattern
-- that finds the attempts in the text and the substitution that adds one.
pub record Config (r : Redis) : Type 0 where
  pub json : Codec (r.Text) PasswordResetData
  pub raw : Raw (r.Text)
  pub attempts_in : r.Text → ℕ
  pub bump : r.Text → r.Text
  pub token_ttl : ℕ
  pub cooldown_ttl : ℕ
  pub max_attempts : ℕ
  pub hash_token : String → String
  pub hash_password : String → Option String
  pub strong : String → Bool
  pub to_lower : String → String
  pub query_escape : String → String
  pub base_url : Option String
  pub send_reset_link : (to link : String) → Bool
  pub find_account : String → Option Account
  pub clearer : Option (LoginRateLimitClearer r)
  pub token_revoker : Option (Store r)
  pub sessions : Session.Config r
