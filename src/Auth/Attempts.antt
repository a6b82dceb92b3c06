-- ===== src/Auth/Attempts.antt =====
-- CheckAndIncr of internal/cache/redis_client.go with its script, and the limits that
-- internal/auth/service/auth_login.go and auth_login_helpers.go build on it.
pub mod Bound
use Prim.Native.String.{◌++◌ as ◌<>◌}
use gosso.Prelude.{
  ℕ, ◌+◌, ◌*◌, Bool, Option, none, some, String, leb, nat_eq, if◌then◌else◌, Result, ok, err,
}
use gosso.Redis.{
  Redis, Codec, Key, login_attempts, login_attempts_ip, mfa_attempts, Reply, value, nil, failed,
  Link, exec,
}
use gosso.Token.Refresh.{ceil_seconds}
use gosso.Auth.{ServiceError, service_unavailable, account_locked, ip_locked, mfa_rate_limited}

-- What the limits are set to.
pub record Limits : Type 0 where
  pub login_max_attempts : ℕ
  pub login_max_attempts_per_ip : ℕ
  pub login_rate_limit_window : ℕ
  pub mfa_account_max_attempts : ℕ
  pub mfa_account_rate_limit_window : ℕ

-- The keys hold strings only, as no other command of the code is sent to them.
module _ (r : Redis) (decimal : Codec (r.Text) ℕ) where
  open r use {Db, Text, get, put, expire, del}

  abbrev or_zero : Option Text → Option ℕ
  or_zero none = some 0
  or_zero (some t) = decimal.decode t

  -- INCR, and EXPIRE of a counter that it has made.
  abbrev pub incremented : Key → ℕ → ℕ → Db → Db
  incremented k n seconds d =
      let d' = put d k (decimal.encode (n + 1)) in
      if nat_eq (n + 1) 1 then expire d' k (1000 * seconds) else d'

  -- checkAndIncrLuaScript. The comparison of a text that is no number is an error.
  unfoldable pub check_and_incr_script : Key → ℕ → ℕ → Db → Reply ℕ × Db
  check_and_incr_script k limit seconds d = elim (or_zero (get d k)) [
    | none ↦ (failed, d)
    | some n ↦ if leb limit n then (value n, d) else (value (n + 1), incremented k n seconds d)
  ]

  -- CheckAndIncr.
  unfoldable pub check_and_incr : Link → Key → ℕ → ℕ → Db → Reply ℕ × Db
  unfolding check_and_incr_script
  check_and_incr link k limit expiry d =
      if leb expiry 0
      then (failed, d)
      else exec link (check_and_incr_script k limit (ceil_seconds expiry)) d

  abbrev pub admit : ServiceError → ℕ → Reply ℕ → Result ServiceError (Unit {0})
  admit refusal max (value n) = if leb max n then err refusal else ok tt
  admit refusal max _ = err service_unavailable

  abbrev pub limited : ServiceError → Link → Key → ℕ → ℕ → Db → Result ServiceError (Unit {0}) × Db
  limited refusal link k max window d =
      let (reply, d') = check_and_incr link k max window d in (admit refusal max reply, d')

  -- The beginning of LoginByUsernamePassword; `to_lower` is strings.ToLower, and the address is
  -- normalized before.
  unfoldable pub check_login_rate_limit :
      Limits → (String → String) → Link → String → String → Db → Result ServiceError (Unit {0}) × Db
  unfolding check_and_incr
  check_login_rate_limit c to_lower link ip username d =
      limited account_locked link (login_attempts (ip <> ":" <> to_lower username))
        c.login_max_attempts c.login_rate_limit_window d

  -- checkIPRateLimit; `allowlisted` is isIPAllowlisted.
  unfoldable pub check_ip_rate_limit :
      Limits → (String → Bool) → Link → String → Db → Result ServiceError (Unit {0}) × Db
  unfolding check_and_incr
  check_ip_rate_limit c allowlisted link ip d =
      if allowlisted ip
      then (ok tt, d)
      else limited ip_locked link (login_attempts_ip ip) c.login_max_attempts_per_ip
          c.login_rate_limit_window d

  -- checkMFAAccountRateLimit.
  unfoldable pub check_mfa_account_rate_limit :
      Limits → Link → String → Db → Result ServiceError (Unit {0}) × Db
  unfolding check_and_incr
  check_mfa_account_rate_limit c link account_id d =
      limited mfa_rate_limited link (mfa_attempts account_id) c.mfa_account_max_attempts
        c.mfa_account_rate_limit_window d

  -- clearLoginRateLimits; a failure is only logged.
  unfoldable pub clear_login_rate_limits :
      (String → String) → Link → String → Option String → Db → Db
  clear_login_rate_limits to_lower link ip none d = d
  clear_login_rate_limits to_lower link ip (some username) d =
      (exec link (λ e. (value tt, del e (login_attempts (ip <> ":" <> to_lower username)))) d).1
