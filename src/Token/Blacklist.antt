-- ===== src/Token/Blacklist.antt =====
-- internal/token/service/blacklist_service.go: revoked access tokens, and the time up to which all
-- tokens of an account are revoked.
use gosso.Prelude.{
  ℕ, ◌+◌, ◌-◌, ◌*◌, ◌/◌, Bool, true, false, none, some, String, ltb, leb, if◌then◌else◌, is_empty,
  Result, ok, err,
}
use gosso.Redis.{
  Redis, Codec, Raw, Reply, value, nil, failed, Link, exec, read, exists, blacklist_token,
  account_revoked_after,
}
use gosso.Oauth2.Client.{Time}
use gosso.Oauth2.DeviceCode.Service.{unix, of_unix}
use gosso.Token.{TokenError, TokenBlacklist, redis_failed, token_not_revoked, unmarshal_failed}

abbrev five_minutes : ℕ
five_minutes = 300000000000

-- The lifetime that go-redis sends for a duration: in milliseconds, and at least one.
abbrev pub to_ms : ℕ → ℕ
to_ms d = if ltb d 1000000 then 1 else d / 1000000

abbrev acknowledged : Reply (Unit {0}) → Result TokenError (Unit {0})
acknowledged (value u) = ok tt
acknowledged _ = err redis_failed

abbrev answered : {A : Type 0} → Reply A → Result TokenError A
answered (value a) = ok a
answered _ = err redis_failed

pub record TokenRevocationResult : Type 0 where
  pub is_revoked : Bool
  pub revoked_after : Time

-- The texts of the two kinds of keys: the placeholder "1" and a Unix time in decimal digits.
module _ (r : Redis) (raw : Raw (r.Text)) (epoch : Codec (r.Text) ℕ) where
  open r use {Db, Text, get, set}

  unfoldable pub revoke_token : Link → Time → String → Time → Db → Result TokenError (Unit {0}) × Db
  revoke_token link now jti expires_at d =
      if leb (expires_at + five_minutes) now
      then (ok tt, d)
      else (let (reply, d') =
            exec link
              (λ e. (
                value tt,
                set e (blacklist_token jti) (raw.to_text "1")
                    (to_ms (expires_at + five_minutes - now)),
              ))
              d in
          (acknowledged reply, d'))

  unfoldable pub is_token_revoked : Link → String → Db → Result TokenError Bool
  is_token_revoked link jti d =
      answered (exec link (λ e. (value (exists r e (blacklist_token jti)), e)) d).0

  abbrev revoke_info : String → Result TokenError Bool → Result TokenError TokenBlacklist
  revoke_info jti (err e) = err e
  revoke_info jti (ok false) = err token_not_revoked
  revoke_info jti (ok true) = ok (record { jti = jti; reason = ""; revoked_at = 0; expires_at = 0 })

  unfoldable pub get_revoke_info : Link → String → Db → Result TokenError TokenBlacklist
  unfolding is_token_revoked
  get_revoke_info link jti d = revoke_info jti (is_token_revoked link jti d)

  -- setAccountRevokedAfterScript. A stored text that is no number stops it with an error.
  unfoldable pub raise : String → ℕ → ℕ → Db → Reply ℕ × Db
  raise account at seconds d = elim (get d (account_revoked_after account)) [
    | none ↦ (value 1, set d (account_revoked_after account) (epoch.encode at) (1000 * seconds))
    | some t ↦ elim (epoch.decode t) [
      | none ↦ (failed, d)
      | some cur ↦
          if leb at cur
          then (value 0, d)
          else (value 1, set d (account_revoked_after account) (epoch.encode at) (1000 * seconds))
    ]
  ]

  abbrev raised : Reply ℕ → Result TokenError (Unit {0})
  raised (value n) = ok tt
  raised _ = err redis_failed

  unfoldable pub set_account_revoked_after :
      Link → String → Time → ℕ → Db → Result TokenError (Unit {0}) × Db
  set_account_revoked_after link account revoked_at ttl d =
      let (reply, d') = exec link (raise account (unix revoked_at) (ttl / 1000000000)) d in
      (raised reply, d')

  -- The zero time where there is no record.
  unfoldable pub after_text : Reply Text → Result TokenError Time
  after_text nil = ok 0
  after_text failed = err redis_failed
  after_text (value t) = elim (epoch.decode t) [
    | none ↦ err unmarshal_failed
    | some s ↦ ok (of_unix s)
  ]

  unfoldable pub get_account_revoked_after : Link → String → Db → Result TokenError Time
  get_account_revoked_after link account d =
      after_text (read r link d (account_revoked_after account))

  abbrev pub both : Bool → Result TokenError Time → Result TokenError TokenRevocationResult
  both revoked (err e) = err e
  both revoked (ok t) = ok (record { is_revoked = revoked; revoked_after = t })

  -- The pipeline is one call of two reads.
  unfoldable pub check_token_and_account_revocation :
      Link → String → String → Db → Result TokenError TokenRevocationResult
  unfolding after_text
  check_token_and_account_revocation link jti account d =
      elim (exec link (λ e. (value (exists r e (blacklist_token jti)), e)) d).0 [
        | value revoked ↦
            if is_empty account
            then both revoked (ok 0)
            else both revoked (after_text (read r link d (account_revoked_after account)))
        | _ ↦ err redis_failed
      ]
