-- ===== src/Auth/PasswordReset/Verify.antt =====
-- VerifyAndReset of internal/auth/service/password_reset_service.go, with its script.
use gosso.Prelude.{
  ℕ, ◌*◌, ◌/◌, Bool, not, Option, none, some, List, String, leb, is_empty, trim_space,
  if◌then◌else◌, Result, ok, err,
}
use gosso.Redis.{Redis, Key, reset_token, Reply, value, nil, Link, exec}
use gosso.Oauth2.Client.{Time}
use gosso.Account.{is_active}
use gosso.Account.Credential.{Credential}
use gosso.Account.Credential.Rows.{find_password_credential, update_credential}
use gosso.Token.Refresh.{revoke_account_tokens}
use gosso.Session.Service
use gosso.Session.Manage.{revoke_all_for_account}
use gosso.Auth.PasswordReset.{
  ResetError, invalid_token, exhausted, password_too_weak, account_not_found, account_not_active,
  hash_failed, update_failed, delete_failed, unmarshal_failed, PasswordResetData, Config,
}

pub record ResetLinks : Type 0 where
  pub take : Link
  pub remove : Link
  pub revoke : Link
  pub sessions : Service.Links

module _ (r : Redis) (c : Config r) where
  open r use {Db, Text, get, set, del}

  -- checkAndIncrementAttemptsScript; `none` is its reply -1.
  unfoldable pub take_attempt : Key → ℕ → ℕ → Db → Reply (Option Text) × Db
  take_attempt k max seconds d = elim (get d k) [
    | none ↦ (nil, d)
    | some t ↦
        if leb max (c.attempts_in t)
        then (value none, del d k)
        else (value (some (c.bump t)), set d k (c.bump t) (1000 * seconds))
  ]

  -- The transaction of VerifyAndReset.
  abbrev pub changed : Bool → Time → String → String → List Credential → Option (List Credential)
  changed commits now account_id hash rows = elim (find_password_credential account_id rows) [
    | none ↦ none
    | some cred ↦
        if commits then update_credential now (record cred { value = hash }) rows else none
  ]

  abbrev pub cleared : PasswordResetData → Db → Db
  cleared held d = elim c.clearer [
    | none ↦ d
    | some f ↦ f.clear (if is_empty held.username then held.email else held.username) d
  ]

  abbrev pub barred : Link → Time → String → Db → Db
  barred link now account_id d = elim c.token_revoker [
    | none ↦ d
    | some s ↦ (revoke_account_tokens r s link now account_id d).1
  ]

  -- What follows a password that was changed. The sessions are revoked in a goroutine of its own or
  -- at once; here it has run. Failures are only logged.
  unfoldable pub finish : ResetLinks → Time → PasswordResetData → Db → Db
  finish links now held d =
      (revoke_all_for_account r c.sessions links.sessions held.account_id
        (barred links.revoke now held.account_id (cleared held d))).1

  abbrev pub removed :
      ResetLinks
      → Time
      → Key
      → PasswordResetData
      → List Credential
      → Db
      → Result ResetError (Unit {0}) × Db × List Credential
  removed links now k held rows d =
      let (reply, d') = exec links.remove (λ e. (value tt, del e k)) d in
      elim reply [
        | value u ↦ (ok tt, finish links now held d', rows)
        | _ ↦ (err delete_failed, d', rows)
      ]

  abbrev pub replaced :
      ResetLinks
      → Time
      → Key
      → PasswordResetData
      → Option (List Credential)
      → List Credential
      → Db
      → Result ResetError (Unit {0}) × Db × List Credential
  replaced links now k held none rows d = (err update_failed, d, rows)
  replaced links now k held (some after) rows d = removed links now k held after d

  abbrev pub reset_account :
      ResetLinks
      → Bool
      → Time
      → Key
      → String
      → PasswordResetData
      → List Credential
      → Db
      → Result ResetError (Unit {0}) × Db × List Credential
  reset_account links commits now k new_password held rows d =
      elim (c.find_account held.account_id) [
        | none ↦ (err account_not_found, d, rows)
        | some a ↦
            if not (is_active (some a))
            then (err account_not_active, d, rows)
            else elim (c.hash_password new_password) [
              | none ↦ (err hash_failed, d, rows)
              | some hash ↦
                  replaced links now k held (changed commits now held.account_id hash rows) rows d
            ]
      ]

  abbrev pub taken :
      ResetLinks
      → Bool
      → Time
      → Key
      → String
      → Reply (Option Text)
      → List Credential
      → Db
      → Result ResetError (Unit {0}) × Db × List Credential
  taken links commits now k new_password (value none) rows d = (err exhausted, d, rows)
  taken links commits now k new_password (value (some t)) rows d = elim (c.json.decode t) [
    | none ↦ (err unmarshal_failed, d, rows)
    | some held ↦ reset_account links commits now k new_password held rows d
  ]
  taken links commits now k new_password _ rows d = (err invalid_token, d, rows)

  -- VerifyAndReset.
  unfoldable pub verify_and_reset :
      ResetLinks
      → Bool
      → Time
      → String
      → String
      → List Credential
      → Db
      → Result ResetError (Unit {0}) × Db × List Credential
  unfolding is_active take_attempt finish
  verify_and_reset links commits now token new_password rows d =
      let k = reset_token (c.hash_token (trim_space token)) in
      let (reply, d') =
        exec links.take (take_attempt k c.max_attempts (c.token_ttl / 1000000000)) d in
      if not (c.strong new_password)
      then (err password_too_weak, d, rows)
      else taken links commits now k new_password reply rows d'
