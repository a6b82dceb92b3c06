-- ===== src/Auth/PasswordReset/Request.antt =====
-- RequestReset of internal/auth/service/password_reset_service.go.
use Prim.Native.String.{◌++◌ as ◌<>◌}
use gosso.Prelude.{
  true, false, Option, none, some, List, String, trim_space, if◌then◌else◌, Result, ok, err,
}
use gosso.Redis.{Redis, reset_token, reset_cooldown, value, Link, exec, exists}
use gosso.Account.{Account, is_active}
use gosso.Account.Credential.{Credential, email}
use gosso.Account.Credential.Rows.{find_by_type_and_identifier}
use gosso.Token.Blacklist.{to_ms}
use gosso.Auth.PasswordReset.{
  ResetError, service_unavailable, password_cooldown, no_randomness, store_failed, invalid_base_url,
  send_failed, PasswordResetData, Config,
}

pub record Links : Type 0 where
  pub check : Link
  pub store : Link
  pub cool : Link

module _ (r : Redis) (c : Config r) where
  open r use {Db, Text, get, set, del}

  abbrev name_of : Option String → String
  name_of none = ""
  name_of (some username) = username

  abbrev pub reset_data : String → String → Account → PasswordResetData
  reset_data account_id address account = record {
    account_id = account_id;
    email = address;
    username = name_of account.username;
    attempts = 0;
  }

  abbrev pub mail : String → String → Result ResetError (Unit {0})
  mail address token = elim c.base_url [
    | none ↦ err invalid_base_url
    | some url ↦
        if c.send_reset_link address (url <> "#token=" <> c.query_escape token)
        then ok tt
        else err send_failed
  ]

  abbrev pub store_token :
      Links → String → PasswordResetData → Option String → Db → Result ResetError (Unit {0}) × Db
  store_token links address data' none d = (err no_randomness, d)
  store_token links address data' (some token) d =
      let (stored, d') =
        exec links.store
          (λ e. (
            value tt,
            set e (reset_token (c.hash_token token)) (c.json.encode data') (to_ms c.token_ttl),
          ))
          d in
      let (cooled, d'') =
        exec links.cool
          (λ e. (
            value tt,
            set e (reset_cooldown (c.to_lower address)) (c.raw.to_text "1") (to_ms c.cooldown_ttl),
          ))
          d' in
      elim stored [
        | value u ↦ elim cooled [
          | value v ↦ (mail address token, d'')
          | _ ↦ (err service_unavailable, d'')
        ]
        | _ ↦ (err store_failed, d')
      ]

  abbrev pub active_account : String → Option Account
  active_account id = elim (c.find_account id) [
    | none ↦ none
    | some a ↦ if is_active (some a) then some a else none
  ]

  -- An address that is not known, or whose account is not active, is answered as one that is.
  abbrev pub request_known :
      Links → String → Option Credential → Option String → Db → Result ResetError (Unit {0}) × Db
  request_known links address none token d = (ok tt, d)
  request_known links address (some cred) token d = elim (active_account cred.account_id) [
    | none ↦ (ok tt, d)
    | some a ↦ store_token links address (reset_data cred.account_id address a) token d
  ]

  -- RequestReset; `token` is the random token in hex.
  unfoldable pub request_reset :
      Links → String → Option String → List Credential → Db → Result ResetError (Unit {0}) × Db
  unfolding is_active
  request_reset links address token rows d =
      let name = c.to_lower (trim_space address) in
      let (found, d') =
        exec links.check (λ e. (value (exists r e (reset_cooldown (c.to_lower name))), e)) d in
      elim found [
        | value true ↦ (err password_cooldown, d')
        | value false ↦
            request_known links name (find_by_type_and_identifier email name rows) token d'
        | _ ↦ (err service_unavailable, d')
      ]
