-- ===== src/Auth/Verification.antt =====
-- internal/auth/service/verification_service.go: codes that are sent by mail or as a text message.
pub mod Guesses
pub mod Sent
use Prim.Native.String.{◌++◌ as ◌<>◌}
use gosso.Prelude.{
  ℕ, ◌+◌, ◌*◌, ◌/◌, Bool, true, false, ◌||◌, Option, none, some, List, [], ◌∷◌, String, leb, ltb,
  ◌==◌, is_empty, trim_space, if◌then◌else◌, Result, ok, err,
}
use gosso.Redis.{
  Redis, Codec, Raw, Key, verification_code, verification_cooldown, Reply, value, nil, failed, Link,
  exec, exists,
}
use gosso.Token.Blacklist.{to_ms}

pub data VerificationError : Type 0 where
  service_unavailable cooldown_active unsupported_type code_expired : VerificationError
  code_exhausted code_invalid code_mismatch not_associated : VerificationError
  no_pepper no_randomness store_failed send_failed lookup_failed : VerificationError

-- verifyCodeData
pub record VerifyCodeData : Type 0 where
  pub code_hash : String
  pub attempts : ℕ
  pub account_id : String

-- What the script says.
pub data VerifyStatus : Type 0 where
  matched : (account_id : String) → VerifyStatus
  mismatch exhausted not_found : VerifyStatus

-- What the service is set up with, and what it uses of other packages: the hex of HMAC-SHA-256,
-- strings.ToLower and strings.EqualFold, and the senders, which succeed or not.
pub record Config (r : Redis) : Type 0 where
  pub json : Codec (r.Text) VerifyCodeData
  pub raw : Raw (r.Text)
  pub code_ttl : ℕ
  pub cooldown_ttl : ℕ
  pub max_attempts : ℕ
  pub hash_pepper : String
  pub hmac_hex : String → String → String
  pub to_lower : String → String
  pub equal_fold : String → String → Bool
  pub send_email : String → String → Bool
  pub send_sms : String → String → Bool

-- The calls of SendCode, in the order of the code.
pub record Links : Type 0 where
  pub check : Link
  pub store : Link
  pub cool : Link
  pub roll_back : Link

module _ (r : Redis) (c : Config r) where
  open r use {Db, Text, get, set, del, ttl}

  abbrev pub normalized : String → String
  normalized identifier = c.to_lower (trim_space identifier)

  -- buildCodeKey and buildCooldownKey.
  abbrev pub code_key : String → String → Key
  code_key cred_type identifier = verification_code (cred_type <> ":" <> identifier)

  abbrev pub cooldown_key : String → String → Key
  cooldown_key cred_type identifier = verification_cooldown (cred_type <> ":" <> identifier)

  -- pepperHash
  unfoldable pub pepper_hash : String → Result VerificationError String
  pepper_hash code =
      if is_empty c.hash_pepper then err no_pepper else ok (c.hmac_hex c.hash_pepper code)

  abbrev pub restored : Key → VerifyCodeData → ℕ → Db → Db
  restored k obj default d =
      set d k (c.json.encode (record obj { attempts = obj.attempts + 1 }))
        (1000 * (if ltb 0 (ttl d k) then ttl d k else default))

  abbrev pub judged : Key → String → ℕ → ℕ → Option VerifyCodeData → Db → Reply VerifyStatus × Db
  judged k hash max default none d = (failed, d)
  judged k hash max default (some obj) d =
      if leb max obj.attempts
      then (value exhausted, d)
      else if obj.code_hash == hash
      then (value (matched obj.account_id), del d k)
      else (value mismatch, restored k obj default d)

  -- verifyAndIncrementScript.
  unfoldable pub verify_script : Key → String → ℕ → ℕ → Db → Reply VerifyStatus × Db
  verify_script k hash max default d = elim (get d k) [
    | none ↦ (value not_found, d)
    | some t ↦ judged k hash max default (c.json.decode t) d
  ]

  abbrev pub answered : Reply VerifyStatus → Result VerificationError String
  answered (value (matched account_id)) = ok account_id
  answered (value mismatch) = err code_invalid
  answered (value exhausted) = err code_exhausted
  answered (value not_found) = err code_expired
  answered _ = err service_unavailable

  -- VerifyCode.
  unfoldable pub verify_code :
      Link → String → String → String → Db → Result VerificationError String × Db
  unfolding pepper_hash verify_script
  verify_code link cred_type identifier code d = elim (pepper_hash code) [
    | err e ↦ (err e, d)
    | ok hash ↦
        let (reply, d') =
          exec link
            (verify_script (code_key cred_type (normalized identifier)) hash c.max_attempts
              (c.code_ttl / 1000000000))
            d in
        (answered reply, d')
  ]

  abbrev own_account :
      String → Result VerificationError String × Db → Result VerificationError (Unit {0}) × Db
  own_account expected (err e, d) = (err e, d)
  own_account expected (ok account_id, d) =
      if account_id == expected then (ok tt, d) else (err code_mismatch, d)

  -- VerifyCodeForAccount.
  unfoldable pub verify_code_for_account :
      Link → String → String → String → String → Db → Result VerificationError (Unit {0}) × Db
  unfolding verify_code
  verify_code_for_account link cred_type identifier code expected d =
      own_account expected (verify_code link cred_type identifier code d)

  abbrev pub sent :
      Link → Key → Bool → VerificationError → Db → Result VerificationError (Unit {0}) × Db
  sent link k true e d = (ok tt, d)
  sent link k false e d = (err e, (exec link (λ x. (value tt, del x k)) d).1)

  -- The end of SendCode; the code is taken back where it could not be sent.
  unfoldable pub deliver :
      Link → String → String → String → Db → Result VerificationError (Unit {0}) × Db
  deliver link cred_type identifier code d =
      let k = code_key cred_type identifier in
      if cred_type == "email"
      then sent link k (c.send_email identifier code) send_failed d
      else if cred_type == "phone"
      then sent link k (c.send_sms identifier code) send_failed d
      else sent link k false unsupported_type d

  abbrev pub new_data : String → String → VerifyCodeData
  new_data hash account_id = record { code_hash = hash; attempts = 0; account_id = account_id }

  abbrev pub issue :
      Links
      → String
      → String
      → String
      → String
      → Result VerificationError String
      → Db
      → Result VerificationError (Unit {0}) × Db
  issue links cred_type identifier account_id code (err e) d = (err e, d)
  issue links cred_type identifier account_id code (ok hash) d =
      let (stored, d') =
        exec links.store
          (λ e. (
            value tt,
            set e (code_key cred_type identifier) (c.json.encode (new_data hash account_id))
                (to_ms c.code_ttl),
          ))
          d in
      let cooled =
        (exec links.cool
          (λ e. (
            value tt,
            set e (cooldown_key cred_type identifier) (c.raw.to_text "1") (to_ms c.cooldown_ttl),
          ))
          d').1 in
      elim stored [
        | value u ↦ deliver links.roll_back cred_type identifier code cooled
        | _ ↦ (err store_failed, d')
      ]

  abbrev pub cooled_down :
      Links
      → String
      → String
      → String
      → Option String
      → Reply Bool
      → Db
      → Result VerificationError (Unit {0}) × Db
  cooled_down links cred_type identifier account_id code (value true) d = (err cooldown_active, d)
  cooled_down links cred_type identifier account_id none (value false) d = (err no_randomness, d)
  cooled_down links cred_type identifier account_id (some code) (value false) d =
      issue links cred_type identifier account_id code (pepper_hash code) d
  cooled_down links cred_type identifier account_id code _ d = (err service_unavailable, d)

  -- SendCode. `code` is what generateNumericCode gives, `none` where crypto/rand fails.
  unfoldable pub send_code :
      Links
      → String
      → String
      → String
      → Option String
      → Db
      → Result VerificationError (Unit {0}) × Db
  unfolding pepper_hash deliver
  send_code links cred_type identifier account_id code d =
      let name = normalized identifier in
      let (found, d') =
        exec links.check (λ e. (value (exists r e (cooldown_key cred_type name)), e)) d in
      cooled_down links cred_type name account_id code found d'

  abbrev owned : String → List (Option String) → Bool
  owned name [] = false
  owned name (none ∷ rest) = owned name rest
  owned name (some x ∷ rest) = let later = owned name rest in c.equal_fold x name || later

  -- ValidateCredentialOwnership, with the identifiers that the repository finds.
  unfoldable pub validate_credential_ownership :
      Option (List (Option String)) → String → Result VerificationError (Unit {0})
  validate_credential_ownership none identifier = err lookup_failed
  validate_credential_ownership (some found) identifier =
      if owned (normalized identifier) found then ok tt else err not_associated
