-- ===== src/Auth/Mfa.antt =====
-- internal/auth/service/mfa_service.go: codes of authenticator apps and backup codes. A transaction
-- is one step, since it locks the rows that it reads; it commits or leaves the rows.
-- The queries that are made outside of one do not fail here, and no row that ActivateTOTP looks for
-- is locked, which it would skip.
pub mod Backup
pub mod Totp
pub mod Generated
use gosso.Prelude.{
  ℕ, ◌+◌, Bool, true, false, not, ◌&&◌, ◌||◌, Option, none, some, List, [], ◌∷◌, String, ltb, leb,
  nat_eq, length, if◌then◌else◌, Result, ok, err,
}
use gosso.Oauth2.Client.{Time}
use gosso.Account.Credential.{Credential, totp, backup_code, new_base_credential, is_removed}
use gosso.Account.Credential.Rows.{
  find_by_account_and_type, soft_delete_credential, soft_delete_credentials_by_type,
  create_credentials, verify_first_unverified_totp, is_of, set_rows, erased,
}

pub data MfaError : Type 0 where
  query_failed generate_failed encryption_not_configured encrypt_failed : MfaError
  transaction_failed all_decrypt_failed invalid_mfa_code no_pending_totp_enrollment : MfaError

pub record MfaStatus : Type 0 where
  pub enabled : Bool
  pub types : List String

-- What the service is set up with and what it uses of other packages: AES-GCM with the key that is
-- configured, if any; totp.Validate; bcrypt.
pub record Config : Type 0 where
  pub has_encryption_key : Bool
  pub encrypt : String → Option String
  pub decrypt : String → Option String
  pub validate : Time → (code secret : String) → Bool
  pub hash : String → Option String
  pub compare : (hash code : String) → Bool
  pub backup_code_count : ℕ

abbrev pub default_backup_code_count : ℕ
default_backup_code_count = 10

-- The count of NewMFAServiceWithConfig.
abbrev pub backup_code_count_or : ℕ → ℕ
backup_code_count_or n = if ltb 0 n && leb n 20 then n else default_backup_code_count

abbrev pub is_verified_live : Credential → Bool
is_verified_live c = c.verified && not (is_removed c)

abbrev any_live : List Credential → Bool
any_live [] = false
any_live (c ∷ rest) = let later = any_live rest in is_verified_live c || later

-- GetMFAStatus; `has_passkeys` is what the passkey service says, `none` where it fails.
unfoldable pub get_mfa_status : Option Bool → String → List Credential → Result MfaError MfaStatus
get_mfa_status none account rows = err query_failed
get_mfa_status (some has_passkeys) account rows =
    let passkeys : List String = if has_passkeys then "passkey" ∷ [] else [] in
    if any_live (find_by_account_and_type account totp rows)
    then ok (record { enabled = true; types = "totp" ∷ passkeys })
    else ok (record { enabled = false; types = passkeys })

module _ (c : Config) where
  abbrev erase_unverified : Time → String → List Credential → List Credential
  erase_unverified now account rows =
      set_rows (λ x. is_of account totp x && not x.verified) (erased now) rows

  abbrev saved :
      Bool → List Credential → List Credential → Result MfaError (Unit {0}) × List Credential
  saved true after rows = (ok tt, after)
  saved false after rows = (err transaction_failed, rows)

  -- EnrollTOTP; `secret` is what totp.Generate gives.
  unfoldable pub enroll_totp :
      Bool
      → String
      → Time
      → Option String
      → String
      → List Credential
      → Result MfaError (Unit {0}) × List Credential
  enroll_totp commits id now none account rows = (err generate_failed, rows)
  enroll_totp commits id now (some secret) account rows =
      if not c.has_encryption_key
      then (err encryption_not_configured, rows)
      else elim (c.encrypt secret) [
        | none ↦ (err encrypt_failed, rows)
        | some stored ↦
            saved commits
              (create_credentials
                (record (new_base_credential id now account totp) {
                  identifier = some account;
                  value = stored;
                  updated_at = 0;
                }
                  ∷ [])
                (erase_unverified now account rows))
              rows
      ]

  abbrev pub secret_of : Credential → Option String
  secret_of x = if c.has_encryption_key then c.decrypt x.value else some x.value

  -- Whether a credential matches, and how many were tried and could not be decrypted.
  pub record Tried : Type 0 where
    pub matches : Bool
    pub total : ℕ
    pub failures : ℕ

  abbrev pub tried : Time → String → Option String → Tried → Tried
  tried now code none later = record later {
    total = later.total + 1;
    failures = later.failures + 1;
  }
  tried now code (some secret) later = record later {
    matches = c.validate now code secret || later.matches;
    total = later.total + 1;
  }

  unfoldable pub try_each : (Credential → Bool) → Time → String → List Credential → Tried
  try_each counts now code [] = record { matches = false; total = 0; failures = 0 }
  try_each counts now code (x ∷ rest) =
      let later = try_each counts now code rest in
      if counts x then tried now code (secret_of x) later else later

  abbrev pub totp_answer : Tried → Result MfaError Bool
  totp_answer t =
      if t.matches
      then ok true
      else if ltb 0 t.total && nat_eq t.failures t.total
      then err all_decrypt_failed
      else ok false

  -- VerifyTOTP.
  unfoldable pub verify_totp : Time → String → String → List Credential → Result MfaError Bool
  unfolding try_each
  verify_totp now account code rows =
      totp_answer (try_each is_verified_live now code (find_by_account_and_type account totp rows))

  -- verifyTOTPIncludeUnverified.
  unfoldable pub verify_totp_include_unverified : Time → String → String → List Credential → Bool
  unfolding try_each
  verify_totp_include_unverified now account code rows =
      (try_each (λ x. not (is_removed x)) now code
        (find_by_account_and_type account totp rows)).matches

  abbrev secret_or_value : Credential → String
  secret_or_value x = elim (secret_of x) [ none ↦ x.value | some secret ↦ secret ]

  abbrev pub already_active : Time → String → List Credential → Bool
  already_active now code [] = false
  already_active now code (x ∷ rest) =
      let later = already_active now code rest in
      is_verified_live x && c.validate now code (secret_or_value x) || later

  -- ActivateTOTP; `others` is what happens between its reading and its transaction.
  unfoldable pub activate_totp :
      Bool
      → (List Credential → List Credential)
      → Time
      → String
      → String
      → List Credential
      → Result MfaError (Unit {0}) × List Credential
  unfolding verify_totp_include_unverified
  activate_totp commits others now account code rows =
      let (activated, after) = verify_first_unverified_totp now account (others rows) in
      if not (verify_totp_include_unverified now account code rows)
      then (err invalid_mfa_code, rows)
      else if not commits
      then (err transaction_failed, others rows)
      else if activated
      then (ok tt, after)
      else if already_active now code (find_by_account_and_type account totp after)
      then (ok tt, after)
      else (err no_pending_totp_enrollment, after)

  -- DisableTOTP.
  unfoldable pub disable_totp :
      Bool → Time → String → List Credential → Result MfaError (Unit {0}) × List Credential
  disable_totp commits now account rows =
      saved commits
        (soft_delete_credentials_by_type now account backup_code
          (soft_delete_credentials_by_type now account totp rows))
        rows

  -- The codes with their identifiers, as credentials; `none` where a code cannot be hashed.
  abbrev pub add_hashed :
      String → Time → String → Option String → Option (List Credential) → Option (List Credential)
  add_hashed id now account none later = none
  add_hashed id now account (some hash) none = none
  add_hashed id now account (some hash) (some later) = some (
      record (new_base_credential id now account backup_code) {
        value = hash;
        verified = true;
        updated_at = 0;
      }
      ∷ later)

  unfoldable pub hash_codes : Time → String → List (String × String) → Option (List Credential)
  hash_codes now account [] = some []
  hash_codes now account ((id, code) ∷ rest) =
      add_hashed id now account (c.hash code) (hash_codes now account rest)

  -- GenerateBackupCodes; `codes` are what generateRandomCode gives, as many as are configured, each
  -- with the identifier of its credential.
  unfoldable pub generate_backup_codes :
      Bool
      → Time
      → Option (List (String × String))
      → String
      → List Credential
      → Result MfaError (Unit {0}) × List Credential
  unfolding hash_codes
  generate_backup_codes commits now none account rows = (err generate_failed, rows)
  generate_backup_codes commits now (some codes) account rows =
      elim (hash_codes now account codes) [
        | none ↦ (err generate_failed, rows)
        | some cs ↦
            saved commits
              (create_credentials cs (soft_delete_credentials_by_type now account backup_code rows))
              rows
      ]

  unfoldable pub find_match : String → List Credential → Option String
  find_match code [] = none
  find_match code (x ∷ rest) =
      let later = find_match code rest in
      if is_removed x || not x.verified
      then later
      else if c.compare x.value code
      then some x.id
      else later

  abbrev pub used_up :
      Bool → Option (List Credential) → List Credential → Result MfaError Bool × List Credential
  used_up commits none rows = (err query_failed, rows)
  used_up false (some after) rows = (err transaction_failed, rows)
  used_up true (some after) rows = (ok true, after)

  -- VerifyBackupCode.
  unfoldable pub verify_backup_code :
      Bool → Time → String → String → List Credential → Result MfaError Bool × List Credential
  unfolding find_match
  verify_backup_code commits now account code rows =
      elim (find_match code (find_by_account_and_type account backup_code rows)) [
        | none ↦ if commits then (ok false, rows) else (err transaction_failed, rows)
        | some id ↦ used_up commits (soft_delete_credential now id rows) rows
      ]
