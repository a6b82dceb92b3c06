-- ===== src/Tests/Mfa.antt =====
-- Tests of the second factors.
use gosso.Prelude.{
  ◌≤◌, ◌≡◌, ◌≢◌, refl, true, false, some, List, [], ◌∷◌, String, ok, ◌==◌, eq_self, subst,
}
use gosso.Account.Credential.{Credential, totp, new_base_credential}
use gosso.Account.Credential.Rows.{
  find_by_account_and_type, soft_delete_credential, soft_delete_credentials_by_type,
  verify_first_unverified_totp, sort_rows, put_row,
}
use gosso.Auth.Mfa
use gosso.Auth.Mfa.{
  verify_totp, activate_totp, disable_totp, generate_backup_codes, verify_backup_code, hash_codes,
  find_match, try_each, verify_totp_include_unverified,
}
use gosso.Auth.Mfa.Backup.{spend, uses, count, is_good, backup_code-once}
use gosso.Auth.Mfa.Backup
use gosso.Auth.Mfa.Totp.{disable_totp-refuses}
use gosso.Auth.Mfa.Generated.{HashesWell, generate_backup_codes-verify}

-- A code matches the secret that it equals.
abbrev service : Mfa.Config
service = record {
  has_encryption_key = true;
  encrypt = λ s. some s;
  decrypt = λ s. some s;
  validate = λ now code secret. code == secret;
  hash = λ s. some s;
  compare = λ h code. h == code;
  backup_code_count = 2;
}

abbrev old_totp : Credential
old_totp = record (new_base_credential "c1" 10 "ann" totp) { value = "old"; verified = true }

abbrev pending_totp : Credential
pending_totp = record (new_base_credential "c2" 20 "ann" totp) { value = "new" }

abbrev rows : List Credential
rows = old_totp ∷ pending_totp ∷ []

-- ActivateTOTP takes a code of the old authenticator, and the new one is verified with it.
activated :
    activate_totp service true (λ x. x) 30 "ann" "old" rows
    ≡ (ok tt, old_totp ∷ record pending_totp { verified = true; verified_at = some 30 } ∷ [])
unfolding activate_totp verify_first_unverified_totp try_each find_by_account_and_type sort_rows
    put_row
activated = refl

disabled : (disable_totp service true 30 "ann" rows).0 ≡ ok tt
unfolding disable_totp
disabled = refl

disable_totp-refuses_example :
    verify_totp service 40 "ann" "old" (disable_totp service true 30 "ann" rows).1 ≢ ok true
disable_totp-refuses_example = disable_totp-refuses service true 30 40 "ann" "old" rows disabled

abbrev codes : List (String × String)
codes = ("b1", "x") ∷ ("b2", "y") ∷ []

generated : (generate_backup_codes service true 30 (some codes) "ann" rows).0 ≡ ok tt
unfolding generate_backup_codes
generated = refl

hashes_well : HashesWell service
hashes_well code h e = let p : code ≡ h = cc in subst (λ y. (y == code) ≡ true) p (eq_self code)

generate_backup_codes-verify_example :
    (verify_backup_code service true 40 "ann" "y"
      (generate_backup_codes service true 30 (some codes) "ann" rows).1).0
    ≡ ok true
generate_backup_codes-verify_example =
    generate_backup_codes-verify service true 30 40 codes "ann" "y" rows hashes_well generated refl

abbrev with_codes : List Credential
with_codes = (generate_backup_codes service true 30 (some codes) "ann" rows).1

abbrev logins : List (Backup.Event service)
logins = spend true 40 "y" ∷ spend false 50 "x" ∷ spend true 60 "y" ∷ spend true 70 "y" ∷ []

backup_code-once_example :
    uses service "ann" "y" logins with_codes ≤ count (is_good service "ann" "y") with_codes
backup_code-once_example = backup_code-once service "ann" "y" logins with_codes tt

used : uses service "ann" "y" logins with_codes ≡ 1
unfolding uses verify_backup_code generate_backup_codes find_by_account_and_type
    soft_delete_credentials_by_type soft_delete_credential sort_rows put_row
used = refl
