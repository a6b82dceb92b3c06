-- ===== src/Auth/Mfa/Totp.antt =====
-- internal/auth/service/mfa_service.go: which credentials VerifyTOTP accepts, and what GenerateBackupCodes
-- and DisableTOTP leave.
use gosso.Prelude.{
  ◌≡◌, ◌↔◌, ◌≢◌, refl, sym, ap, ◌∙◌, inl, inr, Bool, true, false, ◌&&◌, ◌||◌, Option, none, some,
  List, [], ◌∷◌, String, arith, ltb, nat_eq, Bool-cases, ok,
}
use gosso.Oauth2.Client.{Time}
use gosso.Account.Credential.{Credential, totp, backup_code}
use gosso.Account.Credential.Rows.{
  has, is_of, find_by_account_and_type, soft_delete_credentials_by_type,
}
use gosso.Account.Credential.Found.{find-has, deleted-none, deleted-no_more}
use gosso.Auth.Mfa.{
  Config, Tried, tried, secret_of, is_verified_live, try_each, totp_answer, verify_totp,
  disable_totp,
}

module _ (c : Config) where
  abbrev pub matches_secret : Time → String → Option String → Bool
  matches_secret now code none = false
  matches_secret now code (some secret) = c.validate now code secret

  tried-matches :
      (now : Time) (code : String) (o : Option String) (later : Tried c)
      → (tried c now code o later).matches ≡ (matches_secret now code o || later.matches)
  tried-matches now code none later = refl
  tried-matches now code (some secret) later = refl

  try_each-has :
      (counts : Credential → Bool) (now : Time) (code : String) (xs : List Credential)
      → (try_each c counts now code xs).matches
        ≡ has (λ x. counts x && matches_secret now code (secret_of c x)) xs
  unfolding try_each
  try_each-has counts now code [] = refl
  try_each-has counts now code (x ∷ rest) = elim (Bool-cases (counts x)) [
    | inr skipped ↦ rw skipped (try_each-has counts now code rest)
    | inl counted ↦ rw counted (
        tried-matches now code (secret_of c x) (try_each c counts now code rest)
        ∙ ap (λ b. matches_secret now code (secret_of c x) || b)
            (try_each-has counts now code rest))
  ]

  unmatched : (t : Tried c) → t.matches ≡ false → totp_answer c t ≢ ok true
  unmatched t missed h = elim (Bool-cases (ltb 0 t.total && nat_eq t.failures t.total)) [
    | inl broken ↦ absurd (let h' = rw (missed, broken, totp_answer) at h in ground arith)
    | inr wrong ↦ absurd (let h' = rw (missed, wrong, totp_answer) at h in ground arith)
  ]

  -- Some credential of the account's that is in use and verified matches the code now.
  abbrev pub IsMatched : Time → String → String → List Credential → Type 0
  IsMatched now account code rows =
      has
        (λ x.
          is_of account totp x && (is_verified_live x && matches_secret now code (secret_of c x)))
        rows
      ≡ true

  pub verify_totp_iff :
      (now : Time) (account code : String) (rows : List Credential)
      → (verify_totp c now account code rows ≡ ok true) ↔ IsMatched now account code rows
  unfolding verify_totp
  verify_totp_iff now account code rows =
      let p : Credential → Bool =
        λ x. is_verified_live x && matches_secret now code (secret_of c x) in
      let t = try_each c is_verified_live now code (find_by_account_and_type account totp rows) in
      let same =
        try_each-has is_verified_live now code (find_by_account_and_type account totp rows)
        ∙ find-has totp p account rows in
      elim (Bool-cases t.matches) [
        | inl hit ↦ (λ h. sym same ∙ hit, λ h. rw (hit, verify_totp) refl)
        | inr missed ↦
            (λ h. absurd (unmatched t missed h), λ h. absurd (ground (arith, missed, same, h)))
      ]

  -- After DisableTOTP has succeeded, VerifyTOTP accepts no code, as long as nothing is enrolled and
  -- activated.
  pub disable_totp-refuses :
      (commits : Bool) (now later : Time) (account code : String) (rows : List Credential)
      → (disable_totp c commits now account rows).0 ≡ ok tt
      → verify_totp c later account code (disable_totp c commits now account rows).1 ≢ ok true
  unfolding disable_totp
  disable_totp-refuses true now later account code rows h accepted =
      let p : Credential → Bool =
        λ x. is_verified_live x && matches_secret later code (secret_of c x) in
      let none_left =
        deleted-no_more backup_code totp p now account
          (soft_delete_credentials_by_type now account totp rows)
          (deleted-none totp p now account rows) in
      absurd (ground (arith, none_left, (verify_totp_iff later account code _).0 accepted))
  disable_totp-refuses false now later account code rows h accepted = absurd (ground arith)
