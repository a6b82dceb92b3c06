-- ===== src/Auth/Mfa/Generated.antt =====
-- GenerateBackupCodes and VerifyBackupCode of internal/auth/service/mfa_service.go together.
use gosso.Prelude.{
  ◌≡◌, refl, sym, subst, ◌∙◌, inl, inr, Bool, true, false, not, ◌&&◌, ◌||◌, some, List, [], ◌∷◌,
  ◌++◌, String, arith, ◌==◌, eq_self, eq→path, Bool-cases, Option-cases, ok,
}
use gosso.Oauth2.Client.{Time}
use gosso.Account.Credential.{Credential, backup_code, is_removed, new_base_credential}
use gosso.Account.Credential.Rows.{
  has, is_of, is_live_id, find_by_account_and_type, soft_delete_credential,
  soft_delete_credentials_by_type, create_credentials,
}
use gosso.Account.Credential.Found.{find-has}
use gosso.Auth.Mfa.{
  Config, find_match, verify_backup_code, hash_codes, add_hashed, generate_backup_codes,
}
use gosso.Auth.Mfa.Backup.{is_good}

append-has :
    (p : Credential → Bool) (xs ys : List Credential) → has p (xs ++ ys) ≡ (has p xs || has p ys)
append-has p [] ys = refl
append-has p (x ∷ rest) ys = ground (arith, append-has p rest ys)

has-some :
    (p q : Credential → Bool) (xs : List Credential)
    → ((x : Credential) → p x ≡ true → q x ≡ true)
    → has p xs ≡ true
    → has q xs ≡ true
has-some p q [] f h = h
has-some p q (x ∷ rest) f h = elim (Bool-cases (p x)) [
  | inl it ↦ rw (f x it) refl
  | inr differ ↦ ground (arith, differ, has-some p q rest f)
]

-- The code is among those.
abbrev pub among : String → List (String × String) → Bool
among code [] = false
among code ((id, x) ∷ rest) = let later = among code rest in x == code || later

module _ (c : Config) where
  abbrev usable : String → Credential → Bool
  usable code x = not (is_removed x) && (x.verified && c.compare x.value code)

  -- The code of a row that is in use is found.
  data Found (code : String) (xs : List Credential) : Type 0 where
    found :
        (id : String)
        → find_match c code xs ≡ some id
        → has (λ x. usable code x && x.id == id) xs ≡ true
        → Found code xs

  find_match-Found :
      (code : String) (xs : List Credential) → has (usable code) xs ≡ true → Found code xs
  unfolding find_match
  find_match-Found code [] h = absurd (ground arith)
  find_match-Found code (x ∷ rest) h = elim (Bool-cases (is_removed x || not x.verified)) [
    | inl skipped ↦ elim (find_match-Found code rest (ground (arith, skipped))) [
      | found id e later ↦ found id (rw (skipped, find_match) e) (ground (arith, later))
    ]
    | inr live ↦ elim (Bool-cases (c.compare x.value code)) [
      | inl match ↦
          found x.id (rw (live, match, find_match) refl) (ground (arith, live, match, eq_self x.id))
      | inr differ ↦ elim (find_match-Found code rest (ground (arith, differ))) [
        | found id e later ↦ found id (rw (live, differ, find_match) e) (ground (arith, later))
      ]
    ]
  ]

  good-verifies :
      (now : Time) (account code : String) (rows : List Credential)
      → has (is_good c account code) rows ≡ true
      → (verify_backup_code c true now account code rows).0 ≡ ok true
  unfolding verify_backup_code soft_delete_credential
  good-verifies now account code rows h =
      let there =
        find-has backup_code (usable code) account rows
        ∙ has-some (is_good c account code) (λ x. is_of account backup_code x && usable code x) rows
            (λ x e. ground arith) h in
      elim (find_match-Found code (find_by_account_and_type account backup_code rows) there) [
        | found id e named ↦
            let live =
              has-some (λ x. is_of account backup_code x && (usable code x && x.id == id))
                (is_live_id id) rows (λ x e. ground arith)
                (sym (find-has backup_code (λ x. usable code x && x.id == id) account rows)
                  ∙ named) in
            rw (e, verify_backup_code) (rw (live, soft_delete_credential) refl)
      ]

  -- A hash is of its code.
  abbrev pub HashesWell : Type 0
  HashesWell = (code h : String) → c.hash code ≡ some h → c.compare h code ≡ true

  hashed-good :
      (now : Time) (account code : String) (codes : List (String × String)) (cs : List Credential)
      → HashesWell
      → hash_codes c now account codes ≡ some cs
      → among code codes ≡ true
      → has (is_good c account code) cs ≡ true
  unfolding hash_codes
  hashed-good now account code [] cs well e h = absurd (ground arith)
  hashed-good now account code ((id, x) ∷ rest) cs well e h = elim (Option-cases (c.hash x)) [
    | inl bad ↦ absurd (let e' = rw (bad, add_hashed) at e in ground arith)
    | inr (hash, good) ↦ elim (Option-cases (hash_codes c now account rest)) [
      | inl bad ↦ absurd (let e' = rw (good, bad, add_hashed) at e in ground arith)
      | inr (later, fine) ↦
          let row : Credential = record (new_base_credential id now account backup_code) {
            value = hash;
            verified = true;
            updated_at = 0;
          } in
          let all : row ∷ later ≡ cs = (let e' = rw (good, fine, add_hashed) at e in cc) in
          subst (λ y. has (is_good c account code) y ≡ true) all
            (elim (Bool-cases (x == code)) [
              | inl same ↦
                  let fits =
                    subst (λ y. c.compare hash y ≡ true) (eq→path x code same) (well x hash good) in
                  ground (arith, fits, eq_self account)
              | inr differ ↦
                  let rest_good =
                    hashed-good now account code rest later well fine (ground arith) in
                  ground (arith, rest_good)
            ])
    ]
  ]

  -- Every code of those that GenerateBackupCodes gave, when it succeeded, is accepted by the next
  -- VerifyBackupCode whose transaction commits. A hash is of its code.
  pub generate_backup_codes-verify :
      (commits : Bool) (now later : Time) (codes : List (String × String)) (account code : String)
      (rows : List Credential)
      → HashesWell
      → (generate_backup_codes c commits now (some codes) account rows).0 ≡ ok tt
      → among code codes ≡ true
      → (verify_backup_code c true later account code
          (generate_backup_codes c commits now (some codes) account rows).1).0
        ≡ ok true
  unfolding generate_backup_codes
  generate_backup_codes-verify commits now later codes account code rows well e h =
      elim (Option-cases (hash_codes c now account codes)) [
        | inl bad ↦ absurd (let e' = rw (bad, generate_backup_codes) at e in ground arith)
        | inr (cs, fine) ↦ elim (Bool-cases commits) [
          | inr undone ↦
              absurd (let e' = rw (fine, undone, generate_backup_codes) at e in ground arith)
          | inl done ↦
              let old = soft_delete_credentials_by_type now account backup_code rows in
              let new = hashed-good now account code codes cs well fine h in
              rw (fine, done, generate_backup_codes)
                (good-verifies later account code (create_credentials cs old)
                  (append-has (is_good c account code) old cs ∙ ground (arith, new)))
        ]
      ]
