-- ===== src/Auth/Mfa/Backup.antt =====
-- VerifyBackupCode of internal/auth/service/mfa_service.go: a backup code is good for one login.
use gosso.Prelude.{
  ℕ, suc, ◌+◌, ◌≤◌, ◌≡◌, sym, subst, ◌∙◌, inl, inr, Bool, true, false, not, ◌&&◌, ◌||◌, some, List,
  [], ◌∷◌, String, arith, ◌==◌, eq→path, eq_self, if◌then◌else◌, Bool-cases, Option-cases, Result,
  ok, err,
}
use gosso.Oauth2.Client.{Time}
use gosso.Account.Credential.{Credential, backup_code, is_removed}
use gosso.Account.Credential.Rows.{
  has, set_rows, is_of, is_live_id, erased, find_by_account_and_type, soft_delete_credential,
}
use gosso.Account.Credential.Found.{has-same, find-has}
use gosso.Auth.Mfa.{MfaError, Config, find_match, verify_backup_code}

-- How many rows are such.
pub count : (Credential → Bool) → List Credential → ℕ
count p [] = 0
count p (x ∷ rest) = let later = count p rest in (if p x then 1 else 0) + later

-- The rows that can be erased are fewer after one is.
erased-count :
    (p : Credential → Bool) (now : Time) (id : String) (rows : List Credential)
    → ((x : Credential) → p x ≡ true → is_removed x ≡ false)
    → ((x : Credential) → p (erased now x) ≡ false)
    → (count p (set_rows (is_live_id id) (erased now) rows)
        + (if has (λ x. p x && x.id == id) rows then 1 else 0))
      ≤ count p rows
unfolding count
erased-count p now id [] live gone = omega arith
erased-count p now id (x ∷ rest) live gone =
    let later = erased-count p now id rest live gone in
    elim (Bool-cases (p x)) [
      | inl such ↦ elim (Bool-cases (x.id == id)) [
        | inl same ↦ rw (live x such, same, such, gone x) (ground (arith, later))
        | inr other ↦ rw (other, such) (ground (arith, later))
      ]
      | inr not_such ↦ elim (Bool-cases (is_live_id id x)) [
        | inl hit ↦ rw (hit, gone x, not_such) (ground (arith, later))
        | inr missed ↦ rw (missed, not_such) (ground (arith, later))
      ]
    ]

-- What a deletion that affects a row leaves.
deleted-rows :
    (now : Time) (id : String) (rows after : List Credential)
    → soft_delete_credential now id rows ≡ some after
    → after ≡ set_rows (is_live_id id) (erased now) rows
unfolding soft_delete_credential
deleted-rows now id rows after h = elim (Bool-cases (has (is_live_id id) rows)) [
  | inl there ↦ (let h' = rw there at h in cc)
  | inr nowhere ↦ absurd (let h' = rw nowhere at h in ground arith)
]

module _ (c : Config) where
  -- An unused backup code of the account that matches.
  abbrev pub is_good : String → String → Credential → Bool
  is_good account code x = is_of account backup_code x && (x.verified && c.compare x.value code)

  good-live :
      (account code : String) (x : Credential)
      → is_good account code x ≡ true
      → is_removed x ≡ false
  good-live account code x h = ground arith

  erased-not_good :
      (account code : String) (now : Time) (x : Credential)
      → is_good account code (erased now x) ≡ false
  erased-not_good account code now x = ground arith

  find_match-has :
      (code id : String) (xs : List Credential)
      → find_match c code xs ≡ some id
      → has (λ x. (x.verified && c.compare x.value code) && x.id == id) xs ≡ true
  unfolding find_match
  find_match-has code id [] h = absurd (ground arith)
  find_match-has code id (x ∷ rest) h = elim (Bool-cases (is_removed x || not x.verified)) [
    | inl skipped ↦
        let later = find_match-has code id rest (rw skipped at h) in ground (arith, later)
    | inr usable ↦ elim (Bool-cases (c.compare x.value code)) [
      | inl match ↦
          let e : x.id ≡ id = (let h' = rw (usable, match) at h in cc) in
          ground (arith, match, usable, subst (λ y. (x.id == y) ≡ true) e (eq_self x.id))
      | inr differ ↦
          let later = find_match-has code id rest (rw (usable, differ) at h) in
          ground (arith, later)
    ]
  ]

  used-count :
      (account code id : String) (now : Time) (rows after : List Credential)
      → find_match c code (find_by_account_and_type account backup_code rows) ≡ some id
      → soft_delete_credential now id rows ≡ some after
      → suc (count (is_good account code) after) ≤ count (is_good account code) rows
  used-count account code id now rows after found done =
      let p = is_good account code in
      let less =
        erased-count p now id rows (good-live account code) (erased-not_good account code now) in
      let there =
        has-same (λ x. p x && x.id == id)
          (λ x.
            is_of account backup_code x && ((x.verified && c.compare x.value code) && x.id == id))
          rows (λ x. ground arith)
        ∙ sym (
            find-has backup_code (λ x. (x.verified && c.compare x.value code) && x.id == id) account
              rows)
        ∙ find_match-has code id (find_by_account_and_type account backup_code rows) found in
      rw (deleted-rows now id rows after done)
        (let less' = rw there at less in omega (arith, less'))

  kept-count :
      (account code id : String) (now : Time) (rows after : List Credential)
      → soft_delete_credential now id rows ≡ some after
      → count (is_good account code) after ≤ count (is_good account code) rows
  kept-count account code id now rows after done =
      let less =
        erased-count (is_good account code) now id rows (good-live account code)
          (erased-not_good account code now) in
      rw (deleted-rows now id rows after done) (omega (arith, less))

  abbrev pub is_true : Result MfaError Bool → Bool
  is_true (ok b) = b
  is_true (err e) = false

  -- What a use of a code leaves of the codes that match another.
  verify-kept :
      (commits : Bool) (account code other : String) (now : Time) (rows : List Credential)
      → count (is_good account other) (verify_backup_code c commits now account code rows).1
        ≤ count (is_good account other) rows
  unfolding verify_backup_code
  verify-kept commits account code other now rows =
      elim (Option-cases (find_match c code (find_by_account_and_type account backup_code rows))) [
        | inl nowhere ↦ elim (Bool-cases commits) [
          | inl done ↦ rw (nowhere, done, verify_backup_code) (omega arith)
          | inr undone ↦ rw (nowhere, undone, verify_backup_code) (omega arith)
        ]
        | inr (id, found) ↦ elim (Option-cases (soft_delete_credential now id rows)) [
          | inl lost ↦ rw (found, lost, verify_backup_code) (omega arith)
          | inr (after, deleted) ↦ elim (Bool-cases commits) [
            | inl done ↦
                rw (found, deleted, done, verify_backup_code)
                  (kept-count account other id now rows after deleted)
            | inr undone ↦ rw (found, deleted, undone, verify_backup_code) (omega arith)
          ]
        ]
      ]

  -- A code that is accepted is used up.
  verify-used :
      (commits : Bool) (account code : String) (now : Time) (rows : List Credential)
      → is_true (verify_backup_code c commits now account code rows).0 ≡ true
      → suc (count (is_good account code) (verify_backup_code c commits now account code rows).1)
        ≤ count (is_good account code) rows
  unfolding verify_backup_code
  verify-used commits account code now rows h =
      elim (Option-cases (find_match c code (find_by_account_and_type account backup_code rows))) [
        | inl nowhere ↦ elim (Bool-cases commits) [
          | inl done ↦ absurd (let h' = rw (nowhere, done, verify_backup_code) at h in ground arith)
          | inr undone ↦
              absurd (let h' = rw (nowhere, undone, verify_backup_code) at h in ground arith)
        ]
        | inr (id, found) ↦ elim (Option-cases (soft_delete_credential now id rows)) [
          | inl lost ↦ absurd (let h' = rw (found, lost, verify_backup_code) at h in ground arith)
          | inr (after, deleted) ↦ elim (Bool-cases commits) [
            | inl done ↦
                rw (found, deleted, done, verify_backup_code)
                  (used-count account code id now rows after found deleted)
            | inr undone ↦
                absurd
                  (let h' = rw (found, deleted, undone, verify_backup_code) at h in ground arith)
          ]
        ]
      ]

  -- A login with a backup code, or what else happens to the table.
  pub data Event : Type 0 where
    spend : Bool → Time → (code : String) → Event
    beside : (List Credential → List Credential) → Event

  -- How often the code is accepted.
  unfoldable pub uses : String → String → List Event → List Credential → ℕ
  uses account code [] rows = 0
  uses account code (beside f ∷ rest) rows = uses account code rest (f rows)
  uses account code (spend commits now tried ∷ rest) rows =
      let (answer, after) = verify_backup_code c commits now account tried rows in
      (if tried == code && is_true answer then 1 else 0) + uses account code rest after

  -- What else happens adds no backup code that matches.
  abbrev pub AddsNone : String → String → List Event → Type 0
  AddsNone account code [] = Unit {0}
  AddsNone account code (spend commits now tried ∷ rest) = AddsNone account code rest
  AddsNone account code (beside f ∷ rest) =
      ((rows : List Credential)
        → count (is_good account code) (f rows) ≤ count (is_good account code) rows)
      × AddsNone account code rest

  -- A backup code is accepted at most as often as there are unused backup codes of the account that
  -- it matches: once, where these are different codes. Meanwhile no such code is added.
  pub backup_code-once :
      (account code : String) (events : List Event) (rows : List Credential)
      → AddsNone account code events
      → uses account code events rows ≤ count (is_good account code) rows
  unfolding uses
  backup_code-once account code [] rows adds = omega arith
  backup_code-once account code (beside f ∷ rest) rows (none_new, adds) =
      omega (arith, none_new rows, backup_code-once account code rest (f rows) adds)
  backup_code-once account code (spend commits now tried ∷ rest) rows adds =
      let x = verify_backup_code c commits now account tried rows in
      let later = backup_code-once account code rest x.1 adds in
      let kept = verify-kept commits account tried code now rows in
      elim (Bool-cases (tried == code && is_true x.0)) [
        | inr not_it ↦ rw not_it (omega (arith, later, kept))
        | inl it ↦
            let e = eq→path tried code (ground (arith, it)) in
            let less =
              subst (λ y. suc (count (is_good account y) x.1) ≤ count (is_good account y) rows) e
                (verify-used commits account tried now rows (ground (arith, it))) in
            rw it (omega (arith, later, less))
      ]
