-- ===== src/Account/Credential/Rows.antt =====
-- internal/account/repository/credential_repository_impl.go: the table account_credentials. The
-- identifiers and values that a deletion sets to NULL are not read again, and are empty here.
use gosso.Prelude.{
  Bool, true, false, not, ◌&&◌, ◌||◌, Option, none, some, List, [], ◌∷◌, ◌++◌, String, ltb, ◌==◌,
  if◌then◌else◌,
}
use gosso.Oauth2.Client.{Time}
use gosso.Account.Credential.{Credential, CredentialType, password, totp, same_type, is_removed}

abbrev pub has : (Credential → Bool) → List Credential → Bool
has p [] = false
has p (c ∷ rest) = let later = has p rest in p c || later

abbrev pub where_rows : (Credential → Bool) → List Credential → List Credential
where_rows p [] = []
where_rows p (c ∷ rest) = let later = where_rows p rest in if p c then c ∷ later else later

abbrev pub set_rows :
    (Credential → Bool) → (Credential → Credential) → List Credential → List Credential
set_rows p f [] = []
set_rows p f (c ∷ rest) = let later = set_rows p f rest in (if p c then f c else c) ∷ later

-- ORDER BY primary_credential DESC, created_at ASC
abbrev pub before : Credential → Credential → Bool
before a b =
    if a.primary_credential && b.primary_credential
      || not a.primary_credential && not b.primary_credential
    then ltb a.created_at b.created_at
    else a.primary_credential

unfoldable pub put_row : Credential → List Credential → List Credential
put_row a [] = a ∷ []
put_row a (b ∷ rest) = let later = put_row a rest in if before b a then b ∷ later else a ∷ b ∷ rest

unfoldable pub sort_rows : List Credential → List Credential
sort_rows [] = []
sort_rows (a ∷ rest) = put_row a (sort_rows rest)

abbrev pub is_of : String → CredentialType → Credential → Bool
is_of account t c = c.account_id == account && same_type c.credential_type t && not (is_removed c)

unfoldable pub find_by_account_and_type :
    String → CredentialType → List Credential → List Credential
unfolding sort_rows
find_by_account_and_type account t rows = sort_rows (where_rows (is_of account t) rows)

abbrev first_row : List Credential → Option Credential
first_row [] = none
first_row (c ∷ rest) = some c

unfoldable pub find_password_credential : String → List Credential → Option Credential
unfolding find_by_account_and_type
find_password_credential account rows = first_row (find_by_account_and_type account password rows)

-- The query has no order; here it gives the first row.
unfoldable pub find_by_type_and_identifier :
    CredentialType → String → List Credential → Option Credential
find_by_type_and_identifier t identifier rows = first_row (
    where_rows
      (λ c.
        same_type c.credential_type t
        && (elim c.identifier [ none ↦ false | some x ↦ x == identifier ])
        && not (is_removed c))
      rows)

abbrev pub is_live_id : String → Credential → Bool
is_live_id id c = c.id == id && not (is_removed c)

-- None where no row is affected.
abbrev affecting :
    (Credential → Bool) → (Credential → Credential) → List Credential → Option (List Credential)
affecting p f rows = if has p rows then some (set_rows p f rows) else none

unfoldable pub update_credential : Time → Credential → List Credential → Option (List Credential)
update_credential now c rows =
    affecting (is_live_id c.id)
      (λ x. record x {
        identifier = c.identifier;
        value = c.value;
        verified = c.verified;
        primary_credential = c.primary_credential;
        metadata = c.metadata;
        verified_at = c.verified_at;
        last_used_at = c.last_used_at;
        updated_at = now;
      })
      rows

unfoldable pub update_last_used_at : Time → String → List Credential → Option (List Credential)
update_last_used_at now id rows =
    affecting (is_live_id id) (λ x. record x { last_used_at = some now }) rows

abbrev pub erased : Time → Credential → Credential
erased now c = record c { deleted_at = some now; updated_at = now; value = ""; identifier = none }

unfoldable pub soft_delete_credential : Time → String → List Credential → Option (List Credential)
soft_delete_credential now id rows = affecting (is_live_id id) (erased now) rows

unfoldable pub soft_delete_credentials_by_type :
    Time → String → CredentialType → List Credential → List Credential
soft_delete_credentials_by_type now account t rows = set_rows (is_of account t) (erased now) rows

unfoldable pub soft_delete_credentials_by_account :
    Time → String → List Credential → List Credential
soft_delete_credentials_by_account now account rows =
    set_rows (λ c. c.account_id == account && not (is_removed c)) (erased now) rows

abbrev pub create_credentials : List Credential → List Credential → List Credential
create_credentials cs rows = rows ++ cs

-- The newest of the rows.
abbrev newest : List Credential → Option Credential
newest [] = none
newest (c ∷ rest) =
    let later = newest rest in
    elim later [ none ↦ some c | some d ↦ if ltb c.created_at d.created_at then some d else some c ]

unfoldable pub verify_first_unverified_totp :
    Time → String → List Credential → Bool × List Credential
verify_first_unverified_totp now account rows =
    elim (newest (where_rows (λ c. is_of account totp c && not c.verified) rows)) [
      | none ↦ (false, rows)
      | some d ↦ (
        true,
        set_rows (λ c. c.id == d.id) (λ c. record c { verified = true; verified_at = some now })
            rows,
      )
    ]
