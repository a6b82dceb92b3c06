-- ===== src/Account/Credential.antt =====
-- internal/account/domain/credential.go, and the rows of
-- internal/account/repository/credential_repository_impl.go.
pub mod Rows
pub mod Found
use gosso.Prelude.{
  ℕ, Bool, true, false, not, ◌&&◌, Option, none, some, List, [], ◌∷◌, String, leb, ltb, ◌==◌,
  is_empty, byte_len, trim_space, if◌then◌else◌, Result, ok, err,
}
use gosso.Oauth2.Client.{Time, Metadata}
use gosso.Utility.Password.{max_password_length}

pub data CredentialType : Type 0 where
  password email phone totp webauthn backup_code : CredentialType

pub record Credential : Type 0 where
  pub id : String
  pub account_id : String
  pub credential_type : CredentialType
  pub identifier : Option String
  pub value : String
  pub verified : Bool
  pub primary_credential : Bool
  pub metadata : Metadata
  pub created_at : Time
  pub updated_at : Time
  pub verified_at : Option Time
  pub last_used_at : Option Time
  pub deleted_at : Option Time

pub data CredentialError : Type 0 where
  account_id_required must_use_new_password password_required password_too_long : CredentialError
  password_too_weak hash_failed email_required invalid_email phone_required : CredentialError
  invalid_phone already_deleted : CredentialError

abbrev pub same_type : CredentialType → CredentialType → Bool
same_type password password = true
same_type email email = true
same_type phone phone = true
same_type totp totp = true
same_type webauthn webauthn = true
same_type backup_code backup_code = true
same_type _ _ = false

-- newBaseCredential
abbrev pub new_base_credential : String → Time → String → CredentialType → Credential
new_base_credential id now account_id credential_type = record {
  id = id;
  account_id = account_id;
  credential_type = credential_type;
  identifier = none;
  value = "";
  verified = false;
  primary_credential = false;
  metadata = some [];
  created_at = now;
  updated_at = now;
  verified_at = none;
  last_used_at = none;
  deleted_at = none;
}

unfoldable pub new_credential :
    String
    → Time
    → String
    → CredentialType
    → Option String
    → String
    → Result CredentialError Credential
new_credential id now account_id credential_type identifier value =
    if is_empty account_id
    then err account_id_required
    else if same_type credential_type password
    then err must_use_new_password
    else ok (record (new_base_credential id now account_id credential_type) {
      identifier = identifier;
      value = value;
    })

abbrev hashed : Credential → Option String → Result CredentialError Credential
hashed c none = err hash_failed
hashed c (some hash) = ok (record c { value = hash; verified = true })

-- `strong` is ValidatePasswordStrength, `hash` HashPassword.
unfoldable pub new_password_credential :
    (String → Bool)
    → (String → Option String)
    → String
    → Time
    → String
    → String
    → Result CredentialError Credential
unfolding byte_len
new_password_credential strong hash id now account_id plain =
    if is_empty account_id
    then err account_id_required
    else if is_empty plain
    then err password_required
    else if ltb max_password_length (byte_len plain)
    then err password_too_long
    else if not (strong plain)
    then err password_too_weak
    else hashed (new_base_credential id now account_id password) (hash plain)

-- `parses` is mail.ParseAddress.
unfoldable pub new_email_credential :
    (String → Bool) → String → Time → String → String → Result CredentialError Credential
unfolding trim_space
new_email_credential parses id now account_id address =
    if is_empty account_id
    then err account_id_required
    else if is_empty (trim_space address)
    then err email_required
    else if not (parses (trim_space address))
    then err invalid_email
    else ok (record (new_base_credential id now account_id email) {
      identifier = some (trim_space address);
    })

-- `valid` is ValidatePhoneFormat.
unfoldable pub new_phone_credential :
    (String → Bool) → String → Time → String → String → Result CredentialError Credential
unfolding trim_space
new_phone_credential valid id now account_id number =
    if is_empty account_id
    then err account_id_required
    else if is_empty (trim_space number)
    then err phone_required
    else if not (valid (trim_space number))
    then err invalid_phone
    else ok (record (new_base_credential id now account_id phone) {
      identifier = some (trim_space number);
    })

abbrev pub is_removed : Credential → Bool
is_removed c = elim c.deleted_at [ none ↦ false | some t ↦ true ]

-- Verify, MarkUsed and SoftDelete of a credential.
unfoldable pub verify : Time → Credential → Credential
verify now c = if c.verified then c else record c { verified = true; verified_at = some now }

unfoldable pub mark_used : Time → Credential → Credential
mark_used now c = record c { last_used_at = some now }

unfoldable pub soft_delete : Time → Credential → Result CredentialError Credential
soft_delete now c =
    if is_removed c
    then err already_deleted
    else ok (record c { deleted_at = some now; updated_at = now; value = ""; identifier = none })
