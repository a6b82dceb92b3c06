-- ===== src/Oauth2/ClientService.antt =====
-- internal/oauth2/service/client_service.go: registration and management of clients. The audit
-- records are left out.
pub mod Update
pub mod Capability
pub mod Ownership
pub mod Redirects
use gosso.Prelude.{
  Bool, true, false, not, ◌&&◌, ◌||◌, Option, none, some, List, [], ◌∷◌, String, ltb, length,
  if◌then◌else◌, ◌==◌, is_empty, contains, insert, delete, Result, ok, err, ◌>>=◌, ◌>>◌, reject,
  trim_space, byte_len,
}
use gosso.Oauth2.Client.{
  Oauth2Client, Time, Metadata, Value, str, Url, ClientError, is_loopback, is_admin_scope,
  client_capability_metadata_key, client_capability_admin, grant_type_authorization_code,
  grant_type_refresh_token, grant_type_client_credentials, grant_type_device_code,
  new_oauth2_client,
}
use gosso.Oauth2.ClientTable.{Rows, TableError, create}

pub record RegisterClientRequest : Type 0 where
  pub account_id : String
  pub name : String
  pub description : String
  pub redirect_uris : List String
  pub post_logout_redirect_uris : List String
  pub grant_types : List String
  pub scopes : List String
  pub is_confidential : Bool
  pub metadata : Metadata
  pub allow_reserved_scopes : Bool

-- The fields that are given; `none` is nil.
pub record UpdateClientRequest : Type 0 where
  pub name : Option String
  pub description : Option String
  pub redirect_uris : Option (List String)
  pub post_logout_redirect_uris : Option (List String)
  pub grant_types : Option (List String)
  pub scopes : Option (List String)
  pub allow_reserved_scopes : Bool

pub data ServiceError : Type 0 where
  validation_error client_access_denied generate_failed database_failed : ServiceError
  client_error : ClientError → ServiceError
  table_error : TableError → ServiceError

abbrev pub Check : Type 0
Check = Result ServiceError (Unit {0})

unfoldable pub validate_client_name : String → Bool → Check
validate_client_name name required =
    if is_empty (trim_space name)
    then (if required
        then err validation_error
        else if not (is_empty name)
        then err validation_error
        else ok tt)
    else reject (ltb 256 (byte_len (trim_space name))) validation_error

unfoldable pub validate_client_description : String → Check
validate_client_description desc = reject (ltb 1024 (byte_len desc)) validation_error

abbrev pub valid_grant_types : List String
valid_grant_types =
    grant_type_authorization_code ∷ grant_type_refresh_token ∷ grant_type_client_credentials
    ∷ grant_type_device_code ∷ []

unfoldable pub validate_grant_types : List String → Check
validate_grant_types [] = ok tt
validate_grant_types (gt ∷ rest) = do
  reject (not (contains valid_grant_types gt)) validation_error
  validate_grant_types rest

unfoldable pub check_scopes : List String → Check
check_scopes [] = ok tt
check_scopes (s ∷ rest) = do
  reject (is_empty (trim_space s)) validation_error
  reject (ltb 256 (byte_len s)) validation_error
  check_scopes rest

unfoldable pub validate_scopes : List String → Check
validate_scopes scopes = do reject (ltb 30 (length scopes)) validation_error; check_scopes scopes

unfoldable pub validate_user_managed_scopes : List String → Check
validate_user_managed_scopes [] = ok tt
validate_user_managed_scopes (s ∷ rest) = do
  reject (is_admin_scope s) validation_error
  validate_user_managed_scopes rest

unfoldable pub has_admin_scope : List String → Bool
has_admin_scope [] = false
has_admin_scope (s ∷ rest) =
    let later = has_admin_scope rest in if is_admin_scope s then true else later

abbrev pub entries : Metadata → List (String × Value)
entries none = []
entries (some m) = m

unfoldable pub sync_admin_capability : Metadata → List String → List (String × Value)
sync_admin_capability metadata scopes =
    if has_admin_scope scopes
    then insert client_capability_metadata_key (str client_capability_admin) (entries metadata)
    else delete client_capability_metadata_key (entries metadata)

abbrev pub check_reserved : Bool → List String → Check
check_reserved allowed scopes = if allowed then ok tt else validate_user_managed_scopes scopes

abbrev pub optional : {A : Type 0} → (A → Check) → Option A → Check
optional check none = ok tt
optional check (some a) = check a

abbrev pub or_default : List String → List String → List String
or_default [] default = default
or_default (x ∷ xs) default = x ∷ xs

abbrev pub nil_if_empty : List (String × Value) → Metadata
nil_if_empty [] = none
nil_if_empty (e ∷ m) = some (e ∷ m)

abbrev or_failed :
    {E : Type 0} {A : Type 0} → (E → ServiceError) → Result E A → Result ServiceError A
or_failed f (ok a) = ok a
or_failed f (err e) = err (f e)

abbrev unless_failed : Option String → Result ServiceError String
unless_failed none = err generate_failed
unless_failed (some x) = ok x

-- The hash of a confidential client's secret; `bcrypt` and the random secret are a parameter.
abbrev pub secret_hash_of : Bool → Option (String × String) → Result ServiceError (String × String)
secret_hash_of false secret = ok ("", "")
secret_hash_of true none = err generate_failed
secret_hash_of true (some s) = ok s

-- `url.Parse` is a parameter.
module _ (parse_url : String → Option Url) where
  unfoldable pub check_url : Option Url → Check
  check_url none = err validation_error
  check_url (some u) = do
    reject (not (is_empty u.fragment) || is_empty u.host) validation_error
    reject (not (u.scheme == "http") && not (u.scheme == "https")) validation_error
    reject (u.scheme == "http" && not (is_loopback u.hostname)) validation_error

  unfoldable pub validate_redirect_uris : List String → Check
  validate_redirect_uris [] = ok tt
  validate_redirect_uris (uri ∷ rest) = do check_url (parse_url uri); validate_redirect_uris rest

  -- What is registered, before it is stored. The secret is a pair, of the plain text and its hash.
  unfoldable pub make_client :
      Time
      → Option String
      → Option (String × String)
      → RegisterClientRequest
      → Result ServiceError (Oauth2Client × String)
  make_client now random_id secret q = do
    client_id ← unless_failed random_id
    validate_client_name q.name true
    validate_client_description q.description
    validate_redirect_uris q.redirect_uris
    validate_redirect_uris q.post_logout_redirect_uris
    validate_grant_types q.grant_types
    pair ← secret_hash_of q.is_confidential secret
    validate_scopes (or_default q.scopes ("openid" ∷ []))
    check_reserved q.allow_reserved_scopes (or_default q.scopes ("openid" ∷ []))
    client ← or_failed client_error (
        new_oauth2_client "" now q.account_id q.name client_id
          (or_default q.grant_types (grant_type_authorization_code ∷ [])))
    ok (
      record client {
        client_secret_hash = pair.1;
        description = q.description;
        redirect_uris = q.redirect_uris;
        post_logout_redirect_uris = q.post_logout_redirect_uris;
        scopes = or_default q.scopes ("openid" ∷ []);
        is_confidential = q.is_confidential;
        metadata =
            nil_if_empty (sync_admin_capability q.metadata (or_default q.scopes ("openid" ∷ [])));
      },
      pair.0,
    )

  -- A transaction that does not commit changes nothing.
  unfoldable pub register_client :
      Bool
      → Time
      → String
      → Option String
      → Option (String × String)
      → RegisterClientRequest
      → Rows
      → Result ServiceError (Oauth2Client × String) × Rows
  register_client commits now row_id random_id secret q rows =
      elim (make_client now random_id secret q) [
        | err e ↦ (err e, rows)
        | ok (client, plain) ↦
            if not commits
            then (err database_failed, rows)
            else elim (create row_id now client rows) [
              | err e ↦ (err (table_error e), rows)
              | ok (row, rows') ↦ (ok (row, plain), rows')
            ]
      ]
