-- ===== src/Oauth2/Client.antt =====
-- internal/oauth2/domain/client.go.
pub mod Redirect
pub mod Scopes
use gosso.Prelude.{
  ℕ, zero, suc, ◌≡◌, refl, Bool, true, false, not, ◌&&◌, ◌||◌, Option, none, some, List, [], ◌∷◌,
  String, arith, nat_eq, if◌then◌else◌, length, contains, ◌==◌, is_empty, lookup, Result, ok, err,
  ◌>>=◌, ◌>>◌, reject,
}
use text.Mathlib.Text.{starts_with}

-- A value of a `map[string]any`: a string, or the JSON text of anything else.
pub data Value : Type 0 where
  str : String → Value
  other : String → Value

-- `none` is the nil map.
abbrev pub Metadata : Type 0
Metadata = Option (List (String × Value))

-- Times count nanoseconds from the zero time.
abbrev pub Time : Type 0
Time = ℕ

pub record Oauth2Client : Type 0 where
  pub id : String
  pub account_id : String
  pub client_id : String
  pub client_secret_hash : String
  pub name : String
  pub description : String
  pub redirect_uris : List String
  pub post_logout_redirect_uris : List String
  pub grant_types : List String
  pub scopes : List String
  pub is_confidential : Bool
  pub metadata : Metadata
  pub frontchannel_logout_uri : String
  pub frontchannel_logout_session_required : Bool
  pub backchannel_logout_uri : String
  pub backchannel_logout_session_required : Bool
  pub created_at : Time
  pub updated_at : Time
  pub deleted_at : Option Time

abbrev pub client_capability_metadata_key : String
client_capability_metadata_key = "capability"

abbrev pub client_capability_admin : String
client_capability_admin = "admin"

abbrev pub scope_admin : String
scope_admin = "admin"

abbrev pub admin_scope_prefix : String
admin_scope_prefix = "admin:"

-- What `url.Parse` returns, as far as this package reads it.
pub record Url : Type 0 where
  pub scheme : String
  pub host : String
  pub hostname : String
  pub fragment : String

unfoldable pub is_loopback : String → Bool
is_loopback host = host == "localhost" || (host == "127.0.0.1" || host == "::1")

unfoldable pub is_valid_redirect_url : Option Url → Bool
is_valid_redirect_url none = false
is_valid_redirect_url (some u) =
    if not (u.scheme == "http") && not (u.scheme == "https")
    then false
    else if not (is_empty u.fragment)
    then false
    else if u.scheme == "http" && not (is_loopback u.hostname)
    then false
    else true

-- The loop that goes on after a match: `found` is set and never reset.
unfoldable pub find_registered : ℕ → String → List String → ℕ
find_registered found uri [] = found
find_registered found uri (registered ∷ rest) =
    find_registered (if uri == registered then 1 else found) uri rest

-- `url.Parse` is a parameter. A client is `none` where the receiver is nil.
module _ (parse_url : String → Option Url) where
  unfoldable pub is_valid_redirect_scheme : String → Bool
  unfolding is_valid_redirect_url
  is_valid_redirect_scheme uri = is_valid_redirect_url (parse_url uri)

  unfoldable pub validate_redirect_uri : Option Oauth2Client → String → Bool
  unfolding is_valid_redirect_scheme find_registered
  validate_redirect_uri none uri = false
  validate_redirect_uri (some c) uri =
      if not (is_valid_redirect_scheme uri)
      then false
      else nat_eq (find_registered 0 uri c.redirect_uris) 1

  unfoldable pub validate_post_logout_redirect_uri : Option Oauth2Client → String → Bool
  unfolding is_valid_redirect_scheme find_registered
  validate_post_logout_redirect_uri none uri = false
  validate_post_logout_redirect_uri (some c) uri =
      if not (is_valid_redirect_scheme uri)
      then false
      else nat_eq (find_registered 0 uri c.post_logout_redirect_uris) 1

unfoldable pub has_grant_type : Option Oauth2Client → String → Bool
unfolding contains
has_grant_type none gt = false
has_grant_type (some c) gt = contains c.grant_types gt

unfoldable pub is_admin_scope : String → Bool
is_admin_scope scope = scope == scope_admin || starts_with scope admin_scope_prefix

-- The type assertion `.(string)` fails on a missing key and on another type.
unfoldable pub is_admin_value : Option Value → Bool
is_admin_value (some (str s)) = s == client_capability_admin
is_admin_value _ = false

unfoldable pub has_capability : Metadata → Bool
unfolding is_admin_value lookup
has_capability none = false
has_capability (some m) = is_admin_value (lookup client_capability_metadata_key m)

unfoldable pub has_admin_capability : Option Oauth2Client → Bool
unfolding has_capability
has_admin_capability none = false
has_admin_capability (some c) = has_capability c.metadata

unfoldable pub filter_scopes : Bool → List String → List String → List String
unfolding contains
filter_scopes admin registered [] = []
filter_scopes admin registered (s ∷ rest) =
    let valid = filter_scopes admin registered rest in
    if is_admin_scope s && not admin
    then valid
    else if contains registered s
    then s ∷ valid
    else valid

unfoldable pub validate_scope : Option Oauth2Client → List String → List String
unfolding filter_scopes has_admin_capability
validate_scope none requested = []
validate_scope (some c) requested = filter_scopes (has_admin_capability (some c)) c.scopes requested

abbrev pub grant_type_authorization_code : String
grant_type_authorization_code = "authorization_code"

abbrev pub grant_type_refresh_token : String
grant_type_refresh_token = "refresh_token"

abbrev pub grant_type_client_credentials : String
grant_type_client_credentials = "client_credentials"

abbrev pub grant_type_device_code : String
grant_type_device_code = "urn:ietf:params:oauth:grant-type:device_code"

unfoldable pub is_valid_grant_type : String → Bool
is_valid_grant_type gt =
    gt == grant_type_authorization_code
    || (gt == grant_type_refresh_token
        || (gt == grant_type_client_credentials || gt == grant_type_device_code))

pub data ClientError : Type 0 where
  client_id_required client_name_required client_grant_types_required : ClientError
  client_account_id_required : ClientError
  client_invalid_grant_type : String → ClientError

check_grant_types : List String → Result ClientError (Unit {0})
unfolding is_valid_grant_type
check_grant_types [] = ok tt
check_grant_types (gt ∷ rest) = do
  reject (not (is_valid_grant_type gt)) (client_invalid_grant_type gt)
  check_grant_types rest

abbrev no_grant_types : List String → Bool
no_grant_types [] = true
no_grant_types (gt ∷ rest) = false

-- The new identifier and the time are arguments.
unfoldable pub new_oauth2_client :
    String → Time → String → String → String → List String → Result ClientError Oauth2Client
unfolding check_grant_types
new_oauth2_client id now account_id name client_id grant_types = do
  reject (is_empty account_id) client_account_id_required
  reject (is_empty client_id) client_id_required
  reject (is_empty name) client_name_required
  reject (no_grant_types grant_types) client_grant_types_required
  check_grant_types grant_types
  ok (record {
    id = id;
    account_id = account_id;
    client_id = client_id;
    client_secret_hash = "";
    name = name;
    description = "";
    redirect_uris = [];
    post_logout_redirect_uris = [];
    grant_types = grant_types;
    scopes = [];
    is_confidential = false;
    metadata = some [];
    frontchannel_logout_uri = "";
    frontchannel_logout_session_required = false;
    backchannel_logout_uri = "";
    backchannel_logout_session_required = false;
    created_at = now;
    updated_at = now;
    deleted_at = none;
  })
