-- ===== src/Tests/ClientService.antt =====
-- Tests of the registration of clients.
use gosso.Prelude.{
  ◌≡◌, ◌⊎◌, refl, true, false, Option, none, some, [], ◌∷◌, String, ok, err, ◌==◌, if◌then◌else◌,
  contains, insert, delete, trim_space, byte_len,
}
use gosso.Oauth2.Client.{
  Oauth2Client, Url, str, is_admin_scope, new_oauth2_client, validate_redirect_uri,
}
use gosso.Oauth2.ClientTable.{Rows, create, update, find_by_client_id}
use gosso.Oauth2.ClientService.{
  RegisterClientRequest, UpdateClientRequest, has_admin_scope, client_access_denied, make_client,
  register_client, validate_client_name, validate_client_description, validate_grant_types,
  validate_scopes, check_scopes, validate_user_managed_scopes, sync_admin_capability, check_url,
  validate_redirect_uris,
}
use gosso.Oauth2.ClientService.Update.{
  check_request, change_scopes, apply_request, prepare, update_client_by_account_id,
}
use gosso.Oauth2.ClientService.Ownership.{update_client-unchanged}
use gosso.Oauth2.ClientService.Redirects.{register_client-redirect}

abbrev home : String
home = "https://app.example/cb"

abbrev pub parse : String → Option Url
parse uri =
    if uri == home
    then some
        (record { scheme = "https"; host = "app.example"; hostname = "app.example"; fragment = "" })
    else none

abbrev pub sly : RegisterClientRequest
sly = record {
  account_id = "ann";
  name = "App";
  description = "";
  redirect_uris = home ∷ [];
  post_logout_redirect_uris = [];
  grant_types = [];
  scopes = "openid" ∷ [];
  is_confidential = false;
  metadata = some (("capability", str "admin") ∷ []);
  allow_reserved_scopes = false;
}

abbrev pub app : Oauth2Client
app = record {
  id = "r1";
  account_id = "ann";
  client_id = "c1";
  client_secret_hash = "";
  name = "App";
  description = "";
  redirect_uris = home ∷ [];
  post_logout_redirect_uris = [];
  grant_types = "authorization_code" ∷ [];
  scopes = "openid" ∷ [];
  is_confidential = false;
  metadata = none;
  frontchannel_logout_uri = "";
  frontchannel_logout_session_required = false;
  backchannel_logout_uri = "";
  backchannel_logout_session_required = false;
  created_at = 20;
  updated_at = 20;
  deleted_at = none;
}

registered : (register_client parse true 20 "r1" (some "c1") none sly []).0 ≡ ok (app, "")
unfolding register_client make_client create validate_client_name validate_client_description
    validate_grant_types validate_scopes check_scopes validate_user_managed_scopes
    sync_admin_capability has_admin_scope is_admin_scope check_url validate_redirect_uris
    new_oauth2_client contains insert delete trim_space byte_len
registered = refl

register_client-redirect_example :
    validate_redirect_uri parse (some app) home ≡ contains sly.redirect_uris home
register_client-redirect_example =
    register_client-redirect parse true 20 "r1" (some "c1") none sly [] app "" home registered

abbrev renaming : UpdateClientRequest
renaming = record {
  name = some "Better";
  description = none;
  redirect_uris = none;
  post_logout_redirect_uris = none;
  grant_types = none;
  scopes = none;
  allow_reserved_scopes = false;
}

abbrev untouched : Rows → Rows
untouched rows = rows

abbrev renamed : Oauth2Client
renamed = record app { name = "Better"; updated_at = 30 }

refused :
    (update_client_by_account_id parse true untouched 30 "bob" "c1" renaming (app ∷ [])).0
    ≡ err client_access_denied
unfolding update_client_by_account_id check_request apply_request change_scopes prepare update
    validate_client_name trim_space byte_len find_by_client_id
refused = refl

update_client-unchanged_test :
    ((update_client_by_account_id parse true untouched 30 "bob" "c1" renaming (app ∷ [])).1
      ≡ app ∷ [])
    ⊎ ((update_client_by_account_id parse true untouched 30 "bob" "c1" renaming (app ∷ [])).1
        ≡ app ∷ [])
update_client-unchanged_test =
    update_client-unchanged parse true untouched 30 "bob" "c1" renaming (app ∷ [])
      client_access_denied refused
