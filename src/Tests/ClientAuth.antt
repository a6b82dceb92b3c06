-- ===== src/Tests/ClientAuth.antt =====
-- Tests of the authentication of clients.
use gosso.Prelude.{
  ◌≡◌, ◌↔◌, refl, Bool, true, some, [], String, ok, err, ◌==◌, contains, insert, delete, trim_space,
  byte_len,
}
use gosso.Oauth2.Client.{Oauth2Client, is_admin_scope, new_oauth2_client}
use gosso.Oauth2.ClientTable.{create}
use gosso.Oauth2.ClientService.{
  RegisterClientRequest, has_admin_scope, make_client, register_client, validate_client_name,
  validate_client_description, validate_grant_types, validate_scopes, check_scopes,
  validate_user_managed_scopes, sync_admin_capability, check_url, validate_redirect_uris,
}
use gosso.Oauth2.ClientAuth.{
  authenticate_client, client_secret_required, invalid_client_secret, register_client-authenticate,
}
use gosso.Tests.ClientService.{sly, parse, app}

abbrev compare : String → String → Bool
compare hash x = x == hash

abbrev backend : RegisterClientRequest
backend = record sly { is_confidential = true }

abbrev server_app : Oauth2Client
server_app = record app { client_secret_hash = "s3cret"; is_confidential = true }

admitted :
    (register_client parse true 20 "r1" (some "c1") (some ("s3cret", "s3cret")) backend []).0
    ≡ ok (server_app, "s3cret")
unfolding register_client make_client create validate_client_name validate_client_description
    validate_grant_types validate_scopes check_scopes validate_user_managed_scopes
    sync_admin_capability has_admin_scope is_admin_scope check_url validate_redirect_uris
    new_oauth2_client contains insert delete trim_space byte_len
admitted = refl

abbrev given : String
given = "s3cret"

register_client-authenticate_example :
    (authenticate_client compare server_app given ≡ ok tt)
    ↔ (backend.is_confidential ≡ true → given ≡ given)
register_client-authenticate_example =
    register_client-authenticate compare parse true 20 "r1" (some "c1") given given backend []
      server_app given given (refl, λ x. refl) admitted

no_secret : authenticate_client compare server_app "" ≡ err client_secret_required
unfolding authenticate_client
no_secret = refl

wrong_secret : authenticate_client compare server_app "guess" ≡ err invalid_client_secret
unfolding authenticate_client
wrong_secret = refl
