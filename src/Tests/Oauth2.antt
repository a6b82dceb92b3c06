-- ===== src/Tests/Oauth2.antt =====
-- Tests of clients and authorization codes.
use gosso.Prelude.{
  ◌≡◌, ◌↔◌, ◌&&◌, refl, true, false, Option, none, some, [], ◌∷◌, String, contains, ok, err, is_ok,
}
use gosso.Redis.{up, lost_reply, auth_code}
use gosso.Redis.Keys.{key_eq}
use gosso.Redis.Memory.{Memory, fresh}
use gosso.Oauth2.Client.{
  Oauth2Client, Url, validate_scope, has_admin_capability, new_oauth2_client, is_admin_scope,
}
use gosso.Oauth2.Client.Scopes.{
  is_grantable, validate_scope-contains, IsComplete, new_oauth2_client_iff,
}
use gosso.Oauth2.AuthCode.{AuthorizationCode, CodeRequest, code_not_found, validate_code}
use gosso.Oauth2.AuthCode.SingleUse.{Exchanged, validate_code-Exchanged, validate_code_once}
use gosso.Tests.Fixtures.{Payload, code, server, code_json, same}

abbrev app : Oauth2Client
app = record {
  id = "1";
  account_id = "a";
  client_id = "app";
  client_secret_hash = "";
  name = "App";
  description = "";
  redirect_uris = "https://app/cb" ∷ "http://localhost/cb" ∷ [];
  post_logout_redirect_uris = [];
  grant_types = "authorization_code" ∷ [];
  scopes = "openid" ∷ "admin:users" ∷ [];
  is_confidential = false;
  metadata = none;
  frontchannel_logout_uri = "";
  frontchannel_logout_session_required = false;
  backchannel_logout_uri = "";
  backchannel_logout_session_required = false;
  created_at = 1;
  updated_at = 1;
  deleted_at = none;
}

-- A parser for the one address of the tests.
abbrev parse : String → Option Url
parse uri = some (record { scheme = "https"; host = "app"; hostname = "app"; fragment = "" })

granted_scopes : validate_scope (some app) ("admin:users" ∷ "openid" ∷ "email" ∷ []) ≡ "openid" ∷ []
unfolding validate_scope is_admin_scope
granted_scopes = refl

validate_scope-contains_example :
    contains (validate_scope (some app) ("admin:users" ∷ "openid" ∷ [])) "admin:users" ≡ (
      contains ("admin:users" ∷ "openid" ∷ []) "admin:users"
      && is_grantable (has_admin_capability (some app)) app.scopes "admin:users")
validate_scope-contains_example =
    validate_scope-contains app ("admin:users" ∷ "openid" ∷ []) "admin:users"

new_oauth2_client_iff_test :
    (is_ok (new_oauth2_client "1" 5 "a" "App" "app" ("refresh_token" ∷ [])) ≡ true)
    ↔ IsComplete "a" "App" "app" ("refresh_token" ∷ [])
new_oauth2_client_iff_test = new_oauth2_client_iff "1" 5 "a" "App" "app" ("refresh_token" ∷ [])

abbrev verifier : String
verifier = "abcdefghijklmnopqrstuvwxyz0123456789-._~ABCDE"

abbrev request : CodeRequest
request = record {
  client_id = "app";
  account_id = "a";
  redirect_uri = "https://app/cb";
  scopes = some ("openid" ∷ []);
  code_challenge = verifier;
  code_challenge_method = "S256";
  nonce = "n";
  session_id = "s";
}

abbrev issued : AuthorizationCode
issued = record {
  code = "c0de";
  client_id = "app";
  account_id = "a";
  session_id = "s";
  redirect_uri = "https://app/cb";
  scopes = "openid" ∷ [];
  code_challenge = verifier;
  code_challenge_method = "S256";
  nonce = "n";
  expires_at = 110;
  auth_time = 10;
  auth_methods = [];
}

abbrev stored : Memory Payload
stored = server.set fresh (auth_code "c0de") (code (record issued { code = "" })) 1

exchange_ok :
    (validate_code server code_json same same up 50 "c0de" "app" "https://app/cb"
      (some verifier)
      stored).0
    ≡ ok (record issued { code = "" })
unfolding validate_code key_eq
exchange_ok = refl

validate_code-Exchanged_example :
    Exchanged server code_json same same stored
      (validate_code server code_json same same up 50 "c0de" "app" "https://app/cb"
        (some verifier)
        stored).1
      50
      "c0de"
      "app"
      "https://app/cb"
      (some verifier)
      (record issued { code = "" })
validate_code-Exchanged_example =
    validate_code-Exchanged server code_json same same up 50 "c0de" "app" "https://app/cb"
      (some verifier) stored (record issued { code = "" }) exchange_ok

validate_code_once_example :
    (validate_code server code_json same same up 60 "c0de" "app" "https://app/cb" (some verifier) (
      server.elapse
        (validate_code server code_json same same lost_reply 50 "c0de" "thief" "https://app/cb" none
          stored).1
        5)).0
    ≡ err code_not_found
validate_code_once_example =
    validate_code_once server code_json same same lost_reply up 50 60 "c0de" "thief"
      "https://app/cb" "app" "https://app/cb" none (some verifier) 5 stored (λ e. cc)
