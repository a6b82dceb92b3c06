-- ===== src/Tests/Access.antt =====
-- Tests of access tokens.
use gosso.Prelude.{
  ℕ, ◌≡◌, ◌≢◌, refl, none, some, [], ◌∷◌, String, Option, arith, eq_iff, ok, contains, ◌==◌,
  if◌then◌else◌,
}
use gosso.Redis.{up}
use gosso.Oauth2.Client.{Time}
use gosso.Redis.Memory.{fresh}
use gosso.Token.Blacklist.{revoke_token, after_text, check_token_and_account_revocation}
use gosso.Token.Access.{
  AccessTokenClaims, Parser, parse_token, check_claims, check_revocation, validate_access_token,
  short_lived_claims,
}
use gosso.Token.Access.Issue.{IsIssued, short_lived_claims-IsIssued}
use gosso.Token.Access.Admission.{revoke_token-refuses}
use gosso.Tests.Fixtures.{server, plain_text, number_text}

abbrev noon : ℕ
noon = 63840000000000000000

abbrev claims : AccessTokenClaims
claims = record {
  issuer = "https://id.example";
  subject = "ann";
  audience = "app" ∷ [];
  expires_at = some 63840000900000000000;
  not_before = none;
  issued_at = some noon;
  id = "j1";
  account_id = "ann";
  username = "";
  email = "";
  roles = [];
  permissions = [];
  scope = "openid";
  client_id = "app";
  session_id = "s1";
}

abbrev known : Time → String → Option AccessTokenClaims
known now token = if token == "signed" then some claims else none

abbrev one_token : Parser
one_token = record { algorithm = λ t. "RS256"; claims = known }

admitted :
    validate_access_token server plain_text number_text one_token up noon "signed" fresh ≡ ok claims
unfolding validate_access_token parse_token check_claims check_revocation contains after_text
    check_token_and_account_revocation
admitted = refl

listed :
    (revoke_token server plain_text number_text up noon "j1" 63840000900000000000 fresh).0 ≡ ok tt
unfolding revoke_token
listed = refl

revoke_token-refuses_example :
    validate_access_token server plain_text number_text one_token up noon "signed"
      (revoke_token server plain_text number_text up noon "j1" 63840000900000000000 fresh).1
    ≢ ok claims
revoke_token-refuses_example =
    revoke_token-refuses server plain_text number_text one_token up up noon noon "j1" "signed"
      63840000900000000000 fresh claims (omega arith) refl listed

abbrev asked : AccessTokenClaims
asked = record claims { expires_at = none; id = ""; audience = []; issued_at = none }

short_lived_claims-IsIssued_test :
    IsIssued "https://id.example" noon asked
      (short_lived_claims "https://id.example" 900000000000 "j2" noon asked)
short_lived_claims-IsIssued_test =
    short_lived_claims-IsIssued "https://id.example" 900000000000 "j2" noon asked
      (λ p. ground (arith, eq_iff "j2" ""))
