-- ===== src/Token/Access.antt =====
-- internal/token/service/token_service.go and token_service_validate.go: access tokens, as claims
-- that golang-jwt signs and parses.
pub mod Admission
pub mod Issue
use gosso.Prelude.{
  ℕ, ◌+◌, ◌≡◌, Bool, true, false, not, ◌&&◌, ◌||◌, Option, none, some, List, [], ◌∷◌, ◌++◌, String,
  ltb, if◌then◌else◌, ◌==◌, is_empty, contains, Result, ok, err, ◌>>=◌, ◌>>◌, reject,
}
use gosso.Redis.{Redis, Codec, Raw, Link}
use gosso.Oauth2.Client.{Time}
use gosso.Oauth2.DeviceCode.Service.{to_seconds}
use gosso.Token.{
  TokenError, is_zero, invalid_token, parse_failed, sign_failed, token_revoked,
  blacklist_unavailable,
}
use gosso.Token.Blacklist.{TokenRevocationResult, check_token_and_account_revocation}

pub record AccessTokenClaims : Type 0 where
  pub issuer : String
  pub subject : String
  pub audience : List String
  pub expires_at : Option Time
  pub not_before : Option Time
  pub issued_at : Option Time
  pub id : String
  pub account_id : String
  pub username : String
  pub email : String
  pub roles : List String
  pub permissions : List String
  pub scope : String
  pub client_id : String
  pub session_id : String

abbrev pub access_token_clock_skew : ℕ
access_token_clock_skew = 30000000000

abbrev pub max_short_lived_expiry : ℕ
max_short_lived_expiry = 3600000000000

-- `jwt.NewNumericDate` keeps whole seconds.
abbrev pub numeric : Time → Time
numeric t = to_seconds t

unfoldable pub ensure_client_audience : AccessTokenClaims → AccessTokenClaims
ensure_client_audience c =
    if is_empty c.client_id || contains c.audience c.client_id
    then c
    else record c { audience = c.audience ++ (c.client_id ∷ []) }

-- The identifier that is made for a token without one is an argument.
abbrev pub or_new : String → String → String
or_new uuid id = if is_empty id then uuid else id

unfoldable pub access_claims : String → ℕ → String → Time → AccessTokenClaims → AccessTokenClaims
access_claims issuer access_expiry uuid now c = ensure_client_audience (record c {
  id = or_new uuid c.id;
  issuer = issuer;
  subject = c.account_id;
  issued_at = some (numeric now);
  expires_at = some (numeric (now + access_expiry));
})

-- A missing or zero expiry is set.
abbrev pub asked_expiry : ℕ → Time → Option Time → Time
asked_expiry access_expiry now none = numeric (now + access_expiry)
asked_expiry access_expiry now (some t) = if is_zero t then numeric (now + access_expiry) else t

-- A late expiry is moved to the latest.
unfoldable pub short_expiry : ℕ → Time → Option Time → Time
short_expiry access_expiry now expires_at =
    let latest = numeric (now + max_short_lived_expiry) in
    if ltb latest (asked_expiry access_expiry now expires_at)
    then latest
    else asked_expiry access_expiry now expires_at

unfoldable pub short_lived_claims :
    String → ℕ → String → Time → AccessTokenClaims → AccessTokenClaims
unfolding short_expiry
short_lived_claims issuer access_expiry uuid now c = ensure_client_audience (record c {
  id = or_new uuid c.id;
  issuer = issuer;
  subject = c.account_id;
  issued_at = some (numeric now);
  expires_at = some (short_expiry access_expiry now c.expires_at);
})

abbrev signed : Option String → Result TokenError String
signed none = err sign_failed
signed (some t) = ok t

-- The signature is a parameter.
module _ (sign : AccessTokenClaims → Option String) (issuer : String) (access_expiry : ℕ) where
  unfoldable pub generate_access_token :
      String → Time → AccessTokenClaims → Result TokenError String
  generate_access_token uuid now c = signed (sign (access_claims issuer access_expiry uuid now c))

  unfoldable pub generate_short_lived_token :
      String → Time → AccessTokenClaims → Result TokenError String
  generate_short_lived_token uuid now c =
      signed (sign (short_lived_claims issuer access_expiry uuid now c))

-- golang-jwt: the algorithm that a token's header names, and the claims of a token whose signature,
-- issuer and times are right.
pub record Parser : Type 0 where
  pub algorithm : String → String
  pub claims : Time → String → Option AccessTokenClaims

abbrev is_rsa : String → Bool
is_rsa alg = alg == "RS256" || (alg == "RS384" || alg == "RS512")

unfoldable pub parse_token : Parser → Time → String → Result TokenError AccessTokenClaims
parse_token parser now token =
    if not (is_rsa (parser.algorithm token))
    then err parse_failed
    else if not (parser.algorithm token == "RS256")
    then err parse_failed
    else elim (parser.claims now token) [ none ↦ err parse_failed | some c ↦ ok c ]

abbrev is_some : Option Time → Bool
is_some none = false
is_some (some t) = true

-- The account whose revocation is looked up.
abbrev pub revocable : AccessTokenClaims → String
revocable c = if is_some c.issued_at && not (is_empty c.account_id) then c.account_id else ""

abbrev pub too_early : Time → Option Time → Bool
too_early now none = false
too_early now (some t) = ltb (now + access_token_clock_skew) t

abbrev pub issued_before : Time → Option Time → Bool
issued_before revoked none = false
issued_before revoked (some t) = not (is_zero revoked) && ltb t revoked

unfoldable pub check_revocation :
    Time
    → AccessTokenClaims
    → Result TokenError TokenRevocationResult
    → Result TokenError AccessTokenClaims
check_revocation now c (err e) = err blacklist_unavailable
check_revocation now c (ok v) = do
  reject v.is_revoked token_revoked
  reject (too_early now c.not_before) invalid_token
  reject (issued_before v.revoked_after c.issued_at) token_revoked
  ok c

module _ (r : Redis) (raw : Raw (r.Text)) (epoch : Codec (r.Text) ℕ) (parser : Parser) where
  open r use {Db}

  unfoldable pub check_claims :
      Link → Time → Db → AccessTokenClaims → Result TokenError AccessTokenClaims
  check_claims link now d c = do
    reject (not (is_empty c.client_id) && not (contains c.audience c.client_id)) invalid_token
    reject (is_empty c.id) invalid_token
    check_revocation now c
        (check_token_and_account_revocation r raw epoch link c.id (revocable c) d)

  unfoldable pub validate_access_token :
      Link → Time → String → Db → Result TokenError AccessTokenClaims
  validate_access_token link now token d = parse_token parser now token >>= check_claims link now d

  -- The map of RFC 7662: `none` is `active: false`.
  abbrev introspected :
      Result TokenError AccessTokenClaims → Result TokenError (Option AccessTokenClaims)
  introspected (ok c) = ok (some c)
  introspected (err blacklist_unavailable) = err blacklist_unavailable
  introspected (err e) = ok none

  unfoldable pub introspect_token :
      Link → Time → String → Db → Result TokenError (Option AccessTokenClaims)
  introspect_token link now token d = introspected (validate_access_token link now token d)
