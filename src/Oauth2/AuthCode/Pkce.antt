-- ===== src/Oauth2/AuthCode/Pkce.antt =====
-- What a PKCE check accepts.
use gosso.Prelude.{◌≤◌, ◌≡◌, true, String, len, codes}
use gosso.Oauth2.AuthCode.{AuthorizationCode, all_unreserved}

-- RFC 7636: a verifier of 43 to 128 unreserved characters whose S256 hash is the challenge.
pub record Proves (challenge_of : String → String) (a : AuthorizationCode) (verifier : String)
    : Type 0 where
  pub long_enough : 43 ≤ len verifier
  pub short_enough : len verifier ≤ 128
  pub unreserved : all_unreserved (codes verifier) ≡ true
  pub method : a.code_challenge_method ≡ "S256"
  pub hashed : challenge_of verifier ≡ a.code_challenge
