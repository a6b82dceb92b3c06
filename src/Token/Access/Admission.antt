-- ===== src/Token/Access/Admission.antt =====
-- token_service_validate.go, ValidateAccessTokenWithContext: which access tokens are let in, and
-- that a revoked one is not.
use gosso.Prelude.{
  ℕ, ◌+◌, ◌<◌, ◌≡◌, ◌≢◌, refl, sym, subst, ◌∙◌, ◌↔◌, inl, inr, Bool, true, false, some, String,
  arith, eq_iff, is_empty, Bool-cases, Result-cases, Result, ok, err, leb,
}
use gosso.Redis.{
  Redis, Codec, Raw, Link, up, lost_request, lost_reply, exists, read, account_revoked_after,
  blacklist_token, read, account_revoked_after,
}
use gosso.Oauth2.Client.{Time}
use gosso.Token.{TokenError}
use gosso.Token.Blacklist.{
  TokenRevocationResult, revoke_token, both, after_text, check_token_and_account_revocation,
}
use gosso.Token.Access.{
  AccessTokenClaims, Parser, parse_token, revocable, too_early, issued_before, check_revocation,
  check_claims, validate_access_token,
}
use gosso.Token.Access.Issue.{HasAudience}

-- Neither the token nor, since it was issued, its account is revoked, and it is not too early.
pub record Stands (now : Time) (c : AccessTokenClaims) (v : TokenRevocationResult) : Type 0 where
  pub token_stands : v.is_revoked ≡ false
  pub begun : too_early now c.not_before ≡ false
  pub account_stands : issued_before v.revoked_after c.issued_at ≡ false

revocation_iff :
    (now : Time) (c out : AccessTokenClaims) (v : TokenRevocationResult)
    → (check_revocation now c (ok v) ≡ ok out) ↔ ((c ≡ out) × Stands now c v)
unfolding check_revocation
revocation_iff now c out v = (
  λ h. (
    ground arith,
    record { token_stands = ground arith; begun = ground arith; account_stands = ground arith },
  ),
  λ h. ground (arith, h.0, h.1.token_stands, h.1.begun, h.1.account_stands),
)

rejected :
    (now : Time) (c out : AccessTokenClaims) (e : TokenError)
    → check_revocation now c (err e) ≢ ok out
unfolding check_revocation
rejected now c out e h = ground arith

parsed_iff :
    (parser : Parser) (now : Time) (token : String) (c : AccessTokenClaims)
    → (parse_token parser now token ≡ ok c)
      ↔ ((parser.algorithm token ≡ "RS256") × (parser.claims now token ≡ some c))
unfolding parse_token
parsed_iff parser now token c = (
  λ h. (
    ground (arith, eq_iff (parser.algorithm token) "RS256"),
    ground (arith, eq_iff (parser.algorithm token) "RS256"),
  ),
  λ h. ground (arith, eq_iff (parser.algorithm token) "RS256", h.0, h.1),
)

module _ (r : Redis) (raw : Raw (r.Text)) (epoch : Codec (r.Text) ℕ) (parser : Parser) where
  open r use {Db, Text, set, get, get-set}

  abbrev pub revocation : Link → AccessTokenClaims → Db → Result TokenError TokenRevocationResult
  revocation link c d = check_token_and_account_revocation r raw epoch link c.id (revocable c) d

  -- A token that is let in.
  pub record IsAdmitted (link : Link) (now : Time) (token : String) (d : Db) (c : AccessTokenClaims)
      : Type 0 where
    pub rs256 : parser.algorithm token ≡ "RS256"
    pub parses : parser.claims now token ≡ some c
    pub for_client : HasAudience c
    pub identified : c.id ≢ ""
    pub result : TokenRevocationResult
    pub looked_up : revocation link c d ≡ ok result
    pub stands : Stands now c result

  checked :
      (link : Link) (now : Time) (d : Db) (c out : AccessTokenClaims)
      → check_claims r raw epoch parser link now d c ≡ ok out
      → HasAudience c × (c.id ≢ "") × (check_revocation now c (revocation link c d) ≡ ok out)
  unfolding check_claims
  checked link now d c out h = (ground arith, ground (arith, eq_iff c.id ""), ground arith)

  looked :
      (now : Time) (c out : AccessTokenClaims) (x : Result TokenError TokenRevocationResult)
      → check_revocation now c x ≡ ok out
      → (v : TokenRevocationResult) × (x ≡ ok v) × (c ≡ out) × Stands now c v
  looked now c out (ok v) h =
      let (same, stands) = (revocation_iff now c out v).0 h in (v, refl, same, stands)
  looked now c out (err e) h = absurd (rejected now c out e h)

  validate-IsAdmitted :
      (link : Link) (now : Time) (token : String) (d : Db) (c : AccessTokenClaims)
      → validate_access_token r raw epoch parser link now token d ≡ ok c
      → IsAdmitted link now token d c
  unfolding validate_access_token
  validate-IsAdmitted link now token d c h = elim (Result-cases (parse_token parser now token)) [
    | inl (e, bad) ↦ absurd (ground (arith, rw (bad, validate_access_token) at h))
    | inr (p, good) ↦
        let (audience, identified, rest) =
          checked link now d p c (rw (good, validate_access_token) at h) in
        let (v, found, same, stands) = looked now p c (revocation link p d) rest in
        let (alg, parses) = (parsed_iff parser now token p).0 good in
        subst (IsAdmitted link now token d) same (record {
          rs256 = alg;
          parses = parses;
          for_client = audience;
          identified = identified;
          result = v;
          looked_up = found;
          stands = stands;
        })
  ]

  set-exists :
      (d : Db) (jti : String) (t : Text) (ms : ℕ)
      → exists r (set d (blacklist_token jti) t ms) (blacklist_token jti) ≡ true
  set-exists d jti t ms = rw (get-set d (blacklist_token jti) t ms) refl

  revoke-exists :
      (link : Link) (now : Time) (jti : String) (expires_at : Time) (d : Db)
      → now < expires_at
      → (revoke_token r raw epoch link now jti expires_at d).0 ≡ ok tt
      → exists r (revoke_token r raw epoch link now jti expires_at d).1 (blacklist_token jti) ≡ true
  unfolding revoke_token
  revoke-exists up now jti expires_at d l h =
      elim (Bool-cases (leb (expires_at + 300000000000) now)) [
        | inl late ↦ absurd (ground (arith, late, l))
        | inr early ↦ rw early (set-exists d jti _ _)
      ]
  revoke-exists lost_request now jti expires_at d l h = absurd (ground (arith, l, h))
  revoke-exists lost_reply now jti expires_at d l h = absurd (ground (arith, l, h))

  both_revoked :
      (revoked : Bool) (x : Result TokenError Time) (v : TokenRevocationResult)
      → both r raw epoch revoked x ≡ ok v
      → v.is_revoked ≡ revoked
  both_revoked revoked (ok t) v h = ground arith
  both_revoked revoked (err e) v h = absurd (ground arith)

  listed_revoked :
      (link : Link) (jti account : String) (d : Db) (v : TokenRevocationResult)
      → exists r d (blacklist_token jti) ≡ true
      → check_token_and_account_revocation r raw epoch link jti account d ≡ ok v
      → v.is_revoked ≡ true
  unfolding check_token_and_account_revocation
  listed_revoked up jti account d v e h = elim (Bool-cases (is_empty account)) [
    | inl nobody ↦
        both_revoked (exists r d (blacklist_token jti)) (ok 0) v
          (rw (nobody, check_token_and_account_revocation) at h)
        ∙ e
    | inr somebody ↦
        both_revoked (exists r d (blacklist_token jti))
          (after_text r raw epoch (read r up d (account_revoked_after account))) v
          (rw (somebody, check_token_and_account_revocation) at h)
        ∙ e
  ]
  listed_revoked lost_request jti account d v e h = absurd (ground arith)
  listed_revoked lost_reply jti account d v e h = absurd (ground arith)

  -- After RevokeAccessToken has succeeded for the identifier of a token that has not expired, no
  -- token with that identifier is let in while the entry stands.
  pub revoke_token-refuses :
      (link again : Link) (now later : Time) (jti token : String) (expires_at : Time) (d : Db)
      (c : AccessTokenClaims)
      → now < expires_at
      → c.id ≡ jti
      → (revoke_token r raw epoch link now jti expires_at d).0 ≡ ok tt
      → validate_access_token r raw epoch parser again later token
          (revoke_token r raw epoch link now jti expires_at d).1
        ≢ ok c
  revoke_token-refuses link again now later jti token expires_at d c l same h v =
      let a = validate-IsAdmitted again later token _ c v in
      let there = revoke-exists link now jti expires_at d l h in
      let listed =
        listed_revoked again c.id (revocable c) _ a.result
          (subst
            (λ i.
              exists r (revoke_token r raw epoch link now jti expires_at d).1 (blacklist_token i)
              ≡ true)
            (sym same) there)
          a.looked_up in
      ground (arith, listed, a.stands.token_stands)
