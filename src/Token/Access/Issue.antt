-- ===== src/Token/Access/Issue.antt =====
-- What access tokens are issued with.
use gosso.Prelude.{
  ℕ, ◌+◌, ◌≤◌, ◌≡◌, ◌≢◌, true, ◌||◌, Option, some, List, [], ◌∷◌, ◌++◌, String, arith, eq_iff,
  eq_self, is_empty, contains, Bool-cases, subst, sym, inl, inr,
}
use gosso.Oauth2.Client.{Time}
use gosso.Oauth2.DeviceCode.Service.{to_seconds}
use gosso.Token.Access.{
  AccessTokenClaims, ensure_client_audience, short_expiry, short_lived_claims, numeric, or_new,
  max_short_lived_expiry,
}

abbrev pub HasAudience : AccessTokenClaims → Type 0
HasAudience c = (is_empty c.client_id || contains c.audience c.client_id) ≡ true

contains-last : (xs : List String) (x : String) → contains (xs ++ (x ∷ [])) x ≡ true
unfolding contains
contains-last [] x = ground (arith, eq_self x)
contains-last (y ∷ ys) x = ground (arith, contains-last ys x)

module _ (c : AccessTokenClaims) where
  same_issuer : (ensure_client_audience c).issuer ≡ c.issuer
  unfolding ensure_client_audience
  same_issuer = ground arith

  same_subject : (ensure_client_audience c).subject ≡ c.subject
  unfolding ensure_client_audience
  same_subject = ground arith

  same_expiry : (ensure_client_audience c).expires_at ≡ c.expires_at
  unfolding ensure_client_audience
  same_expiry = ground arith

  same_id : (ensure_client_audience c).id ≡ c.id
  unfolding ensure_client_audience
  same_id = ground arith

or_new_ne : (uuid id : String) → uuid ≢ "" → or_new uuid id ≢ ""
or_new_ne uuid id u = λ p. ground (arith, u, eq_iff id "")

ensure-HasAudience : (c : AccessTokenClaims) → HasAudience (ensure_client_audience c)
unfolding ensure_client_audience
ensure-HasAudience c = elim (Bool-cases (is_empty c.client_id || contains c.audience c.client_id)) [
  | inl there ↦ rw there there
  | inr missing ↦ rw missing (ground (arith, contains-last c.audience c.client_id))
]

-- Whole seconds are not later.
numeric_le : (t : Time) → numeric t ≤ t
unfolding to_seconds
numeric_le t = omega arith

short_expiry_le :
    (access_expiry : ℕ) (now : Time) (expires_at : Option Time)
    → short_expiry access_expiry now expires_at ≤ now + max_short_lived_expiry
unfolding short_expiry
short_expiry_le access_expiry now expires_at =
    ground (arith, numeric_le (now + max_short_lived_expiry))

-- A token that is issued with the service's issuer, the account as its subject, an
-- identifier, the client in its audience if it has one, and an end within the hour.
pub record IsIssued (issuer : String) (now : Time) (asked c : AccessTokenClaims) : Type 0 where
  pub from_service : c.issuer ≡ issuer
  pub of_account : c.subject ≡ asked.account_id
  pub identified : c.id ≢ ""
  pub for_client : HasAudience c
  pub ends : (t : Time) × (c.expires_at ≡ some t) × (t ≤ now + max_short_lived_expiry)

-- A short-lived token, whatever was asked for, names the service as its issuer and the account as
-- its subject, has an identifier, has its client in its audience if it has one, and ends within the
-- hour; the identifier that is made for it is not empty.
pub short_lived_claims-IsIssued :
    (issuer : String) (access_expiry : ℕ) (uuid : String) (now : Time) (asked : AccessTokenClaims)
    → uuid ≢ ""
    → IsIssued issuer now asked (short_lived_claims issuer access_expiry uuid now asked)
unfolding short_lived_claims
short_lived_claims-IsIssued issuer access_expiry uuid now asked u = record {
  from_service = same_issuer _;
  of_account = same_subject _;
  identified = subst (λ i. i ≢ "") (sym (same_id _)) (or_new_ne uuid asked.id u);
  for_client = ensure-HasAudience _;
  ends = (
    short_expiry access_expiry now asked.expires_at,
    same_expiry _,
    short_expiry_le access_expiry now asked.expires_at,
  );
}
