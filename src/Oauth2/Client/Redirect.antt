-- ===== src/Oauth2/Client/Redirect.antt =====
-- Which redirect URIs a client accepts.
use gosso.Prelude.{
  ℕ, ◌≡◌, refl, sym, subst, ◌↔◌, ◌⊎◌, inl, inr, true, Option, none, some, List, [], ◌∷◌, String,
  arith, nat_eq, if◌then◌else◌, contains, ◌==◌, eq_iff,
}
use gosso.Oauth2.Client.{
  Oauth2Client, Url, is_valid_redirect_url, is_valid_redirect_scheme, find_registered, is_loopback,
  validate_redirect_uri,
}

find_registered-contains :
    (found : ℕ) (uri : String) (uris : List String)
    → nat_eq (find_registered found uri uris) 1
      ≡ (if contains uris uri then true else nat_eq found 1)
unfolding find_registered contains
find_registered-contains found uri [] = refl
find_registered-contains found uri (x ∷ xs) = ground (
  arith,
  eq_iff uri x,
  eq_iff x uri,
  find_registered-contains (if uri == x then 1 else found) uri xs,
)

-- An address that the package lets a client be sent to: it parses, has no fragment, and is https,
-- or http on a loopback host.
pub record IsAllowed (u : Option Url) : Type 0 where
  pub url : Url
  pub parsed : u ≡ some url
  pub no_fragment : url.fragment ≡ ""
  pub scheme : (url.scheme ≡ "https") ⊎ ((url.scheme ≡ "http") × (is_loopback url.hostname ≡ true))

valid_of_scheme :
    (scheme host hostname : String)
    → (scheme ≡ "https") ⊎ ((scheme ≡ "http") × (is_loopback hostname ≡ true))
    → is_valid_redirect_url
        (some (record { scheme = scheme; host = host; hostname = hostname; fragment = "" }))
      ≡ true
unfolding is_valid_redirect_url
valid_of_scheme scheme host hostname (inl e) = rw e refl
valid_of_scheme scheme host hostname (inr (e, l)) = rw e (rw l refl)

valid_of_url :
    (u : Url)
    → u.fragment ≡ ""
    → (u.scheme ≡ "https") ⊎ ((u.scheme ≡ "http") × (is_loopback u.hostname ≡ true))
    → is_valid_redirect_url (some u) ≡ true
valid_of_url u f s =
    subst
      (λ t.
        is_valid_redirect_url
          (some (record { scheme = u.scheme; host = u.host; hostname = u.hostname; fragment = t }))
        ≡ true)
      (sym f) (valid_of_scheme u.scheme u.host u.hostname s)

is_valid_redirect_url_iff : (u : Option Url) → (is_valid_redirect_url u ≡ true) ↔ IsAllowed u
unfolding is_valid_redirect_url
is_valid_redirect_url_iff none = (λ h. cc, λ a. cc a.parsed)
is_valid_redirect_url_iff (some u) = (
  λ h. record {
    url = u;
    parsed = refl;
    no_fragment = ground (arith, eq_iff u.fragment "");
    scheme = ground (arith, eq_iff u.scheme "http", eq_iff u.scheme "https");
  },
  λ a.
      subst (λ o. is_valid_redirect_url o ≡ true) (sym a.parsed)
        (valid_of_url a.url a.no_fragment a.scheme),
)

module _ (parse_url : String → Option Url) where
  pub validate_redirect_uri_iff :
      (c : Oauth2Client) (uri : String)
      → (validate_redirect_uri parse_url (some c) uri ≡ true)
        ↔ (IsAllowed (parse_url uri) × (contains c.redirect_uris uri ≡ true))
  unfolding validate_redirect_uri is_valid_redirect_scheme
  validate_redirect_uri_iff c uri =
      let found = find_registered-contains 0 uri c.redirect_uris in
      let allowed = is_valid_redirect_url_iff (parse_url uri) in
      (
        λ h. (allowed.0 (ground (arith, found)), ground (arith, found)),
        λ h. ground (arith, found, allowed.1 h.0, h.1),
      )
