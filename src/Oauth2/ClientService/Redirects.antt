-- ===== src/Oauth2/ClientService/Redirects.antt =====
-- The redirect URIs that client_service.go registers are those that client.go accepts.
use gosso.Prelude.{
  ◌≡◌, refl, sym, subst, ◌∙◌, inl, inr, Bool, true, Option, none, some, List, [], ◌∷◌, String,
  arith, eq_iff, eq→path, Bool-cases, ◌==◌, contains, ok,
}
use gosso.Oauth2.Client.{Oauth2Client, Time, Url, validate_redirect_uri}
use gosso.Oauth2.Client.Redirect.{IsAllowed, validate_redirect_uri_iff}
use gosso.Oauth2.ClientTable.{Rows}
use gosso.Oauth2.ClientService.{
  RegisterClientRequest, check_url, validate_redirect_uris, register_client,
}
use gosso.Oauth2.ClientService.Capability.{register_client-IsRegistered}

both_ways : (a b : Bool) → (a ≡ true → b ≡ true) → (b ≡ true → a ≡ true) → a ≡ b
both_ways a b f g = ground (arith, f, g)

module _ (parse_url : String → Option Url) where
  check_url-IsAllowed : (u : Option Url) → check_url parse_url u ≡ ok tt → IsAllowed u
  unfolding check_url
  check_url-IsAllowed none h = absurd (ground arith)
  check_url-IsAllowed (some u) h = record {
    url = u;
    parsed = refl;
    no_fragment = ground (arith, eq_iff u.fragment "");
    scheme = ground (arith, eq_iff u.scheme "http", eq_iff u.scheme "https");
  }

  listed-IsAllowed :
      (uris : List String) (uri : String)
      → validate_redirect_uris parse_url uris ≡ ok tt
      → contains uris uri ≡ true
      → IsAllowed (parse_url uri)
  unfolding validate_redirect_uris contains
  listed-IsAllowed [] uri h c = absurd (ground arith)
  listed-IsAllowed (x ∷ rest) uri h c = elim (Bool-cases (x == uri)) [
    | inl same ↦
        subst (λ y. IsAllowed (parse_url y)) (eq→path x uri same)
          (check_url-IsAllowed (parse_url x) (ground arith))
    | inr differ ↦ listed-IsAllowed rest uri (ground arith) (ground (arith, differ))
  ]

  -- A client that was registered is sent to every redirect URI of its registration, and to no other
  -- address.
  pub register_client-redirect :
      (commits : Bool) (now : Time) (row_id : String) (random_id : Option String)
      (secret : Option (String × String)) (q : RegisterClientRequest) (rows : Rows)
      (c : Oauth2Client) (plain uri : String)
      → (register_client parse_url commits now row_id random_id secret q rows).0 ≡ ok (c, plain)
      → validate_redirect_uri parse_url (some c) uri ≡ contains q.redirect_uris uri
  register_client-redirect commits now row_id random_id secret q rows c plain uri h =
      let w =
        register_client-IsRegistered parse_url commits now row_id random_id secret q rows c plain
          h in
      let same = w.same_redirects ∙ w.from_request.redirects in
      let iff = validate_redirect_uri_iff parse_url c uri in
      both_ways _ _ (λ v. subst (λ us. contains us uri ≡ true) same (iff.0 v).1)
        (λ v. iff.1 (
          listed-IsAllowed q.redirect_uris uri w.from_request.checked v,
          subst (λ us. contains us uri ≡ true) (sym same) v,
        ))
