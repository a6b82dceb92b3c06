-- ===== src/Oauth2/Client/Scopes.antt =====
-- Which scopes a client is granted, and which clients can be made.
use gosso.Prelude.{
  ◌≡◌, refl, ◌↔◌, ◌≢◌, Bool, true, not, ◌&&◌, ◌||◌, some, List, [], ◌∷◌, String, arith, All,
  contains, eq_iff, ok, is_ok,
}
use gosso.Oauth2.Client.{
  Oauth2Client, Time, filter_scopes, is_admin_scope, has_admin_capability, validate_scope,
  is_valid_grant_type, check_grant_types, new_oauth2_client,
}

abbrev pub is_grantable : Bool → List String → String → Bool
is_grantable admin registered s = contains registered s && (not (is_admin_scope s) || admin)

filter_scopes-contains :
    (admin : Bool) (registered requested : List String) (s : String)
    → contains (filter_scopes admin registered requested) s
      ≡ (contains requested s && is_grantable admin registered s)
unfolding filter_scopes contains
filter_scopes-contains admin registered [] s = refl
filter_scopes-contains admin registered (x ∷ xs) s =
    ground (arith, eq_iff x s, filter_scopes-contains admin registered xs s)

-- A scope is granted exactly when it was asked for, the client registered it and, if it is an
-- administrator's scope, the client has the administrator's capability.
pub validate_scope-contains :
    (c : Oauth2Client) (requested : List String) (s : String)
    → contains (validate_scope (some c) requested) s
      ≡ (contains requested s && is_grantable (has_admin_capability (some c)) c.scopes s)
unfolding validate_scope
validate_scope-contains c requested s =
    filter_scopes-contains (has_admin_capability (some c)) c.scopes requested s

-- What a new client needs.
pub record IsComplete (account_id name client_id : String) (grant_types : List String)
    : Type 0 where
  pub account : account_id ≢ ""
  pub client : client_id ≢ ""
  pub named : name ≢ ""
  pub granted : grant_types ≢ []
  pub known : All (λ gt. is_valid_grant_type gt ≡ true) grant_types

check_grant_types_iff :
    (gts : List String)
    → (check_grant_types gts ≡ ok tt) ↔ All (λ gt. is_valid_grant_type gt ≡ true) gts
unfolding check_grant_types
check_grant_types_iff [] = (λ _. tt, λ _. refl)
check_grant_types_iff (gt ∷ gts) =
    let ih = check_grant_types_iff gts in
    (λ h. (ground arith, ih.0 (ground arith)), λ h. ground (arith, ih.1 h.1, h.0))

-- A client is made exactly when its fields are complete.
pub new_oauth2_client_iff :
    (id : String) (now : Time) (account_id name client_id : String) (grant_types : List String)
    → (is_ok (new_oauth2_client id now account_id name client_id grant_types) ≡ true)
      ↔ IsComplete account_id name client_id grant_types
unfolding new_oauth2_client
new_oauth2_client_iff id now account_id name client_id grant_types =
    let known = check_grant_types_iff grant_types in
    (
      λ h. record {
        account = λ e. ground (arith, eq_iff account_id "");
        client = λ e. ground (arith, eq_iff client_id "");
        named = λ e. ground (arith, eq_iff name "");
        granted = λ e. ground arith;
        known = known.0 (ground arith);
      },
      λ c. ground (
        arith,
        eq_iff account_id "",
        eq_iff client_id "",
        eq_iff name "",
        known.1 c.known,
        c.account,
        c.client,
        c.named,
        c.granted,
      ),
    )
