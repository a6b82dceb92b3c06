-- ===== src/Oauth2/ClientAuth.antt =====
-- internal/oauth2/service/client_auth_service.go: clients prove who they are with the secret that
-- client_service.go gave them. The comparisons whose result is dropped only take time, and are
-- left out.
use gosso.Prelude.{
  ◌≡◌, refl, sym, subst, ◌∙◌, inl, inr, Bool, true, false, not, Option, some, String, arith, eq_iff,
  Bool-cases, ◌==◌, is_empty, if◌then◌else◌, Result, ok, err, ◌↔◌,
}
use gosso.Oauth2.Client.{Oauth2Client, Time, Url}
use gosso.Oauth2.ClientTable.{Rows}
use gosso.Oauth2.ClientService.{RegisterClientRequest, register_client, secret_hash_of}
use gosso.Oauth2.ClientService.Capability.{register_client-IsRegistered}

pub data AuthError : Type 0 where
  client_secret_required invalid_client_secret : AuthError

-- `compare` is bcrypt's comparison of a hash with a plain text.
unfoldable pub authenticate_client :
    (String → String → Bool) → Oauth2Client → String → Result AuthError (Unit {0})
authenticate_client compare client client_secret =
    if not client.is_confidential
    then ok tt
    else if is_empty client_secret
    then err client_secret_required
    else if not (compare client.client_secret_hash client_secret)
    then err invalid_client_secret
    else ok tt

-- The hash is of the secret, which is not empty, and of no other text.
abbrev pub IsHashOf : (String → String → Bool) → String → String → Type 0
IsHashOf compare hash secret =
    (is_empty secret ≡ false) × ((x : String) → compare hash x ≡ (x == secret))

module _ (compare : String → String → Bool) where
  public_lem :
      (c : Oauth2Client) (s : String)
      → c.is_confidential ≡ false
      → authenticate_client compare c s ≡ ok tt
  unfolding authenticate_client
  public_lem c s k = rw (k, authenticate_client) refl

  confidential_iff :
      (c : Oauth2Client) (p s : String)
      → c.is_confidential ≡ true
      → IsHashOf compare c.client_secret_hash p
      → (authenticate_client compare c s ≡ ok tt) ↔ (s ≡ p)
  unfolding authenticate_client
  confidential_iff c p s k (filled, only) =
      (λ h. ground (arith, eq_iff s p, only s), λ e. ground (arith, eq_iff s p, only s))

  -- A public client needs no secret. A confidential client that was registered is authenticated by
  -- the secret that its registration gave out, and by no other text, if bcrypt's comparison takes
  -- the hash that was made for this secret and nothing else.
  pub register_client-authenticate :
      (parse_url : String → Option Url) (commits : Bool) (now : Time) (row_id : String)
      (random_id : Option String) (p hash : String) (q : RegisterClientRequest) (rows : Rows)
      (c : Oauth2Client) (plain s : String)
      → IsHashOf compare hash p
      → (register_client parse_url commits now row_id random_id (some (p, hash)) q rows).0
        ≡ ok (c, plain)
      → (authenticate_client compare c s ≡ ok tt) ↔ (q.is_confidential ≡ true → s ≡ plain)
  register_client-authenticate parse_url commits now row_id random_id p hash q rows c plain s f h =
      let w =
        register_client-IsRegistered parse_url commits now row_id random_id (some (p, hash)) q rows
          c plain h in
      let made = w.from_request in
      let kind : c.is_confidential ≡ q.is_confidential = w.same_kind ∙ made.confidential in
      elim (Bool-cases q.is_confidential) [
        | inl secret ↦
            let pair : secret_hash_of true (some (p, hash))
                ≡ ok (plain, w.made.client_secret_hash) =
              rw secret at made.hashed in
            let given : p ≡ plain = ground (arith, pair) in
            let kept : hash ≡ c.client_secret_hash = ground (arith, pair, w.same_hash) in
            let iff =
              confidential_iff c p s (kind ∙ secret) (subst (λ x. IsHashOf compare x p) kept f) in
            (λ a k. iff.0 a ∙ given, λ g. iff.1 (g secret ∙ sym given))
        | inr free ↦ (λ a k. absurd (ground (arith, k, free)), λ g. public_lem c s (kind ∙ free))
      ]
