-- ===== src/Oauth2/AuthCode.antt =====
-- internal/oauth2/domain/authorization_code.go and internal/oauth2/service/auth_code_service.go.
-- The hashes are parameters: `challenge_of` is the base64url text of SHA-256, `hash_token` its hex
-- text. The clock is an argument of each call.
pub mod Pkce
pub mod SingleUse
use gosso.Prelude.{
  ℕ, zero, suc, ◌+◌, ◌≡◌, refl, Bool, true, false, not, ◌&&◌, ◌||◌, Option, none, some, List, [],
  ◌∷◌, String, len, nat_eq, ltb, leb, if◌then◌else◌, codes, ◌==◌, is_empty, Result, ok, err, ◌>>=◌,
  ◌>>◌, reject,
}
use gosso.Oauth2.Client.{Time}
use gosso.Redis.{Redis, Reply, value, nil, failed, Link, exec, Codec, auth_code}

pub record AuthorizationCode : Type 0 where
  pub code : String
  pub client_id : String
  pub account_id : String
  pub session_id : String
  pub redirect_uri : String
  pub scopes : List String
  pub code_challenge : String
  pub code_challenge_method : String
  pub nonce : String
  pub expires_at : Time
  pub auth_time : Time
  pub auth_methods : List String

pub data CodeError : Type 0 where
  code_required auth_client_id_required auth_account_id_required : CodeError
  auth_redirect_uri_required auth_expires_required : CodeError
  code_not_found code_expired code_client_mismatch code_uri_mismatch : CodeError
  pkce_verification_failed random_failed store_failed unmarshal_failed : CodeError

-- `none` is the nil slice.
abbrev pub or_empty : Option (List String) → List String
or_empty none = []
or_empty (some xs) = xs

unfoldable pub new_authorization_code :
    String
    → String
    → String
    → String
    → Option (List String)
    → Time
    → Time
    → Result CodeError AuthorizationCode
new_authorization_code code client_id account_id redirect_uri scopes expires_at auth_time = do
  reject (is_empty code) code_required
  reject (is_empty client_id) auth_client_id_required
  reject (is_empty account_id) auth_account_id_required
  reject (is_empty redirect_uri) auth_redirect_uri_required
  reject (nat_eq expires_at 0) auth_expires_required
  ok (record {
    code = code;
    client_id = client_id;
    account_id = account_id;
    session_id = "";
    redirect_uri = redirect_uri;
    scopes = or_empty scopes;
    code_challenge = "";
    code_challenge_method = "";
    nonce = "";
    expires_at = expires_at;
    auth_time = auth_time;
    auth_methods = [];
  })

unfoldable pub is_expired : Time → Option AuthorizationCode → Bool
is_expired now none = true
is_expired now (some a) = ltb a.expires_at now

-- A to Z, a to z, 0 to 9, and - . _ ~
unfoldable pub is_unreserved : ℕ → Bool
is_unreserved c = not (
    (ltb c 65 || ltb 90 c)
    && ((ltb c 97 || ltb 122 c)
        && ((ltb c 48 || ltb 57 c)
            && (not (nat_eq c 45)
                && (not (nat_eq c 46) && (not (nat_eq c 95) && not (nat_eq c 126)))))))

unfoldable pub all_unreserved : List ℕ → Bool
unfolding is_unreserved
all_unreserved [] = true
all_unreserved (c ∷ cs) = is_unreserved c && all_unreserved cs

-- HashPKCEVerifier is `challenge_of`.
module _ (challenge_of : String → String) where
  unfoldable pub verify_pkce : Option AuthorizationCode → String → Bool
  unfolding all_unreserved
  verify_pkce none verifier = false
  verify_pkce (some a) verifier =
      if is_empty a.code_challenge
      then true
      else if ltb (len verifier) 43 || ltb 128 (len verifier)
      then false
      else if not (all_unreserved (codes verifier))
      then false
      else if a.code_challenge_method == "S256"
      then challenge_of verifier == a.code_challenge
      else false

-- The arguments of GenerateCode.
pub record CodeRequest : Type 0 where
  pub client_id : String
  pub account_id : String
  pub redirect_uri : String
  pub scopes : Option (List String)
  pub code_challenge : String
  pub code_challenge_method : String
  pub nonce : String
  pub session_id : String

-- The code before it is stored; `expiry` is in nanoseconds.
unfoldable pub make_code : Time → ℕ → String → CodeRequest → Result CodeError AuthorizationCode
unfolding new_authorization_code
make_code now expiry code q = do
  made ←
      new_authorization_code code q.client_id q.account_id q.redirect_uri q.scopes (now + expiry)
        now
  ok (record made {
    session_id = q.session_id;
    code_challenge = q.code_challenge;
    code_challenge_method = q.code_challenge_method;
    nonce = q.nonce;
  })

module _ (r : Redis) (json : Codec (r.Text) AuthorizationCode) (hash_token : String → String) where
  open r use {Db, set}

  stored_reply : AuthorizationCode → Reply (Unit {0}) × Db → Result CodeError AuthorizationCode × Db
  stored_reply ac (failed, d) = (err store_failed, d)
  stored_reply ac (_, d) = (ok ac, d)

  -- The plain code is cleared in what is stored. `ttl` is the expiry in milliseconds.
  store_code :
      Link → ℕ → Result CodeError AuthorizationCode → Db → Result CodeError AuthorizationCode × Db
  unfolding stored_reply
  store_code link ttl (err e) d = (err e, d)
  store_code link ttl (ok ac) d = stored_reply ac (
      exec link
        (λ e. (
          value tt,
          set e (auth_code (hash_token ac.code)) (json.encode (record ac { code = "" })) ttl,
        ))
        d)

  -- `random` is the hex text of 32 random bytes, if the system gives them.
  unfoldable pub generate_code :
      Link
      → Option String
      → Time
      → ℕ
      → ℕ
      → CodeRequest
      → Db
      → Result CodeError AuthorizationCode × Db
  unfolding store_code make_code
  generate_code link none now expiry ttl q d = (err random_failed, d)
  generate_code link (some code) now expiry ttl q d =
      store_code link ttl (make_code now expiry code q) d

module _ (challenge_of : String → String) where
  -- The test on the verifier, which may be missing.
  needs_verifier : AuthorizationCode → Option String → Result CodeError (Unit {0})
  unfolding verify_pkce
  needs_verifier ac none = reject (not (is_empty ac.code_challenge)) pkce_verification_failed
  needs_verifier ac (some verifier) =
      reject (not (is_empty ac.code_challenge) && not (verify_pkce challenge_of (some ac) verifier))
        pkce_verification_failed

  check_code :
      Time
      → String
      → String
      → Option String
      → AuthorizationCode
      → Result CodeError AuthorizationCode
  unfolding needs_verifier is_expired
  check_code now client uri verifier ac = do
    reject (is_expired now (some ac)) code_expired
    reject (not (ac.client_id == client)) code_client_mismatch
    reject (not (ac.redirect_uri == uri)) code_uri_mismatch
    needs_verifier ac verifier
    ok ac

  check_text :
      Time
      → String
      → String
      → Option String
      → Option AuthorizationCode
      → Result CodeError AuthorizationCode
  unfolding check_code
  check_text now client uri verifier none = err unmarshal_failed
  check_text now client uri verifier (some ac) = check_code now client uri verifier ac

module _ (r : Redis) where
  open r use {Db, Text, get, del}

  -- getAndDeleteScript
  unfoldable pub get_and_delete : String → Db → Reply Text × Db
  get_and_delete hash d = elim (get d (auth_code hash)) [
    | none ↦ (nil, d)
    | some t ↦ (value t, del d (auth_code hash))
  ]

module _ (r : Redis) (json : Codec (r.Text) AuthorizationCode)
    (hash_token challenge_of : String → String) where
  open r use {Db, Text}

  -- A call that fails has the nil result too, and the source tests that first.
  check_reply :
      Time → String → String → Option String → Reply Text → Result CodeError AuthorizationCode
  unfolding check_text
  check_reply now client uri verifier (value t) =
      check_text challenge_of now client uri verifier (json.decode t)
  check_reply now client uri verifier nil = err code_not_found
  check_reply now client uri verifier failed = err code_not_found

  unfoldable pub validate_code :
      Link
      → Time
      → String
      → String
      → String
      → Option String
      → Db
      → Result CodeError AuthorizationCode × Db
  unfolding get_and_delete check_reply
  validate_code link now code client uri verifier d =
      let (reply, d') = exec link (get_and_delete r (hash_token code)) d in
      (check_reply now client uri verifier reply, d')
