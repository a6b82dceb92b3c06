-- ===== src/Token/Refresh.antt =====
-- internal/token/service/token_service.go, token_service_revoke.go and token_service_validate.go:
-- refresh tokens in Redis, with the scripts. Audit records and log lines are left out.
pub mod Rotation
pub mod Script
pub mod Rotated
pub mod Once
pub mod Quiet
pub mod Others
pub mod Validation
pub mod Revocation
pub mod Sessions
pub mod Ended
pub mod Logout
use gosso.Prelude.{
  ℕ, ◌+◌, ◌*◌, ◌/◌, ◌≡◌, refl, Bool, true, false, Option, none, some, List, [], ◌∷◌, String, ltb,
  nat_eq, length, if◌then◌else◌, is_empty, Result, ok, err, not, ◌&&◌, ◌||◌,
}
use gosso.Redis.{
  Redis, Codec, Raw, Reply, value, nil, failed, of_option, Link, exec, read, refresh_token,
  refresh_token_replay, session_tokens,
}
use gosso.Oauth2.Client.{Time}
use gosso.Token.{
  RefreshToken, TokenError, new_refresh_token, is_zero, key_not_found, redis_failed,
  unmarshal_failed, invalid_replay, generate_failed, ip_required, refresh_token_expired,
  blacklist_unavailable, token_revoked,
}
use gosso.Token.Blacklist.{set_account_revoked_after, get_account_revoked_after, revoke_token}

-- refreshTokenReplay: the fields of a refresh token, of which the plain token is serialized too.
pub record RefreshTokenReplay : Type 0 where
  pub token : String
  pub account_id : String
  pub client_id : String
  pub session_id : String
  pub scope : String
  pub ip : String
  pub user_agent : String
  pub expires_at : Time
  pub created_at : Time

abbrev pub refresh_token_replay_seconds : ℕ
refresh_token_replay_seconds = 30

abbrev pub min_account_revocation_ttl : ℕ
min_account_revocation_ttl = 300000000000

-- `int(math.Ceil(d.Seconds()))`
abbrev pub ceil_seconds : ℕ → ℕ
ceil_seconds d = (d + 999999999) / 1000000000

abbrev pub at_least_one : ℕ → ℕ
at_least_one n = if ltb n 1 then 1 else n

abbrev pub replay_of : RefreshToken → RefreshTokenReplay
replay_of rt = record {
  token = rt.token;
  account_id = rt.account_id;
  client_id = rt.client_id;
  session_id = rt.session_id;
  scope = rt.scope;
  ip = rt.ip;
  user_agent = rt.user_agent;
  expires_at = rt.expires_at;
  created_at = rt.created_at;
}

unfoldable pub parse_refresh_token_replay :
    Option RefreshTokenReplay → Result TokenError RefreshToken
parse_refresh_token_replay none = err unmarshal_failed
parse_refresh_token_replay (some replay) =
    if is_empty replay.token || (is_empty replay.account_id || is_zero replay.expires_at)
    then err invalid_replay
    else ok (record {
      token = replay.token;
      account_id = replay.account_id;
      client_id = replay.client_id;
      session_id = replay.session_id;
      scope = replay.scope;
      ip = replay.ip;
      user_agent = replay.user_agent;
      expires_at = replay.expires_at;
      created_at = replay.created_at;
    })

-- What the service is set up with. `session_in` is the pattern of the scripts that finds the
-- session in a token's JSON text, "" if there is no match.
pub record Store (r : Redis) : Type 0 where
  pub token_json : Codec (r.Text) RefreshToken
  pub replay_json : Codec (r.Text) RefreshTokenReplay
  pub epoch : Codec (r.Text) ℕ
  pub raw : Raw (r.Text)
  pub session_in : r.Text → String
  pub hash_token : String → String
  pub access_expiry : ℕ
  pub refresh_expiry : ℕ
  pub enforce_ip_binding : Bool

-- Who asks, from the context, and for what.
pub record TokenRequest : Type 0 where
  pub account_id : String
  pub client_id : String
  pub session_id : String
  pub scope : String
  pub ip : String
  pub user_agent : String

module _ (r : Redis) (s : Store r) where
  open r use {Db, Text, get, set, del, smembers, sadd, srem, expire}

  -- The plain token is not serialized.
  abbrev pub token_text : RefreshToken → Text
  token_text rt = s.token_json.encode (record rt { token = "" })

  -- storeRefreshTokenScript.
  unfoldable pub store_refresh_token : String → String → Text → ℕ → Db → Reply ℕ × Db
  store_refresh_token hash session text seconds d =
      let stored = set d (refresh_token hash) text (1000 * seconds) in
      if is_empty session then (value 1, stored) else (
        value 1,
        expire (sadd stored (session_tokens session) hash) (session_tokens session)
            (1000 * seconds),
      )

  abbrev stored : {A : Type 0} → A → Reply ℕ → Result TokenError A
  stored a (value n) = ok a
  stored a _ = err redis_failed

  unfoldable pub make_token : Time → String → TokenRequest → RefreshToken
  make_token now token q = record {
    token = token;
    account_id = q.account_id;
    client_id = q.client_id;
    session_id = q.session_id;
    scope = q.scope;
    ip = q.ip;
    user_agent = q.user_agent;
    expires_at = now + s.refresh_expiry;
    created_at = now;
  }

  -- The random token is `none` where the source of randomness fails.
  unfoldable pub generate_refresh_token :
      Link → Option String → Time → TokenRequest → Db → Result TokenError RefreshToken × Db
  unfolding make_token
  generate_refresh_token link none now q d = (err generate_failed, d)
  generate_refresh_token link (some token) now q d =
      let rt = make_token now token q in
      if is_empty q.ip && s.enforce_ip_binding
      then (err ip_required, d)
      else (let (reply, d') =
            exec link
              (store_refresh_token (s.hash_token token) q.session_id (token_text rt)
                (at_least_one (ceil_seconds s.refresh_expiry)))
              d in
          (stored rt reply, d'))

  unfoldable pub check_revoked :
      RefreshToken → Result TokenError Time → Result TokenError RefreshToken
  check_revoked rt (err e) = err blacklist_unavailable
  check_revoked rt (ok revoked_after) =
      if not (is_zero revoked_after) && ltb rt.created_at revoked_after
      then err token_revoked
      else ok rt

  unfoldable pub check_token :
      Link → Time → Db → Option RefreshToken → Result TokenError RefreshToken
  unfolding check_revoked
  check_token link now d none = err unmarshal_failed
  check_token link now d (some rt) =
      if is_zero rt.expires_at || ltb rt.expires_at now
      then err refresh_token_expired
      else if is_empty rt.account_id
      then ok rt
      else check_revoked rt (get_account_revoked_after r s.raw s.epoch link rt.account_id d)

  -- Two reads: of the token, and of the account's revocation.
  unfoldable pub validate_refresh_token :
      Link → Link → Time → String → Db → Result TokenError RefreshToken
  unfolding check_token
  validate_refresh_token link again now token d =
      elim (read r link d (refresh_token (s.hash_token token))) [
        | nil ↦ err key_not_found
        | failed ↦ err redis_failed
        | value t ↦ check_token again now d (s.token_json.decode t)
      ]

  -- rotateAndDeleteScript.
  unfoldable pub delete_token : String → Db → Reply Text × Db
  delete_token hash d = elim (get d (refresh_token hash)) [
    | none ↦ (nil, d)
    | some text ↦
        let gone = del d (refresh_token hash) in
        if is_empty (s.session_in text)
        then (value text, gone)
        else (value text, srem gone (session_tokens (s.session_in text)) hash)
  ]

  abbrev deleted : Reply Text → Result TokenError (Unit {0})
  deleted failed = err redis_failed
  deleted _ = ok tt

  unfoldable pub revoke_refresh_token : Link → String → Db → Result TokenError (Unit {0}) × Db
  revoke_refresh_token link token d =
      let (reply, d') = exec link (delete_token (s.hash_token token)) d in (deleted reply, d')

  unfoldable pub del_each : List String → Db → Db
  del_each [] d = d
  del_each (hash ∷ rest) d = del_each rest (del d (refresh_token hash))

  -- revokeAllSessionScript.
  unfoldable pub revoke_session : String → Db → Reply ℕ × Db
  unfolding del_each
  revoke_session session d =
      let members = smembers d (session_tokens session) in
      (value (length members), del (del_each members d) (session_tokens session))

  unfoldable pub revoke_all_for_session : Link → String → Db → Result TokenError (Unit {0}) × Db
  unfolding revoke_session
  revoke_all_for_session link session d =
      let (reply, d') = exec link (revoke_session session) d in (stored tt reply, d')

  unfoldable pub revoke_access_token :
      Link → Time → String → Time → Db → Result TokenError (Unit {0}) × Db
  revoke_access_token link now jti expires_at d =
      revoke_token r s.raw s.epoch link now jti expires_at d

  abbrev pub revocation_ttl : ℕ
  revocation_ttl =
      if ltb (s.access_expiry * 2) min_account_revocation_ttl
      then min_account_revocation_ttl
      else s.access_expiry * 2

  unfoldable pub revoke_account_tokens :
      Link → Time → String → Db → Result TokenError (Unit {0}) × Db
  revoke_account_tokens link now account d =
      set_account_revoked_after r s.raw s.epoch link account now revocation_ttl d
