-- ===== src/Token/Refresh/Rotation.antt =====
-- token_service_revoke.go, RotateRefreshToken: a refresh token is exchanged for a new one, and for
-- half a minute the old one is answered with the same new token.
use gosso.Prelude.{
  ℕ, ◌+◌, ◌*◌, Option, none, some, String, is_empty, if◌then◌else◌, Result, ok, err, ◌>>=◌,
}
use gosso.Redis.{
  Redis, Reply, value, nil, failed, of_option, Link, exec, read, refresh_token,
  refresh_token_replay, session_tokens,
}
use gosso.Oauth2.Client.{Time}
use gosso.Token.{
  RefreshToken, TokenError, new_refresh_token, key_not_found, redis_failed, unmarshal_failed,
  generate_failed,
}
use gosso.Token.Refresh.{
  Store, replay_of, parse_refresh_token_replay, token_text, validate_refresh_token, ceil_seconds,
  refresh_token_replay_seconds,
}

-- The replacement of an old token.
unfoldable pub renew : Time → ℕ → String → RefreshToken → Result TokenError RefreshToken
renew now expiry token old = do
  rt ← new_refresh_token now token old.account_id (now + expiry)
  ok (record rt {
    client_id = old.client_id;
    session_id = old.session_id;
    scope = old.scope;
    ip = old.ip;
    user_agent = old.user_agent;
  })

-- The links of the calls of one rotation, in order, the last three for a replay.
pub record Links : Type 0 where
  pub load : Link
  pub rotate : Link
  pub replay : Link
  pub validate : Link
  pub revocation : Link

module _ (r : Redis) (s : Store r) where
  open r use {Db, Text, get, set, del, sadd, srem, expire}

  abbrev pub reindex : String → String → String → ℕ → Db → Db
  reindex session old new seconds d =
      if is_empty session
      then d
      else (let key = session_tokens session in
          expire (sadd (srem d key old) key new) key (1000 * seconds))

  -- rotateTokenScript, on the hashes of the two tokens.
  unfoldable pub rotate_script : String → String → ℕ → Text → Text → Db → Reply Text × Db
  rotate_script old new seconds text replay d = elim (get d (refresh_token old)) [
    | none ↦ (of_option (get d (refresh_token_replay old)), d)
    | some t ↦ (
      value replay,
      reindex (s.session_in t) old new seconds (
          set (set (del d (refresh_token old)) (refresh_token new) text (1000 * seconds))
            (refresh_token_replay old) replay (1000 * refresh_token_replay_seconds)),
    )
  ]

  unfoldable pub replay_valid : Links → Time → Db → RefreshToken → Result TokenError RefreshToken
  replay_valid links now d replay =
      validate_refresh_token r s links.validate links.revocation now replay.token d
      >>= (λ _. ok replay)

  -- getRefreshTokenReplay, whose every error the caller turns into "not found".
  unfoldable pub get_refresh_token_replay :
      Links → Time → String → Db → Result TokenError RefreshToken
  unfolding replay_valid
  get_refresh_token_replay links now old d =
      elim (read r links.replay d (refresh_token_replay old)) [
        | nil ↦ err key_not_found
        | failed ↦ err redis_failed
        | value t ↦ parse_refresh_token_replay (s.replay_json.decode t) >>= replay_valid links now d
      ]

  abbrev pub or_not_found : Result TokenError RefreshToken → Result TokenError RefreshToken
  or_not_found (ok rt) = ok rt
  or_not_found (err e) = err key_not_found

  -- A failed call has no result, and is taken for the nil reply.
  unfoldable pub rotated : Links → Time → String → Reply Text → Db → Result TokenError RefreshToken
  unfolding get_refresh_token_replay
  rotated links now old (value t) d = parse_refresh_token_replay (s.replay_json.decode t)
  rotated links now old _ d = or_not_found (get_refresh_token_replay links now old d)

  unfoldable pub write_rotation :
      Links
      → Time
      → String
      → Result TokenError RefreshToken
      → Db
      → Result TokenError RefreshToken × Db
  unfolding rotated rotate_script
  write_rotation links now old (err e) d = (err e, d)
  write_rotation links now old (ok rt) d =
      let (reply, d') =
        exec links.rotate
          (rotate_script old (s.hash_token rt.token) (ceil_seconds s.refresh_expiry)
            (token_text r s rt) (s.replay_json.encode (replay_of rt)))
          d in
      (rotated links now old reply d', d')

  abbrev pub renewed : Time → String → Option RefreshToken → Result TokenError RefreshToken
  renewed now token none = err unmarshal_failed
  renewed now token (some old) = renew now s.refresh_expiry token old

  -- `others` is what happens in Redis between the first call and the second.
  unfoldable pub rotate_refresh_token :
      Links → (Db → Db) → Option String → Time → String → Db → Result TokenError RefreshToken × Db
  unfolding write_rotation get_refresh_token_replay
  rotate_refresh_token links others none now old d = (err generate_failed, d)
  rotate_refresh_token links others (some token) now old d =
      elim (read r links.load d (refresh_token (s.hash_token old))) [
        | nil ↦ (
          or_not_found (get_refresh_token_replay links now (s.hash_token old) (others d)),
          others d,
        )
        | failed ↦ (err redis_failed, d)
        | value t ↦
            write_rotation links now (s.hash_token old) (renewed now token (s.token_json.decode t))
              (others d)
      ]
