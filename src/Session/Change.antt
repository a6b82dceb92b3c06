-- ===== src/Session/Change.antt =====
-- internal/session/service/session_service.go: UpdateSession, DeleteSession and RefreshSession.
use gosso.Prelude.{Bool, true, false, none, some, String, if◌then◌else◌, lookup, Result, ok, err}
use gosso.Redis.{Redis, session, account_sessions, Reply, value, nil, failed, exec, read}
use gosso.Oauth2.Client.{Time}
use gosso.Session.{
  Session, SessionError, session_not_found, session_expired, no_longer_exists, redis_failed,
  update_activity, Config, Local, cache_evict, cache_delete, cache_write,
}
use gosso.Session.Service.{
  Links, set_if_exists, attempt, ttl_seconds, ttl_ms, cached_as, parse_session, get_session,
  force_expire, too_old,
}

module _ (r : Redis) (c : Config r) where
  open r use {Db, Text, get, set, del, smembers, sadd, srem, expire}

  abbrev pub write_reply :
      Links
      → Session
      → Local r
      → Local r
      → Reply Bool
      → Db
      → Result SessionError (Unit {0}) × Local r × Db
  write_reply links s l stored (value true) d = (
    ok tt,
    stored,
    attempt r links.index (λ e. expire e (account_sessions s.account_id) (ttl_ms r c)) d,
  )
  write_reply links s l stored (value false) d = (err no_longer_exists, l, d)
  write_reply links s l stored _ d = (err redis_failed, l, d)

  -- `shared` says whether the local cache has the caller's session itself, so that it sees the
  -- write to it.
  unfoldable pub update_session :
      Links → Bool → Time → Session → Local r → Db → Result SessionError (Unit {0}) × Local r × Db
  unfolding set_if_exists
  update_session links shared now given l d =
      let s = update_activity now given in
      let seen = if shared then cache_write r s.id s l else l in
      let (reply, d') =
        exec links.write (set_if_exists r (session s.id) (c.json.encode s) (ttl_seconds r c)) d in
      write_reply links s seen (cache_evict r s.id seen) reply d'

  abbrev pub unindexed : Links → String → Result SessionError Session → Db → Db
  unindexed links sid (err e) d = d
  unindexed links sid (ok s) d =
      attempt r links.index (λ e. srem e (account_sessions s.account_id) sid) d

  unfoldable pub delete_session :
      Links → Time → String → Local r → Db → Result SessionError (Unit {0}) × Local r × Db
  delete_session links now sid l d =
      let (found, l') = get_session r c links.load now sid l d in
      let (reply, d') = exec links.write (λ e. (value tt, del e (session sid))) d in
      elim reply [
        | value u ↦ (ok tt, cache_evict r sid l', unindexed links sid found d')
        | _ ↦ (err redis_failed, l', d')
      ]

  -- The pointer that GetSession gave is the one in the local cache if the entry has its text.
  abbrev pub write_shared : String → Text → Session → Local r → Local r
  write_shared sid raw s l = elim (cached_as r c raw (lookup sid l.entries)) [
    | none ↦ l
    | some old ↦ cache_write r sid s l
  ]

  abbrev pub refresh_found :
      Links
      → (Db → Db)
      → Time
      → String
      → Text
      → Result SessionError Session × Local r
      → Db
      → Result SessionError (Unit {0}) × Local r × Db
  refresh_found links others now sid raw (err e, l) d = (err e, l, d)
  refresh_found links others now sid raw (ok found, l) d =
      let s = update_activity now found in
      let seen = write_shared sid raw s l in
      let (reply, d') =
        exec links.write (set_if_exists r (session sid) (c.json.encode s) (ttl_seconds r c))
          (others d) in
      let (l', d'') = force_expire r c links sid found.account_id l (others d) in
      if too_old r c now found
      then (err session_expired, l', d'')
      else write_reply links s seen (cache_delete r sid seen) reply d'

  -- `others` is what happens in Redis between its reading and its writing.
  unfoldable pub refresh_session :
      Links
      → (Db → Db)
      → Time
      → String
      → Local r
      → Db
      → Result SessionError (Unit {0}) × Local r × Db
  unfolding set_if_exists
  refresh_session links others now sid l d = elim (read r links.load d (session sid)) [
    | value raw ↦ refresh_found links others now sid raw (parse_session r c now sid raw l) d
    | nil ↦ (err session_not_found, l, d)
    | failed ↦ (err redis_failed, l, d)
  ]
