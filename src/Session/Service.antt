-- ===== src/Session/Service.antt =====
-- internal/session/service/session_service.go: the calls on one session.
use gosso.Prelude.{
  ℕ, ◌*◌, ◌/◌, ◌&&◌, Bool, true, false, Option, none, some, String, ltb, if◌then◌else◌, is_empty,
  lookup, Result, ok, err,
}
use gosso.Redis.{
  Redis, Key, session, account_sessions, Reply, value, nil, failed, of_option, Link, exec, read,
  exists,
}
use gosso.Oauth2.Client.{Time}
use gosso.Token.Refresh.{ceil_seconds, at_least_one}
use gosso.Session.{
  Session, SessionError, session_not_found, session_expired, redis_failed, unmarshal_failed,
  since_exceeds, is_expired, Config, CachedSession, Local, cache_store, cache_evict,
}
use gosso.Session.Limit.{enforce_session_limit}

-- What the network does to the calls of one operation, in the order of the code.
pub record Links : Type 0 where
  pub load : Link
  pub write : Link
  pub index : Link

abbrev pub id_or : String → String → String
id_or random sid = if is_empty sid then random else sid

module _ (r : Redis) where
  open r use {Db, Text, get, set, del, smembers, sadd, srem, expire}

  -- createSessionScript.
  unfoldable pub create_script : String → String → Text → ℕ → Db → Reply (Unit {0}) × Db
  create_script sid account text seconds d = (
    value tt,
    expire (sadd (set d (session sid) text (1000 * seconds)) (account_sessions account) sid)
        (account_sessions account) (1000 * seconds),
  )

  -- setIfExistsLuaScript, with a number as its reply.
  unfoldable pub set_if_exists : Key → Text → ℕ → Db → Reply Bool × Db
  set_if_exists k text seconds d =
      if exists r d k then (value true, set d k text (1000 * seconds)) else (value false, d)

  -- GETEX.
  unfoldable pub get_ex : Key → ℕ → Db → Reply Text × Db
  get_ex k ms d = (of_option (get d k), expire d k ms)

  -- A call of which only the effect counts.
  abbrev pub attempt : Link → (Db → Db) → Db → Db
  attempt link f d = (exec link (λ e. (value tt, f e)) d).1

  module _ (c : Config r) where
    abbrev pub ttl_seconds : ℕ
    ttl_seconds = at_least_one (ceil_seconds c.session_ttl)

    abbrev pub ttl_ms : ℕ
    ttl_ms = c.session_ttl / 1000000

    abbrev pub cached_as : Text → Option (CachedSession r) → Option Session
    cached_as raw none = none
    cached_as raw (some cs) = if c.same_bytes cs.json raw then some cs.parsed else none

    -- The session of a text that Redis gave, from the local cache if it has the same text.
    unfoldable pub parse_session :
        Time → String → Text → Local r → Result SessionError Session × Local r
    parse_session now sid raw l = elim (cached_as raw (lookup sid l.entries)) [
      | some s ↦ (ok s, l)
      | none ↦ elim (c.json.decode raw) [
        | none ↦ (err unmarshal_failed, l)
        | some s ↦ (ok s, cache_store r sid (record { parsed = s; json = raw; cached_at = now }) l)
      ]
    ]

    abbrev pub parse_reply :
        Time → String → Reply Text → Local r → Result SessionError Session × Local r
    parse_reply now sid nil l = (err session_not_found, l)
    parse_reply now sid failed l = (err redis_failed, l)
    parse_reply now sid (value raw) l = parse_session now sid raw l

    unfoldable pub get_session :
        Link → Time → String → Local r → Db → Result SessionError Session × Local r
    get_session link now sid l d = parse_reply now sid (read r link d (session sid)) l

    abbrev pub revoke_tokens : String → Db → Db
    revoke_tokens sid d = elim c.token_revoker [
      | none ↦ d
      | some t ↦ (t.revoke_all_for_session sid d).1
    ]

    -- The failures of its calls are only logged.
    unfoldable pub force_expire : Links → String → String → Local r → Db → Local r × Db
    force_expire links sid account l d =
        let gone = attempt links.write (λ e. del e (session sid)) d in
        let left = attempt links.index (λ e. srem e (account_sessions account) sid) gone in
        (cache_evict r sid l, revoke_tokens sid left)

    abbrev pub too_old : Time → Session → Bool
    too_old now s = ltb 0 c.max_session_age && since_exceeds now s.created_at c.max_session_age

    -- isSessionActive
    unfoldable pub is_session_active : Time → Session → Bool
    is_session_active now s =
        if too_old now s
        then false
        else if is_expired now c.session_ttl (some s)
        then false
        else true

    abbrev pub check_lifetime :
        Links
        → Time
        → String
        → Result SessionError Session × Local r
        → Db
        → Result SessionError Session × Local r × Db
    check_lifetime links now sid (err e, l) d = (err e, l, d)
    check_lifetime links now sid (ok s, l) d =
        let (l', d') = force_expire links sid s.account_id l d in
        if too_old now s
        then (err session_expired, l', d')
        else if is_expired now c.session_ttl (some s)
        then (err session_expired, l', d')
        else (ok s, l, d)

    unfoldable pub validate_session :
        Links → Time → String → Local r → Db → Result SessionError Session × Local r × Db
    unfolding get_ex
    validate_session links now sid l d =
        let (reply, d') = exec links.load (get_ex (session sid) ttl_ms) d in
        check_lifetime links now sid (parse_reply now sid reply l) d'

    abbrev pub kept_limit :
        Session
        → Text
        → Local r
        → Result SessionError (Unit {0}) × Db
        → Result SessionError (Unit {0}) × Session × Local r × Db
    kept_limit s text l (ok u, d) = (
      ok tt,
      s,
      cache_store r s.id (record { parsed = s; json = text; cached_at = s.created_at }) l,
      d,
    )
    kept_limit s text l (err e, d) = if c.index_fail_closed then (err e, s, l, d) else (
      ok tt,
      s,
      cache_store r s.id (record { parsed = s; json = text; cached_at = s.created_at }) l,
      d,
    )

    -- What the code writes into the caller's session is returned.
    unfoldable pub create_session :
        Links
        → String
        → Time
        → Session
        → Local r
        → Db
        → Result SessionError (Unit {0}) × Session × Local r × Db
    create_session links random now given l d =
        let s : Session = record given {
          id = id_or random given.id;
          created_at = now;
          last_active_at = now;
        } in
        let (reply, d') =
          exec links.write (create_script s.id s.account_id (c.json.encode s) ttl_seconds) d in
        elim reply [
          | value u ↦
              kept_limit s (c.json.encode s) l
                (enforce_session_limit r c links.index s.account_id s.id d')
          | _ ↦ (err redis_failed, s, l, d')
        ]
