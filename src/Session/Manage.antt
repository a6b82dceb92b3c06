-- ===== src/Session/Manage.antt =====
-- internal/session/service/session_service_manage.go: revocation and listing. The pipelines are
-- written as their commands one by one.
use gosso.Prelude.{
  Bool, true, not, Option, none, some, List, [], ◌∷◌, ◌++◌, String, if◌then◌else◌, ◌==◌, Result, ok,
  err,
}
use gosso.Redis.{Redis, Key, session, account_sessions, Reply, value, nil, failed, Link, exec, read}
use gosso.Oauth2.Client.{Time}
use gosso.Session.{
  Session, SessionError, session_access_denied, redis_failed, revoke_failed, Config, Local,
}
use gosso.Session.Limit.{revoke_each}
use gosso.Session.Service.{Links, attempt, get_session, force_expire, is_session_active}

-- What one session of the index comes to: stale, inactive or listed.
pub data Listed : Type 0 where
  stale : Listed
  inactive : Listed
  active : Session → Listed

module _ (r : Redis) (c : Config r) where
  open r use {Db, Text, get, set, del, smembers, sadd, srem, expire}

  -- Whether the tokens are revoked, which they are not where no revoker is set.
  abbrev pub revoke_first : String → Db → Bool × Db
  revoke_first sid d = elim c.token_revoker [
    | none ↦ (true, d)
    | some t ↦ t.revoke_all_for_session sid d
  ]

  abbrev pub unlisted :
      Links
      → String
      → String
      → Local r
      → Reply (Unit {0})
      → Db
      → Result SessionError (Unit {0}) × Local r × Db
  unlisted links account sid l (value u) d =
      (ok tt, l, attempt r links.index (λ e. srem e (account_sessions account) sid) d)
  unlisted links account sid l _ d = (err redis_failed, l, d)

  abbrev pub revoke_found :
      Links
      → String
      → String
      → Result SessionError Session × Local r
      → Db
      → Result SessionError (Unit {0}) × Local r × Db
  revoke_found links account sid (err e, l) d = (err e, l, d)
  revoke_found links account sid (ok s, l) d =
      let (revoked, d') = revoke_first sid d in
      let (reply, gone) = exec links.write (λ e. (value tt, del e (session sid))) d' in
      if not (s.account_id == account)
      then (err session_access_denied, l, d)
      else if not revoked
      then (err revoke_failed, l, d')
      else unlisted links account sid l reply gone

  unfoldable pub revoke_session :
      Links → Time → String → String → Local r → Db → Result SessionError (Unit {0}) × Local r × Db
  revoke_session links now account sid l d =
      revoke_found links account sid (get_session r c links.load now sid l d) d

  -- revokeAccountSessionsScript.
  unfoldable pub take_index : String → Db → Reply (List String) × Db
  take_index account d =
      (value (smembers d (account_sessions account)), del d (account_sessions account))

  abbrev pub revoke_tokens_each : List String → Db → Db
  revoke_tokens_each sids d = elim c.token_revoker [ none ↦ d | some t ↦ revoke_each r t sids d ]

  unfoldable pub del_sessions : List String → Db → Db
  del_sessions [] d = d
  del_sessions (sid ∷ rest) d = del_sessions rest (del d (session sid))

  -- DEL with all the keys is one call; it is not made for none.
  abbrev pub del_all : Link → List String → Db → Result SessionError (Unit {0}) × Db
  del_all link [] d = (ok tt, d)
  del_all link (sid ∷ rest) d =
      let (reply, d') = exec link (λ e. (value tt, del_sessions (sid ∷ rest) e)) d in
      elim reply [ value u ↦ (ok tt, d') | _ ↦ (err redis_failed, d') ]

  unfoldable pub revoke_all_for_account : Links → String → Db → Result SessionError (Unit {0}) × Db
  unfolding take_index del_sessions
  revoke_all_for_account links account d =
      let (reply, d') = exec links.index (take_index account) d in
      elim reply [
        | value sids ↦ del_all links.write sids (revoke_tokens_each sids d')
        | nil ↦ (ok tt, revoke_tokens_each [] d')
        | failed ↦ (err redis_failed, d')
      ]

  -- A first GET that fails is made again.
  abbrev judged : Time → Option Session → Listed
  judged now none = stale
  judged now (some s) = if is_session_active r c now s then active s else inactive

  abbrev first_or : Reply Text → Reply Text → Option Text
  first_or (value t) again = some t
  first_or _ (value t) = some t
  first_or _ _ = none

  unfoldable pub judge : Links → Time → String → Db → Listed
  judge links now sid d =
      elim (first_or (read r links.load d (session sid)) (read r links.write d (session sid))) [
        | none ↦ stale
        | some t ↦ judged now (c.json.decode t)
      ]

  -- Those to list, those to drop from the index, and the state after the inactive ones are expired.
  pub record Listing : Type 0 where
    pub sessions : List Session
    pub stale_ids : List String
    pub cache : Local r
    pub after : Db

  abbrev pub add_listed : Links → String → String → Listed → Listing → Listing
  add_listed links account sid stale out = record out { stale_ids = sid ∷ out.stale_ids }
  add_listed links account sid (active s) out = record out { sessions = out.sessions ++ s ∷ [] }
  add_listed links account sid inactive out =
      let (l, d) = force_expire r c links sid account out.cache out.after in
      record out { cache = l; after = d }

  -- The texts are read before anything is expired.
  unfoldable pub list_each : Links → Time → String → Db → List String → Listing → Listing
  unfolding judge
  list_each links now account d [] out = out
  list_each links now account d (sid ∷ rest) out =
      list_each links now account d rest (add_listed links account sid (judge links now sid d) out)

  unfoldable pub srem_each : Key → List String → Db → Db
  srem_each index [] d = d
  srem_each index (sid ∷ rest) d = srem_each index rest (srem d index sid)

  abbrev pub list_ids :
      Links
      → Link
      → Time
      → String
      → List String
      → Local r
      → Db
      → Result SessionError (List Session) × Local r × Db
  list_ids links clean now account [] l d = (ok [], l, d)
  list_ids links clean now account (sid ∷ rest) l d =
      let out =
        list_each links now account d (sid ∷ rest)
          (record { sessions = []; stale_ids = []; cache = l; after = d }) in
      elim links.load [
        | Link.up ↦ (
          ok out.sessions,
          out.cache,
          attempt r clean (srem_each (account_sessions account) out.stale_ids) out.after,
        )
        | _ ↦ (err redis_failed, l, d)
      ]

  -- The pipeline of GET calls and that of SREM calls each succeed or fail as one.
  unfoldable pub list_sessions_by_account :
      Links
      → Link
      → Time
      → String
      → Local r
      → Db
      → Result SessionError (List Session) × Local r × Db
  unfolding list_each srem_each
  list_sessions_by_account links clean now account l d = elim links.index [
    | Link.up ↦ list_ids links clean now account (smembers d (account_sessions account)) l d
    | _ ↦ (err redis_failed, l, d)
  ]
