-- ===== src/Session.antt =====
-- internal/session/domain/session.go, and of internal/session/service/session_service.go the
-- configuration and the local cache of parsed sessions.
pub mod Limit
pub mod Service
pub mod Change
pub mod Manage
pub mod Cache
pub mod Refines
pub mod Calls
pub mod Updated
pub mod Run
pub mod Agreement
pub mod Stable
pub mod Gone
pub mod Ended
pub mod Evicted
pub mod Limited
pub mod Capped
pub mod Enforced
pub mod Spared
pub mod Created
pub mod Tokens
pub mod Logout
use gosso.Prelude.{
  ℕ, ◌+◌, ◌-◌, ◌*◌, ◌≡◌, Bool, true, false, Option, none, some, List, [], ◌∷◌, String, ltb, leb,
  nat_eq, if◌then◌else◌, is_empty, lookup, insert, delete, Result, ok, err,
}
use gosso.Redis.{Redis, Codec, Key, session, account_sessions}
use gosso.Oauth2.Client.{Time, Metadata}

pub record Session : Type 0 where
  pub id : String
  pub account_id : String
  pub username : String
  pub ip : String
  pub user_agent : String
  pub mfa_verified : Bool
  pub created_at : Time
  pub last_active_at : Time
  pub metadata : Metadata

pub data SessionError : Type 0 where
  account_id_required session_not_found session_expired session_access_denied : SessionError
  token_revoker_not_configured no_longer_exists redis_failed unmarshal_failed : SessionError
  revoke_failed : SessionError

unfoldable pub new_session :
    String → Time → String → String → String → String → Bool → Result SessionError Session
new_session id now account_id username ip user_agent mfa_verified =
    if is_empty account_id
    then err account_id_required
    else ok (record {
      id = id;
      account_id = account_id;
      username = username;
      ip = ip;
      user_agent = user_agent;
      mfa_verified = mfa_verified;
      created_at = now;
      last_active_at = now;
      metadata = some [];
    })

-- `time.Since(t) > d`
abbrev pub since_exceeds : Time → Time → ℕ → Bool
since_exceeds now t d = ltb (t + d) now

abbrev pub is_expired : Time → ℕ → Option Session → Bool
is_expired now ttl none = true
is_expired now ttl (some s) = since_exceeds now s.last_active_at ttl

abbrev pub update_activity : Time → Session → Session
update_activity now s = record s { last_active_at = now }

-- TokenRevoker: whether the call succeeded, and Redis after it. It does not touch sessions.
pub record TokenRevoker (r : Redis) : Type 0 where
  pub revoke_all_for_session : String → r.Db → Bool × r.Db
  pub keeps_session :
      (sid x : String) (d : r.Db)
      → r.get (revoke_all_for_session sid d).1 (session x) ≡ r.get d (session x)
  pub keeps_kind :
      (sid x : String) (d : r.Db)
      → r.smembers (revoke_all_for_session sid d).1 (session x) ≡ r.smembers d (session x)
  pub keeps_index :
      (sid a : String) (d : r.Db)
      → r.smembers (revoke_all_for_session sid d).1 (account_sessions a)
        ≡ r.smembers d (account_sessions a)

-- What the service is set up with. `last_active` is the pattern by which the eviction script finds
-- the time in a session's JSON text, `same_bytes` is bytes.Equal.
pub record Config (r : Redis) : Type 0 where
  pub json : Codec (r.Text) Session
  pub last_active : r.Text → Option String
  pub same_bytes : r.Text → r.Text → Bool
  pub same_bytes-path : (a b : r.Text) → same_bytes a b ≡ true → a ≡ b
  pub session_ttl : ℕ
  pub max_session_age : ℕ
  pub max_sessions : ℕ
  pub token_revoker : Option (TokenRevoker r)
  pub index_fail_closed : Bool

abbrev pub default_session_ttl : ℕ
default_session_ttl = 86400000000000

abbrev pub default_max_session_age : ℕ
default_max_session_age = 604800000000000

abbrev pub default_max_sessions : ℕ
default_max_sessions = 10

abbrev positive_or : ℕ → ℕ → ℕ
positive_or default n = if ltb 0 n then n else default

-- NewSessionServiceWithConfig.
abbrev pub with_defaults : {r : Redis} → Config r → Config r
with_defaults c = record c {
  session_ttl = positive_or default_session_ttl c.session_ttl;
  max_session_age = positive_or default_max_session_age c.max_session_age;
  max_sessions = positive_or default_max_sessions c.max_sessions;
}

abbrev pub session_cache_max_size : ℕ
session_cache_max_size = 8192

module _ (r : Redis) where
  pub record CachedSession : Type 0 where
    pub parsed : Session
    pub json : r.Text
    pub cached_at : Time

  -- sessionCache and cacheSize.
  pub record Local : Type 0 where
    pub entries : List (String × CachedSession)
    pub cache_size : ℕ

  unfoldable pub cache_store : String → CachedSession → Local → Local
  cache_store sid cs l =
      if leb session_cache_max_size l.cache_size then l else elim (lookup sid l.entries) [
        | none ↦ record { entries = insert sid cs l.entries; cache_size = l.cache_size + 1 }
        | some old ↦ l
      ]

  -- LoadAndDelete, with the counter.
  unfoldable pub cache_evict : String → Local → Local
  cache_evict sid l = elim (lookup sid l.entries) [
    | none ↦ l
    | some old ↦ record { entries = delete sid l.entries; cache_size = l.cache_size - 1 }
  ]

  -- Delete alone, as RefreshSession does it.
  abbrev pub cache_delete : String → Local → Local
  cache_delete sid l = record l { entries = delete sid l.entries }

  unfoldable pub evict_stale : ℕ → Time → List (String × CachedSession) → Local → Local
  evict_stale ttl now [] l = l
  evict_stale ttl now ((sid, cs) ∷ rest) l = evict_stale ttl now rest (
      if ltb (cs.cached_at + 2 * ttl) now
      then record { entries = delete sid l.entries; cache_size = l.cache_size - 1 }
      else l)

  -- A write through the pointer that the cache shares with the caller.
  unfoldable pub cache_write : String → Session → Local → Local
  cache_write sid s l = elim (lookup sid l.entries) [
    | none ↦ l
    | some cs ↦ record l { entries = insert sid (record cs { parsed = s }) l.entries }
  ]
