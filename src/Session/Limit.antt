-- ===== src/Session/Limit.antt =====
-- session_service_scripts.go, and EnforceSessionLimit of session_service_manage.go.
use gosso.Prelude.{
  ℕ, ◌-◌, Bool, true, false, not, ◌&&◌, ◌||◌, Option, none, some, List, [], ◌∷◌, ◌++◌, String, ltb,
  leb, nat_eq, length, codes, if◌then◌else◌, is_empty, ◌==◌, Result, ok, err,
}
use gosso.Redis.{Redis, Key, session, account_sessions, Reply, value, Link, exec}
use gosso.Session.{Config, TokenRevoker, SessionError, redis_failed, token_revoker_not_configured}

-- Lua's `<` on texts: byte by byte, which for UTF-8 is by code points.
unfoldable pub codes_lt : List ℕ → List ℕ → Bool
codes_lt xs [] = false
codes_lt [] (y ∷ ys) = true
codes_lt (x ∷ xs) (y ∷ ys) = let rest = codes_lt xs ys in ltb x y || (nat_eq x y && rest)

-- A session of the index, with the time that its text gives.
pub record Aged : Type 0 where
  pub sid : String
  pub ts : String

unfoldable pub older : Aged → Aged → Bool
older a b =
    if a.ts == b.ts
    then codes_lt (codes a.sid) (codes b.sid)
    else codes_lt (codes a.ts) (codes b.ts)

-- table.sort
unfoldable pub insert_aged : Aged → List Aged → List Aged
insert_aged a [] = a ∷ []
insert_aged a (b ∷ rest) =
    let later = insert_aged a rest in if older b a then b ∷ later else a ∷ b ∷ rest

unfoldable pub sort_aged : List Aged → List Aged
sort_aged [] = []
sort_aged (a ∷ rest) = insert_aged a (sort_aged rest)

-- What an eviction pass leaves: who was evicted, how many remain, and Redis.
pub record Pass (D : Type 0) : Type 0 where
  pub evicted : List String
  pub remaining : ℕ
  pub after : D

module _ (r : Redis) where
  open r use {Db, Text, get, set, del, smembers, sadd, srem, expire}

  abbrev has_time : Option String → Bool
  has_time none = false
  has_time (some ts) = true

  module _ (c : Config r) where
    -- The time in the text of a session of the index; `none` if the session is gone or has none.
    unfoldable pub time_of : Db → String → Option String
    time_of d sid = elim (get d (session sid)) [ none ↦ none | some t ↦ c.last_active t ]

    -- The sessions with a time, and those that are corrupted or gone.
    unfoldable pub with_time : Db → List String → List Aged
    with_time d [] = []
    with_time d (sid ∷ rest) =
        let later = with_time d rest in
        elim (time_of d sid) [ none ↦ later | some ts ↦ record { sid = sid; ts = ts } ∷ later ]

    unfoldable pub corrupted : Db → List String → List String
    corrupted d [] = []
    corrupted d (sid ∷ rest) =
        let later = corrupted d rest in
        elim (time_of d sid) [ none ↦ sid ∷ later | some ts ↦ later ]

  abbrev pub drop : Key → String → Db → Db
  drop index sid d = srem (del d (session sid)) index sid

  unfoldable pub drop_each : Key → List String → Db → Db
  drop_each index [] d = d
  drop_each index (sid ∷ rest) d = drop_each index rest (drop index sid d)

  -- A pass over the sorted sessions evicts those that `hit` chooses, until few enough remain.
  unfoldable pub evict_pass : (String → Bool) → Key → ℕ → ℕ → List Aged → Db → Pass Db
  evict_pass hit index max remaining [] d = record {
    evicted = [];
    remaining = remaining;
    after = d;
  }
  evict_pass hit index max remaining (a ∷ rest) d =
      let skip = evict_pass hit index max remaining rest d in
      let next = evict_pass hit index max (remaining - 1) rest (drop index a.sid d) in
      if leb remaining max
      then record { evicted = []; remaining = remaining; after = d }
      else if hit a.sid
      then record next { evicted = a.sid ∷ next.evicted }
      else skip

  unfoldable pub evict_sorted : Key → ℕ → String → List Aged → Db → List String × Db
  unfolding evict_pass
  evict_sorted index max protected sorted d =
      let first = evict_pass (λ sid. not (sid == protected)) index max (length sorted) sorted d in
      let second =
        evict_pass (λ sid. sid == protected) index max first.remaining sorted first.after in
      if ltb max first.remaining && not (is_empty protected)
      then (first.evicted ++ second.evicted, second.after)
      else (first.evicted, first.after)

  module _ (c : Config r) where
    -- evictOldestSessionsScript.
    unfoldable pub evict_oldest : String → ℕ → String → Db → Reply (List String) × Db
    unfolding with_time corrupted drop_each sort_aged evict_sorted
    evict_oldest account max protected d =
        let index = account_sessions account in
        let ids = smembers d index in
        let cleaned = drop_each index (corrupted c d ids) d in
        let out = evict_sorted index max protected (sort_aged (with_time c d ids)) cleaned in
        if leb (length ids) max then (value [], d) else (value out.0, out.1)

  -- The revocations run side by side, and what fails is only logged.
  unfoldable pub revoke_each : TokenRevoker r → List String → Db → Db
  revoke_each t [] d = d
  revoke_each t (sid ∷ rest) d =
      revoke_each t rest (if is_empty sid then d else (t.revoke_all_for_session sid d).1)

  abbrev pub revoke_evicted :
      TokenRevoker r → Reply (List String) × Db → Result SessionError (Unit {0}) × Db
  revoke_evicted t (value evicted, d) = (ok tt, revoke_each t evicted d)
  revoke_evicted t (_, d) = (err redis_failed, d)

  -- `protected` is "" in EnforceSessionLimit. An empty reply has nothing to revoke.
  unfoldable pub enforce_session_limit :
      Config r → Link → String → String → Db → Result SessionError (Unit {0}) × Db
  unfolding evict_oldest revoke_each
  enforce_session_limit c link account protected d =
      if leb c.max_sessions 0 then (ok tt, d) else elim c.token_revoker [
        | none ↦ (err token_revoker_not_configured, d)
        | some t ↦ revoke_evicted t (exec link (evict_oldest c account c.max_sessions protected) d)
      ]
