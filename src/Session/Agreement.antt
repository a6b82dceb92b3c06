-- ===== src/Session/Agreement.antt =====
-- session_service.go and session_service_manage.go: whole runs of the service, with the local cache
-- and without.
use gosso.Prelude.{
  ℕ, ◌*◌, ◌-◌, ◌+◌, ◌≡◌, refl, ap, Bool, true, false, List, [], ◌∷◌, String, ltb, if◌then◌else◌,
  delete, Result, ok, err,
}
use gosso.Redis.{Redis, Link}
use gosso.Oauth2.Client.{Time}
use gosso.Session.{Session, SessionError, Config, CachedSession, Local, evict_stale}
use gosso.Session.Service.{Links, validate_session, create_session}
use gosso.Session.Change.{update_session, delete_session, refresh_session}
use gosso.Session.Manage.{revoke_session, list_sessions_by_account, revoke_all_for_account}
use gosso.Session.Limit.{enforce_session_limit}
use gosso.Session.Cache.{off, IsCoherent, delete-IsCoherent}
use gosso.Session.Refines.{Refines, validate-Refines}
use gosso.Session.Calls.{created, create-Refines, delete-Refines}
use gosso.Session.Updated.{Settles, update-Refines, refresh-Refines}
use gosso.Session.Run.{revoke-Refines, list-Refines}

module _ (r : Redis) (c : Config r) where
  open r use {Db}

  -- The calls of the service, and the sweep of its cache.
  pub data Call : Type 0 where
    creates : Links → String → Time → Session → Call
    validates : Links → Time → String → Call
    updates : Links → Bool → Time → Session → Call
    deletes : Links → Time → String → Call
    refreshes : Links → (Db → Db) → Time → String → Call
    revokes : Links → Time → (account sid : String) → Call
    revokes_all : Links → (account : String) → Call
    enforces : Link → (account : String) → Call
    lists : Links → Link → Time → (account : String) → Call
    sweeps : Time → Call

  abbrev pub Answer : Type 0
  Answer = Result SessionError (List Session)

  abbrev pub map_ok : {A : Type 0} → (A → List Session) → Result SessionError A → Answer
  map_ok f (ok a) = ok (f a)
  map_ok f (err e) = err e

  abbrev pub answered :
      {A : Type 0}
      → (A → List Session)
      → Result SessionError A × Local r × Db
      → Answer × Local r × Db
  answered f x = (map_ok f x.0, x.1, x.2)

  abbrev nothing : Unit {0} → List Session
  nothing u = []

  unfoldable pub serve : Call → Local r → Db → Answer × Local r × Db
  serve (creates links random now s) l d =
      answered nothing (created r c (create_session r c links random now s l d))
  serve (validates links now sid) l d =
      answered (λ s. s ∷ []) (validate_session r c links now sid l d)
  serve (updates links shared now s) l d =
      answered nothing (update_session r c links shared now s l d)
  serve (deletes links now sid) l d = answered nothing (delete_session r c links now sid l d)
  serve (refreshes links others now sid) l d =
      answered nothing (refresh_session r c links others now sid l d)
  serve (revokes links now account sid) l d =
      answered nothing (revoke_session r c links now account sid l d)
  serve (revokes_all links account) l d =
      let (res, d') = revoke_all_for_account r c links account d in answered nothing (res, l, d')
  serve (enforces link account) l d =
      let (res, d') = enforce_session_limit r c link account "" d in answered nothing (res, l, d')
  serve (lists links clean now account) l d =
      answered (λ s. s) (list_sessions_by_account r c links clean now account l d)
  serve (sweeps now) l d = (ok [], evict_stale r c.session_ttl now l.entries l, d)

  -- A refresh or an update does not fail where it writes the session.
  abbrev pub Fits : Call → Local r → Db → Type 0
  Fits (updates links shared now s) l d = Settles r c (update_session r c links shared now s l d).0
  Fits (refreshes links others now sid) l d =
      Settles r c (refresh_session r c links others now sid l d).0
  Fits _ l d = Unit {0}

  answered-Refines :
      {A : Type 0} (f : A → List Session) (x y : Result SessionError A × Local r × Db)
      → Refines r c x y
      → Refines r c (answered f x) (answered f y)
  answered-Refines f x y t = record {
    answer = ap (map_ok f) t.answer;
    redis = t.redis;
    coherent = t.coherent;
    without = t.without;
  }

  swept-IsCoherent :
      (old : Bool) (sid : String) (size : ℕ) (l : Local r)
      → IsCoherent r c l
      → IsCoherent r c
          (if old then record { entries = delete sid l.entries; cache_size = size } else l)
  swept-IsCoherent true sid size l co = delete-IsCoherent r c sid size l co
  swept-IsCoherent false sid size l co = co

  sweep-IsCoherent :
      (now : Time) (entries : List (String × CachedSession r)) (l : Local r)
      → IsCoherent r c l
      → IsCoherent r c (evict_stale r c.session_ttl now entries l)
  unfolding evict_stale
  sweep-IsCoherent now [] l co = co
  sweep-IsCoherent now ((sid, cs) ∷ rest) l co =
      sweep-IsCoherent now rest _
        (swept-IsCoherent (ltb (cs.cached_at + 2 * c.session_ttl) now) sid (l.cache_size - 1) l co)

  serve-Refines :
      (call : Call) (l : Local r) (d : Db)
      → IsCoherent r c l
      → Fits call l d
      → Refines r c (serve call l d) (serve call (off r) d)
  unfolding serve evict_stale
  serve-Refines (creates links random now s) l d co n =
      answered-Refines nothing _ _ (create-Refines r c links random now s l d co)
  serve-Refines (validates links now sid) l d co n =
      answered-Refines (λ s. s ∷ []) _ _ (validate-Refines r c links now sid l d co)
  serve-Refines (updates links shared now s) l d co n =
      answered-Refines nothing _ _ (update-Refines r c links shared now s l d co n)
  serve-Refines (deletes links now sid) l d co n =
      answered-Refines nothing _ _ (delete-Refines r c links now sid l d co)
  serve-Refines (refreshes links others now sid) l d co n =
      answered-Refines nothing _ _ (refresh-Refines r c links others now sid l d co n)
  serve-Refines (revokes links now account sid) l d co n =
      answered-Refines nothing _ _ (revoke-Refines r c links now account sid l d co)
  serve-Refines (revokes_all links account) l d co n = record {
    answer = refl;
    redis = refl;
    coherent = co;
    without = refl;
  }
  serve-Refines (enforces link account) l d co n = record {
    answer = refl;
    redis = refl;
    coherent = co;
    without = refl;
  }
  serve-Refines (lists links clean now account) l d co n =
      answered-Refines (λ s. s) _ _ (list-Refines r c links clean now account l d co)
  serve-Refines (sweeps now) l d co n = record {
    answer = refl;
    redis = refl;
    coherent = sweep-IsCoherent now l.entries l co;
    without = refl;
  }

  -- What a run of calls answers, and what it leaves.
  abbrev serve_next : Answer × Local r × Db → List Answer × Db → List Answer × Db
  serve_next x rest = (x.0 ∷ rest.0, rest.1)

  unfoldable pub serve_all : List Call → Local r → Db → List Answer × Db
  serve_all [] l d = ([], d)
  serve_all (call ∷ rest) l d = let x = serve call l d in serve_next x (serve_all rest x.1 x.2)

  abbrev pub AllFit : List Call → Local r → Db → Type 0
  AllFit [] l d = Unit {0}
  AllFit (call ∷ rest) l d = Fits call l d × AllFit rest (serve call l d).1 (serve call l d).2

  -- Whatever calls are made of the service, and whatever the network does, its local cache of
  -- parsed sessions changes no answer and nothing in Redis: all is as with a service that caches
  -- nothing. The cache starts right, as the empty one is, and no refresh or update fails where it
  -- writes the session.
  pub serve_all-off :
      (calls : List Call) (l : Local r) (d : Db)
      → IsCoherent r c l
      → AllFit calls l d
      → serve_all calls l d ≡ serve_all calls (off r) d
  unfolding serve_all
  serve_all-off [] l d co n = refl
  serve_all-off (call ∷ rest) l d co (fit, fits) =
      let t = serve-Refines call l d co fit in
      let later = serve_all-off rest (serve call l d).1 (serve call l d).2 t.coherent fits in
      rw (t.without, ← t.answer, ← t.redis, later) refl
