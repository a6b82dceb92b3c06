-- ===== src/Session/Run.antt =====
-- session_service.go and session_service_manage.go: runs of calls, with the local cache and without.
use gosso.Prelude.{
  ◌≡◌, refl, ap, ◌∙◌, inl, inr, List, [], ◌∷◌, String, ◌==◌, Bool-cases, Result, ok, err,
}
use gosso.Redis.{
  Redis, account_sessions, Link, up, lost_request, lost_reply, Reply, value, nil, failed,
}
use gosso.Oauth2.Client.{Time}
use gosso.Session.{Session, SessionError, Config, Local, cache_evict}
use gosso.Session.Service.{Links, get_session, force_expire}
use gosso.Session.Manage.{
  revoke_session, revoke_found, revoke_first, unlisted, list_sessions_by_account, list_ids,
  list_each, judge, Listed, stale, inactive, active, Listing, add_listed,
}
use gosso.Session.Cache.{off, IsCoherent, evict-IsCoherent}
use gosso.Session.Refines.{Refines, evict_off}
use gosso.Session.Calls.{get-plain}

module _ (r : Redis) (c : Config r) where
  open r use {Db, Text}

  unlisted-Refines :
      (links : Links) (account sid : String) (l : Local r) (reply : Reply (Unit {0})) (d : Db)
      → IsCoherent r c l
      → Refines r c
          (unlisted r c links account sid l reply d)
          (unlisted r c links account sid (off r) reply d)
  unlisted-Refines links account sid l (value u) d co = record {
    answer = refl;
    redis = refl;
    coherent = co;
    without = refl;
  }
  unlisted-Refines links account sid l nil d co = record {
    answer = refl;
    redis = refl;
    coherent = co;
    without = refl;
  }
  unlisted-Refines links account sid l failed d co = record {
    answer = refl;
    redis = refl;
    coherent = co;
    without = refl;
  }

  revoke_pair-Refines :
      (links : Links) (account sid : String) (p q : Result SessionError Session × Local r) (d : Db)
      → p.0 ≡ q.0
      → IsCoherent r c p.1
      → q.1 ≡ off r
      → Refines r c
          (revoke_found r c links account sid p d)
          (revoke_found r c links account sid q d)
  revoke_pair-Refines links account sid (err e, l) (res', m) d same co bare =
      rw (bare, ← same) (record { answer = refl; redis = refl; coherent = co; without = refl })
  revoke_pair-Refines links account sid (ok s, l) (res', m) d same co bare =
      rw (bare, ← same)
        (elim (Bool-cases (s.account_id == account)) [
          | inr differ ↦
              rw differ (record { answer = refl; redis = refl; coherent = co; without = refl })
          | inl own ↦ elim (Bool-cases (revoke_first r c sid d).0) [
            | inr kept ↦
                rw (own, kept)
                  (record { answer = refl; redis = refl; coherent = co; without = refl })
            | inl gone ↦ rw (own, gone) (unlisted-Refines links account sid l _ _ co)
          ]
        ])

  pub revoke-Refines :
      (links : Links) (now : Time) (account sid : String) (l : Local r) (d : Db)
      → IsCoherent r c l
      → Refines r c
          (revoke_session r c links now account sid l d)
          (revoke_session r c links now account sid (off r) d)
  unfolding revoke_session
  revoke-Refines links now account sid l d co =
      let (same, kept, bare) = get-plain r c links.load now sid l d co in
      revoke_pair-Refines links account sid (get_session r c links.load now sid l d)
        (get_session r c links.load now sid (off r) d) d same kept bare

  -- Two listings that differ in the cache only.
  record Alike (x y : Listing r c) : Type 0 where
    sessions : x.sessions ≡ y.sessions
    stale_ids : x.stale_ids ≡ y.stale_ids
    after : x.after ≡ y.after
    coherent : IsCoherent r c x.cache
    without : y.cache ≡ off r

  add-Alike :
      (links : Links) (account sid : String) (what : Listed) (x y : Listing r c)
      → Alike x y
      → Alike (add_listed r c links account sid what x) (add_listed r c links account sid what y)
  unfolding force_expire
  add-Alike links account sid stale x y a = record {
    sessions = a.sessions;
    stale_ids = ap (λ ids. sid ∷ ids) a.stale_ids;
    after = a.after;
    coherent = a.coherent;
    without = a.without;
  }
  add-Alike links account sid (active s) x y a = record {
    sessions = rw (a.sessions) refl;
    stale_ids = a.stale_ids;
    after = a.after;
    coherent = a.coherent;
    without = a.without;
  }
  add-Alike links account sid inactive x y a = record {
    sessions = a.sessions;
    stale_ids = a.stale_ids;
    after = rw (a.after) refl;
    coherent = evict-IsCoherent r c sid x.cache a.coherent;
    without = ap (cache_evict r sid) a.without ∙ evict_off r c sid;
  }

  each-Alike :
      (links : Links) (now : Time) (account : String) (d : Db) (sids : List String)
      (x y : Listing r c)
      → Alike x y
      → Alike (list_each r c links now account d sids x) (list_each r c links now account d sids y)
  unfolding list_each
  each-Alike links now account d [] x y a = a
  each-Alike links now account d (sid ∷ rest) x y a =
      each-Alike links now account d rest _ _
        (add-Alike links account sid (judge r c links now sid d) x y a)

  list_ids-Refines :
      (links : Links) (clean : Link) (now : Time) (account : String) (sids : List String)
      (l : Local r) (d : Db)
      → IsCoherent r c l
      → Refines r c
          (list_ids r c links clean now account sids l d)
          (list_ids r c links clean now account sids (off r) d)
  list_ids-Refines links clean now account [] l d co = record {
    answer = refl;
    redis = refl;
    coherent = co;
    without = refl;
  }
  list_ids-Refines links clean now account (sid ∷ rest) l d co =
      let reads = record links { load = up } in
      let start : Listing r c = record { sessions = []; stale_ids = []; cache = l; after = d } in
      let a =
        each-Alike reads now account d (sid ∷ rest) start (record start { cache = off r })
          (record {
            sessions = refl;
            stale_ids = refl;
            after = refl;
            coherent = co;
            without = refl;
          }) in
      elim links.load
        as (λ w.
          Refines r c (list_ids r c (record links { load = w }) clean now account (sid ∷ rest) l d)
            (list_ids r c (record links { load = w }) clean now account (sid ∷ rest) (off r) d)) [
              | up ↦ record {
                answer = ap ok a.sessions;
                redis = rw (a.stale_ids, a.after) refl;
                coherent = a.coherent;
                without = a.without;
              }
              | lost_request ↦ record { answer = refl; redis = refl; coherent = co; without = refl }
              | lost_reply ↦ record { answer = refl; redis = refl; coherent = co; without = refl }
            ]

  pub list-Refines :
      (links : Links) (clean : Link) (now : Time) (account : String) (l : Local r) (d : Db)
      → IsCoherent r c l
      → Refines r c
          (list_sessions_by_account r c links clean now account l d)
          (list_sessions_by_account r c links clean now account (off r) d)
  unfolding list_sessions_by_account
  list-Refines links clean now account l d co =
      elim links.index
        as (λ w.
          Refines r c
            (list_sessions_by_account r c (record links { index = w }) clean now account l d)
            (list_sessions_by_account r c (record links { index = w }) clean now account (off r)
              d)) [
                | up ↦
                    list_ids-Refines (record links { index = up }) clean now account
                      (r.smembers d (account_sessions account)) l d co
                | lost_request ↦ record {
                  answer = refl;
                  redis = refl;
                  coherent = co;
                  without = refl;
                }
                | lost_reply ↦ record { answer = refl; redis = refl; coherent = co; without = refl }
              ]
