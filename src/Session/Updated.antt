-- ===== src/Session/Updated.antt =====
-- session_service.go: the calls that write a session anew, with the local cache and without.
use gosso.Prelude.{
  ◌≡◌, ◌≢◌, refl, ap, ◌∙◌, inl, inr, Bool, true, false, String, Bool-cases, Option-cases, lookup,
  delete, Result, ok, err,
}
use gosso.Redis.{Redis, session, Reply, value, nil, failed, reading, absent, broken, present}
use gosso.Oauth2.Client.{Time}
use gosso.Session.{
  Session, SessionError, redis_failed, no_longer_exists, update_activity, Config, Local,
  cache_evict, cache_delete, cache_write,
}
use gosso.Session.Service.{Links, parse_session, cached_as, too_old, force_expire}
use gosso.Session.Change.{write_reply, update_session, write_shared, refresh_found, refresh_session}
use gosso.Session.Cache.{
  off, IsCoherent, evict-IsCoherent, delete-IsCoherent, write_evict-IsCoherent,
  write_delete-IsCoherent,
}
use gosso.Session.Refines.{Refines, parse_reply-plain, evict_off}

module _ (r : Redis) (c : Config r) where
  open r use {Db, Text}

  -- The call's write of a session did not fail.
  abbrev pub Settles {ℓ} : {A : Type ℓ} → Result SessionError A → Type ℓ
  Settles x = (x ≢ err no_longer_exists) × (x ≢ err redis_failed)

  reply-Refines :
      (links : Links) (s : Session) (l l' m m' : Local r) (reply : Reply Bool) (d : Db)
      → IsCoherent r c l'
      → m ≡ off r
      → m' ≡ off r
      → Settles (write_reply r c links s l l' reply d).0
      → Refines r c (write_reply r c links s l l' reply d) (write_reply r c links s m m' reply d)
  reply-Refines links s l l' m m' (value true) d co b b' n = record {
    answer = refl;
    redis = refl;
    coherent = co;
    without = b';
  }
  reply-Refines links s l l' m m' (value false) d co b b' n = absurd (n.0 refl)
  reply-Refines links s l l' m m' nil d co b b' n = absurd (n.1 refl)
  reply-Refines links s l l' m m' failed d co b b' n = absurd (n.1 refl)

  write_off : (sid : String) (s : Session) → cache_write r sid s (off r) ≡ off r
  unfolding cache_write lookup
  write_off sid s = refl

  pub update-Refines :
      (links : Links) (shared : Bool) (now : Time) (given : Session) (l : Local r) (d : Db)
      → IsCoherent r c l
      → Settles (update_session r c links shared now given l d).0
      → Refines r c
          (update_session r c links shared now given l d)
          (update_session r c links shared now given (off r) d)
  unfolding update_session
  update-Refines links true now given l d co n =
      reply-Refines links (update_activity now given) _ _ _ _ _ _
        (write_evict-IsCoherent r c given.id (update_activity now given) l co)
        (write_off given.id _)
        (ap (cache_evict r given.id) (write_off given.id _) ∙ evict_off r c given.id) n
  update-Refines links false now given l d co n =
      reply-Refines links (update_activity now given) _ _ _ _ _ _
        (evict-IsCoherent r c given.id l co) refl (evict_off r c given.id) n

  write_shared-IsCoherent :
      (sid : String) (raw : Text) (s : Session) (l : Local r)
      → IsCoherent r c l
      → IsCoherent r c (cache_delete r sid (write_shared r c sid raw s l))
  write_shared-IsCoherent sid raw s l co =
      elim (Option-cases (cached_as r c raw (lookup sid l.entries))) [
        | inl other ↦ rw (other, write_shared) (delete-IsCoherent r c sid l.cache_size l co)
        | inr (x, same) ↦ rw (same, write_shared) (write_delete-IsCoherent r c sid s l co)
      ]

  shared_off :
      (sid : String) (raw : Text) (s : Session) → write_shared r c sid raw s (off r) ≡ off r
  unfolding lookup
  shared_off sid raw s = refl

  delete_off : (sid : String) → cache_delete r sid (off r) ≡ off r
  unfolding delete
  delete_off sid = refl

  refresh_pair-Refines :
      (links : Links) (others : Db → Db) (now : Time) (sid : String) (raw : Text)
      (res : Result SessionError Session) (l : Local r) (d : Db)
      → IsCoherent r c l
      → Settles (refresh_found r c links others now sid raw (res, l) d).0
      → Refines r c
          (refresh_found r c links others now sid raw (res, l) d)
          (refresh_found r c links others now sid raw (res, off r) d)
  unfolding force_expire
  refresh_pair-Refines links others now sid raw (err e) l d co n = record {
    answer = refl;
    redis = refl;
    coherent = co;
    without = refl;
  }
  refresh_pair-Refines links others now sid raw (ok s) l d co n =
      elim (Bool-cases (too_old r c now s)) [
        | inl old ↦ rw old (record {
          answer = refl;
          redis = refl;
          coherent = evict-IsCoherent r c sid l co;
          without = evict_off r c sid;
        })
        | inr young ↦ rw young (
            reply-Refines links (update_activity now s) _ _ _ _ _ _
              (write_shared-IsCoherent sid raw (update_activity now s) l co)
              (shared_off sid raw (update_activity now s))
              (ap (cache_delete r sid) (shared_off sid raw (update_activity now s))
                ∙ delete_off sid)
              (rw young at n))
      ]

  refresh_found-Refines :
      (links : Links) (others : Db → Db) (now : Time) (sid : String) (raw : Text)
      (p q : Result SessionError Session × Local r) (d : Db)
      → p.0 ≡ q.0
      → IsCoherent r c p.1
      → q.1 ≡ off r
      → Settles (refresh_found r c links others now sid raw p d).0
      → Refines r c
          (refresh_found r c links others now sid raw p d)
          (refresh_found r c links others now sid raw q d)
  refresh_found-Refines links others now sid raw (res, l) (res', m) d same co bare n =
      rw (bare, ← same) (refresh_pair-Refines links others now sid raw res l d co n)

  pub refresh-Refines :
      (links : Links) (others : Db → Db) (now : Time) (sid : String) (l : Local r) (d : Db)
      → IsCoherent r c l
      → Settles (refresh_session r c links others now sid l d).0
      → Refines r c
          (refresh_session r c links others now sid l d)
          (refresh_session r c links others now sid (off r) d)
  unfolding refresh_session
  refresh-Refines links others now sid l d co n = elim (reading r links.load d (session sid)) [
    | absent a g ↦
        rw (a, refresh_session)
          (record { answer = refl; redis = refl; coherent = co; without = refl })
    | broken a ↦
        rw (a, refresh_session)
          (record { answer = refl; redis = refl; coherent = co; without = refl })
    | present raw a g ↦
        let (same, kept, bare) = parse_reply-plain r c now sid (value raw) l co in
        rw (a, refresh_session)
          (refresh_found-Refines links others now sid raw (parse_session r c now sid raw l)
            (parse_session r c now sid raw (off r)) d same kept bare (rw (a, refresh_session) at n))
  ]
