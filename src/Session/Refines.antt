-- ===== src/Session/Refines.antt =====
-- session_service.go: the service with its local cache answers as the service without one.
use gosso.Prelude.{
  ◌≡◌, refl, sym, ap, ◌∙◌, inl, inr, some, String, Bool-cases, lookup, Result, ok, err,
}
use gosso.Redis.{Redis, session, Reply, value, nil, failed, exec}
use gosso.Oauth2.Client.{Time}
use gosso.Session.{Session, SessionError, is_expired, Config, Local, cache_evict}
use gosso.Session.Service.{
  Links, parse_reply, check_lifetime, too_old, validate_session, force_expire, get_ex, ttl_ms,
}
use gosso.Session.Cache.{off, IsCoherent, parse_off, parse_session-plain, evict-IsCoherent}

module _ (r : Redis) (c : Config r) where
  open r use {Db, Text}

  -- The same answer and the same Redis; the cache is right, and the service without one has none.
  pub record Refines {A : Type 0} (x y : Result SessionError A × Local r × Db) : Type 0 where
    pub answer : x.0 ≡ y.0
    pub redis : x.2 ≡ y.2
    pub coherent : IsCoherent r c x.1
    pub without : y.1 ≡ off r

  pub evict_off : (sid : String) → cache_evict r sid (off r) ≡ off r
  unfolding cache_evict lookup
  evict_off sid = refl

  check-Refines :
      (links : Links) (now : Time) (sid : String) (res : Result SessionError Session) (l : Local r)
      (d : Db)
      → IsCoherent r c l
      → Refines
          (check_lifetime r c links now sid (res, l) d)
          (check_lifetime r c links now sid (res, off r) d)
  unfolding force_expire
  check-Refines links now sid (err e) l d co = record {
    answer = refl;
    redis = refl;
    coherent = co;
    without = refl;
  }
  check-Refines links now sid (ok s) l d co = elim (Bool-cases (too_old r c now s)) [
    | inl old ↦ rw old (record {
      answer = refl;
      redis = refl;
      coherent = evict-IsCoherent r c sid l co;
      without = evict_off sid;
    })
    | inr young ↦ elim (Bool-cases (is_expired now c.session_ttl (some s))) [
      | inl idle ↦
          rw (young, idle)
            (record {
              answer = refl;
              redis = refl;
              coherent = evict-IsCoherent r c sid l co;
              without = evict_off sid;
            })
      | inr fresh ↦
          rw (young, fresh) (record { answer = refl; redis = refl; coherent = co; without = refl })
    ]
  ]

  check_pair-Refines :
      (links : Links) (now : Time) (sid : String) (p q : Result SessionError Session × Local r)
      (d : Db)
      → p.0 ≡ q.0
      → IsCoherent r c p.1
      → q.1 ≡ off r
      → Refines (check_lifetime r c links now sid p d) (check_lifetime r c links now sid q d)
  check_pair-Refines links now sid (res, l) (res', m) d same co bare =
      rw (bare, ← same) (check-Refines links now sid res l d co)

  pub parse_reply-plain :
      (now : Time) (sid : String) (reply : Reply Text) (l : Local r)
      → IsCoherent r c l
      → ((parse_reply r c now sid reply l).0 ≡ (parse_reply r c now sid reply (off r)).0)
        × IsCoherent r c (parse_reply r c now sid reply l).1
        × ((parse_reply r c now sid reply (off r)).1 ≡ off r)
  parse_reply-plain now sid nil l co = (refl, co, refl)
  parse_reply-plain now sid failed l co = (refl, co, refl)
  parse_reply-plain now sid (value raw) l co =
      let (same, kept) = parse_session-plain r c now sid raw l co in
      let bare = parse_off r c now sid raw in
      (same ∙ sym (ap (λ p. p.0) bare), kept, ap (λ p. p.1) bare)

  pub validate-Refines :
      (links : Links) (now : Time) (sid : String) (l : Local r) (d : Db)
      → IsCoherent r c l
      → Refines
          (validate_session r c links now sid l d)
          (validate_session r c links now sid (off r) d)
  unfolding validate_session
  validate-Refines links now sid l d co =
      let out = exec links.load (get_ex r (session sid) (ttl_ms r c)) d in
      let (same, kept, bare) = parse_reply-plain now sid out.0 l co in
      check_pair-Refines links now sid (parse_reply r c now sid out.0 l)
        (parse_reply r c now sid out.0 (off r)) out.1 same kept bare
