-- ===== src/Session/Calls.antt =====
-- session_service.go and session_service_manage.go: the calls that read, create and delete, with
-- the local cache and without.
use gosso.Prelude.{◌≡◌, refl, ap, ◌∙◌, inl, inr, String, Bool-cases, Result, ok, err}
use gosso.Redis.{Redis, session, Link, up, lost_request, lost_reply, read}
use gosso.Oauth2.Client.{Time}
use gosso.Session.{Session, SessionError, Config, Local, cache_store, cache_evict}
use gosso.Session.Service.{Links, get_session, kept_limit, create_session, create_script, id_or}
use gosso.Session.Change.{delete_session}
use gosso.Session.Cache.{off, IsCoherent, evict-IsCoherent, store-IsCoherent}
use gosso.Session.Refines.{Refines, parse_reply-plain, evict_off}

module _ (r : Redis) (c : Config r) where
  open r use {Db, Text}

  pub get-plain :
      (link : Link) (now : Time) (sid : String) (l : Local r) (d : Db)
      → IsCoherent r c l
      → ((get_session r c link now sid l d).0 ≡ (get_session r c link now sid (off r) d).0)
        × IsCoherent r c (get_session r c link now sid l d).1
        × ((get_session r c link now sid (off r) d).1 ≡ off r)
  unfolding get_session
  get-plain link now sid l d co = parse_reply-plain r c now sid (read r link d (session sid)) l co

  pub delete-Refines :
      (links : Links) (now : Time) (sid : String) (l : Local r) (d : Db)
      → IsCoherent r c l
      → Refines r c
          (delete_session r c links now sid l d)
          (delete_session r c links now sid (off r) d)
  unfolding delete_session
  delete-Refines links now sid l d co =
      let (same, kept, bare) = get-plain links.load now sid l d co in
      elim links.write
        as (λ w.
          Refines r c (delete_session r c (record links { write = w }) now sid l d)
            (delete_session r c (record links { write = w }) now sid (off r) d)) [
              | up ↦ record {
                answer = refl;
                redis = rw same refl;
                coherent = evict-IsCoherent r c sid _ kept;
                without = ap (cache_evict r sid) bare ∙ evict_off r c sid;
              }
              | lost_request ↦ record {
                answer = refl;
                redis = refl;
                coherent = kept;
                without = bare;
              }
              | lost_reply ↦ record { answer = refl; redis = refl; coherent = kept; without = bare }
            ]

  kept-Refines :
      (s : Session) (l : Local r) (out : Result SessionError (Unit {0}) × Db)
      → IsCoherent r c l
      → let x = kept_limit r c s (c.json.encode s) l out in
        let y = kept_limit r c s (c.json.encode s) (off r) out in
        Refines r c (x.0, x.2, x.3) (y.0, y.2, y.3)
  unfolding cache_store
  kept-Refines s l (ok u, d) co = record {
    answer = refl;
    redis = refl;
    coherent = store-IsCoherent r c s.id _ l (c.json.decode-encode s) co;
    without = refl;
  }
  kept-Refines s l (err e, d) co = elim (Bool-cases c.index_fail_closed) [
    | inl closed ↦ rw closed (record { answer = refl; redis = refl; coherent = co; without = refl })
    | inr tolerant ↦ rw tolerant (record {
      answer = refl;
      redis = refl;
      coherent = store-IsCoherent r c s.id _ l (c.json.decode-encode s) co;
      without = refl;
    })
  ]

  -- Without the session that it returns.
  abbrev pub created :
      Result SessionError (Unit {0}) × Session × Local r × Db
      → Result SessionError (Unit {0}) × Local r × Db
  created (res, s, l, d) = (res, l, d)

  pub create-Refines :
      (links : Links) (random : String) (now : Time) (given : Session) (l : Local r) (d : Db)
      → IsCoherent r c l
      → Refines r c
          (created (create_session r c links random now given l d))
          (created (create_session r c links random now given (off r) d))
  unfolding create_session create_script
  create-Refines links random now given l d co =
      elim links.write
        as (λ w.
          Refines r c
            (created (create_session r c (record links { write = w }) random now given l d))
            (created
              (create_session r c (record links { write = w }) random now given (off r) d))) [
                | up ↦
                    kept-Refines
                      (record given {
                        id = id_or random given.id;
                        created_at = now;
                        last_active_at = now;
                      })
                      l _ co
                | lost_request ↦ record {
                  answer = refl;
                  redis = refl;
                  coherent = co;
                  without = refl;
                }
                | lost_reply ↦ record { answer = refl; redis = refl; coherent = co; without = refl }
              ]
