-- ===== src/Session/Enforced.antt =====
-- EnforceSessionLimit and CreateSession of internal/session/service: what they leave of an
-- account's index.
use gosso.Prelude.{
  ℕ, ◌<◌, ◌≡◌, refl, sym, ap, ◌∙◌, inl, inr, true, false, Option-cases, List, String, arith, leb,
  contains, Result, ok, err,
}
use gosso.Redis.{Redis, Reply, value, nil, failed, Link, up, lost_request, lost_reply, exec}
use gosso.Oauth2.Client.{Time}
use gosso.Session.{Session, Config, TokenRevoker, SessionError, Local}
use gosso.Session.Limit.{evict_oldest, revoke_evicted, enforce_session_limit}
use gosso.Session.Service.{Links, id_or, create_script, kept_limit, create_session}
use gosso.Session.Capped.{IsCapped, evict-IsCapped, revoke_each-index}

module _ (r : Redis) (c : Config r) where
  open r use {Db, smembers}

  evicted-IsCapped :
      (t : TokenRevoker r) (account : String) (max : ℕ) (reply : Reply (List String) × Db)
      → IsCapped r c account max reply.1
      → (revoke_evicted r t reply).0 ≡ ok tt
      → IsCapped r c account max (revoke_evicted r t reply).1
  evicted-IsCapped t account max (value sids, d) (kept, few, all) e = (
    kept,
    few,
    λ sid m.
        all sid (ap (λ ms. contains ms sid) (sym (revoke_each-index r c t sids account d)) ∙ m),
  )
  evicted-IsCapped t account max (nil, d) h e = absurd (ground arith)
  evicted-IsCapped t account max (failed, d) h e = absurd (ground arith)

  some_revoker-IsCapped :
      (t : TokenRevoker r) (link : Link) (account protected : String) (d : Db)
      → 0 < c.max_sessions
      → (revoke_evicted r t (exec link (evict_oldest r c account c.max_sessions protected) d)).0
        ≡ ok tt
      → IsCapped r c account c.max_sessions
          (revoke_evicted r t (exec link (evict_oldest r c account c.max_sessions protected) d)).1
  some_revoker-IsCapped t up account protected d h e =
      evicted-IsCapped t account c.max_sessions
        (evict_oldest r c account c.max_sessions protected d)
        (evict-IsCapped r c account c.max_sessions protected d h) e
  some_revoker-IsCapped t lost_request account protected d h e = absurd (ground arith)
  some_revoker-IsCapped t lost_reply account protected d h e = absurd (ground arith)

  -- After an enforcement that succeeded, with a limit above 0, the members of the account's index
  -- are among at most as many as the limit.
  pub enforce-IsCapped :
      (link : Link) (account protected : String) (d : Db)
      → 0 < c.max_sessions
      → (enforce_session_limit r c link account protected d).0 ≡ ok tt
      → IsCapped r c account c.max_sessions (enforce_session_limit r c link account protected d).1
  unfolding enforce_session_limit
  enforce-IsCapped link account protected d h e =
      let limited : leb c.max_sessions 0 ≡ false = ground arith in
      elim (Option-cases c.token_revoker) [
        | inl missing ↦ absurd (let e' = rw (limited, missing) at e in ground arith)
        | inr (t, set) ↦
            rw (limited, set)
              (some_revoker-IsCapped t link account protected d h (rw (limited, set) at e))
      ]

  kept_limit-IsCapped :
      (s : Session) (text : r.Text) (l : Local r) (out : Result SessionError (Unit {0}) × Db)
      (account : String)
      → c.index_fail_closed ≡ true
      → (out.0 ≡ ok tt → IsCapped r c account c.max_sessions out.1)
      → (kept_limit r c s text l out).0 ≡ ok tt
      → IsCapped r c account c.max_sessions (kept_limit r c s text l out).3
  kept_limit-IsCapped s text l (ok tt, d) account closed h e = h refl
  kept_limit-IsCapped s text l (err x, d) account closed h e =
      absurd (let e' = rw closed at e in ground arith)

  -- Once CreateSession has succeeded, with a limit above 0 and where a failure of the index fails
  -- the call, the members of the account's index are among at most as many as the limit.
  pub create_session-IsCapped :
      (links : Links) (random : String) (now : Time) (given : Session) (l : Local r) (d : Db)
      → 0 < c.max_sessions
      → c.index_fail_closed ≡ true
      → (create_session r c links random now given l d).0 ≡ ok tt
      → IsCapped r c given.account_id c.max_sessions
          (create_session r c links random now given l d).3
  unfolding create_session create_script
  create_session-IsCapped links random now given l d h closed e =
      let s : Session = record given {
        id = id_or random given.id;
        created_at = now;
        last_active_at = now;
      } in
      elim links.write
          as (λ w.
            (create_session r c (record links { write = w }) random now given l d).0 ≡ ok tt
            → IsCapped r c given.account_id c.max_sessions
                (create_session r c (record links { write = w }) random now given l d).3) [
                  | up ↦ λ e.
                      kept_limit-IsCapped s _ l
                        (enforce_session_limit r c links.index s.account_id s.id _) s.account_id
                        closed (enforce-IsCapped links.index s.account_id s.id _ h) e
                  | lost_request ↦ λ e. absurd (ground arith)
                  | lost_reply ↦ λ e. absurd (ground arith)
                ]
        e
