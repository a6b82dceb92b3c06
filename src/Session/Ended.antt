-- ===== src/Session/Ended.antt =====
-- session_service.go and session_service_manage.go: DeleteSession, RevokeSession and
-- RevokeAllForAccount end sessions for good.
use gosso.Prelude.{
  ◌≡◌, ◌≢◌, sym, subst, inl, inr, true, List, [], ◌∷◌, String, arith, contains, eq→path, ◌==◌,
  Bool-cases, Result, ok, err,
}
use gosso.Redis.{Redis, session, account_sessions, value, Link, up, lost_request, lost_reply, exec}
use gosso.Oauth2.Client.{Time}
use gosso.Session.{Session, SessionError, Config, Local}
use gosso.Session.Service.{Links, validate_session, get_session}
use gosso.Session.Change.{delete_session}
use gosso.Session.Manage.{
  revoke_session, revoke_found, revoke_first, unlisted, revoke_all_for_account, del_sessions,
  del_all,
}
use gosso.Session.Agreement.{Call}
use gosso.Session.Stable.{unindexed-keeps}
use gosso.Session.Stable.Manage.{unlisted-keeps, del_sessions-keeps}
use gosso.Session.Gone.{AllAllowed, run, run-keeps, IsGone, IsGone-IsStable, not_valid}

module _ (r : Redis) (c : Config r) where
  open r use {Db, del, smembers, get-del, smembers-del}

  -- A call that succeeded and ended the session.
  pub data Ended (sid : String) (l : Local r) (d d' : Db) : Type 0 where
    deleted :
        (links : Links) (now : Time)
        → (delete_session r c links now sid l d).0 ≡ ok tt
        → d' ≡ (delete_session r c links now sid l d).2
        → Ended sid l d d'
    revoked :
        (links : Links) (now : Time) (account : String)
        → (revoke_session r c links now account sid l d).0 ≡ ok tt
        → d' ≡ (revoke_session r c links now account sid l d).2
        → Ended sid l d d'
    revoked_all :
        (links : Links) (account : String)
        → contains (smembers d (account_sessions account)) sid ≡ true
        → (revoke_all_for_account r c links account d).0 ≡ ok tt
        → d' ≡ (revoke_all_for_account r c links account d).1
        → Ended sid l d d'

  gone : (sid : String) (d : Db) → IsGone r c sid (del d (session sid))
  gone sid d = (get-del d (session sid), smembers-del d (session sid))

  delete-IsGone :
      (links : Links) (now : Time) (sid : String) (l : Local r) (d : Db)
      → (delete_session r c links now sid l d).0 ≡ ok tt
      → IsGone r c sid (delete_session r c links now sid l d).2
  unfolding delete_session
  delete-IsGone links now sid l d h =
      elim links.write
          as (λ w.
            (delete_session r c (record links { write = w }) now sid l d).0 ≡ ok tt
            → IsGone r c sid (delete_session r c (record links { write = w }) now sid l d).2) [
              | up ↦ λ e.
                  unindexed-keeps r c (λ x. x ≢ sid) (IsGone r c sid) (IsGone-IsStable r c sid)
                    (record links { write = up }) sid _ _ (gone sid d)
              | lost_request ↦ λ e. absurd (ground arith)
              | lost_reply ↦ λ e. absurd (ground arith)
            ]
        h

  unlisted-IsGone :
      (link : Link) (links : Links) (account sid : String) (l : Local r) (d : Db)
      → let (reply, after) = exec link (λ e. (value tt, del e (session sid))) d in
        (unlisted r c links account sid l reply after).0 ≡ ok tt
        → IsGone r c sid (unlisted r c links account sid l reply after).2
  unlisted-IsGone up links account sid l d h =
      unlisted-keeps r c (λ x. x ≢ sid) (IsGone r c sid) (IsGone-IsStable r c sid) links account sid
        l (value tt) _ (gone sid d)
  unlisted-IsGone lost_request links account sid l d h = absurd (ground arith)
  unlisted-IsGone lost_reply links account sid l d h = absurd (ground arith)

  revoke_found-IsGone :
      (links : Links) (account sid : String) (x : Result SessionError Session × Local r) (d : Db)
      → (revoke_found r c links account sid x d).0 ≡ ok tt
      → IsGone r c sid (revoke_found r c links account sid x d).2
  revoke_found-IsGone links account sid (err e, l) d h = absurd (ground arith)
  revoke_found-IsGone links account sid (ok s, l) d h =
      elim (Bool-cases (s.account_id == account)) [
        | inr differ ↦ absurd (ground (arith, rw differ at h))
        | inl own ↦ elim (Bool-cases (revoke_first r c sid d).0) [
          | inr kept ↦ absurd (ground (arith, rw (own, kept) at h))
          | inl done ↦
              rw (own, done)
                (unlisted-IsGone links.write links account sid l _ (rw (own, done) at h))
        ]
      ]

  del_sessions-IsGone :
      (sids : List String) (sid : String) (d : Db)
      → contains sids sid ≡ true
      → IsGone r c sid (del_sessions r c sids d)
  unfolding del_sessions contains
  del_sessions-IsGone [] sid d h = absurd (ground arith)
  del_sessions-IsGone (x ∷ rest) sid d h = elim (Bool-cases (x == sid)) [
    | inl same ↦
        del_sessions-keeps r c (λ y. y ≢ sid) (IsGone r c sid) (IsGone-IsStable r c sid) rest _
          (subst (λ y. IsGone r c sid (del d (session y))) (sym (eq→path x sid same)) (gone sid d))
    | inr differ ↦ del_sessions-IsGone rest sid _ (ground (arith, differ))
  ]

  del_all-IsGone :
      (link : Link) (sids : List String) (sid : String) (d : Db)
      → contains sids sid ≡ true
      → (del_all r c link sids d).0 ≡ ok tt
      → IsGone r c sid (del_all r c link sids d).1
  unfolding contains
  del_all-IsGone link [] sid d h e = absurd (ground arith)
  del_all-IsGone up (x ∷ rest) sid d h e = del_sessions-IsGone (x ∷ rest) sid d h
  del_all-IsGone lost_request (x ∷ rest) sid d h e = absurd (ground arith)
  del_all-IsGone lost_reply (x ∷ rest) sid d h e = absurd (ground arith)

  revoke_all-IsGone :
      (links : Links) (account sid : String) (d : Db)
      → contains (smembers d (account_sessions account)) sid ≡ true
      → (revoke_all_for_account r c links account d).0 ≡ ok tt
      → IsGone r c sid (revoke_all_for_account r c links account d).1
  unfolding revoke_all_for_account
  revoke_all-IsGone links account sid d m h =
      elim links.index
          as (λ w.
            (revoke_all_for_account r c (record links { index = w }) account d).0 ≡ ok tt
            → IsGone r c sid
                (revoke_all_for_account r c (record links { index = w }) account d).1) [
                  | up ↦ λ e. del_all-IsGone links.write _ sid _ m e
                  | lost_request ↦ λ e. absurd (ground arith)
                  | lost_reply ↦ λ e. absurd (ground arith)
                ]
        h

  ended-IsGone : (sid : String) (l : Local r) (d d' : Db) → Ended sid l d d' → IsGone r c sid d'
  unfolding revoke_session
  ended-IsGone sid l d d' (deleted links now h e) = rw e (delete-IsGone links now sid l d h)
  ended-IsGone sid l d d' (revoked links now account h e) =
      rw e (revoke_found-IsGone links account sid (get_session r c links.load now sid l d) d h)
  ended-IsGone sid l d d' (revoked_all links account m h e) =
      rw e (revoke_all-IsGone links account sid d m h)

  -- Once DeleteSession or RevokeSession of a session has succeeded, or RevokeAllForAccount while it
  -- was in the account's index, ValidateSession never gives it again, whatever calls of the service
  -- follow, with whatever local cache, and whatever the network does. The calls that follow create
  -- no session of the same identifier, and what goes on beside a refresh does not store the session
  -- anew.
  pub session-ended :
      (sid : String) (l l' : Local r) (d d' : Db) (calls : List (Call r c)) (links : Links)
      (now : Time) (cache : Local r) (s : Session)
      → Ended sid l d d'
      → AllAllowed r c (λ x. x ≢ sid) (IsGone r c sid) calls
      → (validate_session r c links now sid cache (run r c calls l' d').1).0 ≢ ok s
  session-ended sid l l' d d' calls links now cache s ended allowed =
      not_valid r c links now sid cache _ s (
        run-keeps r c (λ x. x ≢ sid) (IsGone r c sid) (IsGone-IsStable r c sid) calls l' d' allowed
          (ended-IsGone sid l d d' ended))
