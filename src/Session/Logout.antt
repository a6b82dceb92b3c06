-- ===== src/Session/Logout.antt =====
-- RevokeSession of internal/session/service/session_service_manage.go over the token service of
-- internal/token/service: the tokens of the session end with it.
use gosso.Prelude.{
  ◌≡◌, ◌≢◌, sym, ◌∙◌, inl, inr, true, false, some, Bool-cases, [], String, arith, is_ok,
  Result-cases, is_empty, ◌==◌, Result, ok, err,
}
use gosso.Redis.{
  Redis, session, account_sessions, refresh_token, Reply, value, nil, failed, Link, up,
  lost_request, lost_reply,
}
use gosso.Oauth2.Client.{Time}
use gosso.Token.Refresh.{Store, revoke_all_for_session}
use gosso.Token.Refresh.Others.{acts}
use gosso.Token.Refresh.Ended.{IsIndexed}
use gosso.Token.Refresh.Logout.{revoke_all_for_session-ends}
use gosso.Session.{Session, Config, SessionError, Local}
use gosso.Session.Service.{Links, attempt, get_session}
use gosso.Session.Manage.{unlisted, revoke_found, revoke_session}
use gosso.Session.Tokens.{token_revoker}

module _ (r : Redis) (c : Config r) (s : Store r) where
  open r use {Db, Text, get, get-del_ne, get-srem}

  -- No refresh token of the session is left.
  abbrev pub HasNoToken : String → Db → Type 0
  HasNoToken sid d =
      (h : String) (t : Text) → get d (refresh_token h) ≡ some t → s.session_in t ≢ sid

  revoked-HasNoToken :
      (link : Link) (sid : String) (d : Db)
      → IsIndexed r s d
      → is_empty sid ≡ false
      → is_ok (revoke_all_for_session r s link sid d).0 ≡ true
      → HasNoToken sid (revoke_all_for_session r s link sid d).1
  unfolding acts
  revoked-HasNoToken link sid d indexed named done h t g =
      elim (Result-cases (revoke_all_for_session r s link sid d).0) [
        | inl (x, bad) ↦ absurd (let e = rw bad at done in ground arith)
        | inr (tt, good) ↦ revoke_all_for_session-ends r s link [] sid h t d indexed tt named good g
      ]

  unlisted-HasNoToken :
      (links : Links) (account sid : String) (l : Local r) (reply : Reply (Unit {0})) (d : Db)
      → HasNoToken sid d
      → HasNoToken sid (unlisted r c links account sid l reply d).2
  unlisted-HasNoToken links account sid l (value u) d free h t g =
      elim links.index
          as (λ w.
            get (attempt r w (λ e. r.srem e (account_sessions account) sid) d) (refresh_token h)
              ≡ some t
            → s.session_in t ≢ sid) [
              | up ↦ λ g.
                  free h t (sym (get-srem d (account_sessions account) (refresh_token h) sid) ∙ g)
              | lost_request ↦ free h t
              | lost_reply ↦ λ g.
                  free h t (sym (get-srem d (account_sessions account) (refresh_token h) sid) ∙ g)
            ]
        g
  unlisted-HasNoToken links account sid l nil d free h t g = free h t g
  unlisted-HasNoToken links account sid l failed d free h t g = free h t g

  deleted-HasNoToken :
      (link : Link) (sid : String) (d : Db)
      → HasNoToken sid d
      → HasNoToken sid (attempt r link (λ e. r.del e (session sid)) d)
  deleted-HasNoToken up sid d free h t g =
      free h t (sym (get-del_ne d (session sid) (refresh_token h) (λ p. cc)) ∙ g)
  deleted-HasNoToken lost_request sid d free h t g = free h t g
  deleted-HasNoToken lost_reply sid d free h t g =
      free h t (sym (get-del_ne d (session sid) (refresh_token h) (λ p. cc)) ∙ g)

  found-HasNoToken :
      (links : Links) (link : Link) (account sid : String)
      (found : Result SessionError Session × Local r) (d : Db)
      → c.token_revoker ≡ some (token_revoker r s link)
      → IsIndexed r s d
      → is_empty sid ≡ false
      → (revoke_found r c links account sid found d).0 ≡ ok tt
      → HasNoToken sid (revoke_found r c links account sid found d).2
  found-HasNoToken links link account sid (err e, l) d set indexed named h = absurd (ground arith)
  found-HasNoToken links link account sid (ok x, l) d set indexed named h =
      elim (Bool-cases (x.account_id == account)) [
        | inr differ ↦ absurd (ground (arith, rw differ at h))
        | inl own ↦ elim (Bool-cases (is_ok (revoke_all_for_session r s link sid d).0)) [
          | inr kept ↦ absurd (ground (arith, rw (own, set, kept) at h))
          | inl done ↦
              rw (own, set, done)
                (unlisted-HasNoToken links account sid l _ _ (
                  deleted-HasNoToken links.write sid _
                    (revoked-HasNoToken link sid d indexed named done)))
        ]
      ]

  -- Where the token service is the revoker: once RevokeSession has succeeded, no refresh token of
  -- the session is left in Redis. The index of the sessions' tokens holds before, as the token
  -- service keeps it, and the session has a name.
  pub revoke_session-tokens :
      (links : Links) (link : Link) (now : Time) (account sid h : String) (t : Text) (l : Local r)
      (d : Db)
      → c.token_revoker ≡ some (token_revoker r s link)
      → IsIndexed r s d
      → is_empty sid ≡ false
      → (revoke_session r c links now account sid l d).0 ≡ ok tt
      → get (revoke_session r c links now account sid l d).2 (refresh_token h) ≡ some t
      → s.session_in t ≢ sid
  unfolding revoke_session
  revoke_session-tokens links link now account sid h t l d set indexed named e g =
      found-HasNoToken links link account sid (get_session r c links.load now sid l d) d set indexed
        named e h t g
