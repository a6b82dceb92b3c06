-- ===== src/Session/Tokens.antt =====
-- internal/token/service/token_service_revoke.go: RevokeAllForSession is the session service's
-- TokenRevoker.
use gosso.Prelude.{◌≡◌, ◌≢◌, refl, ◌∙◌, List, [], ◌∷◌, String, is_ok}
use gosso.Redis.{
  Redis, Key, session, account_sessions, refresh_token, session_tokens, Link, up, lost_request,
  lost_reply,
}
use gosso.Token.Refresh.{Store, del_each, revoke_session, revoke_all_for_session}
use gosso.Session.{TokenRevoker}

pub token_ne_session : (hash x : String) → refresh_token hash ≢ session x
token_ne_session hash x p = cc

pub set_ne_session : (y x : String) → session_tokens y ≢ session x
set_ne_session y x p = cc

pub token_ne_index : (hash a : String) → refresh_token hash ≢ account_sessions a
token_ne_index hash a p = cc

pub set_ne_index : (y a : String) → session_tokens y ≢ account_sessions a
set_ne_index y a p = cc

module _ (r : Redis) (s : Store r) where
  open r use {Db, get, smembers, get-del_ne, smembers-del_ne}

  -- What is read of a key that is no token's stays the same.
  module _ {A : Type 0} (view : Db → A) (k : Key)
      (stays : (d : Db) (j : Key) → j ≢ k → view (r.del d j) ≡ view d)
      (no_token : (hash : String) → refresh_token hash ≢ k)
      (no_set : (sid : String) → session_tokens sid ≢ k) where
    del_each-view : (hashes : List String) (d : Db) → view (del_each r s hashes d) ≡ view d
    unfolding del_each
    del_each-view [] d = refl
    del_each-view (hash ∷ rest) d =
        del_each-view rest (r.del d (refresh_token hash))
        ∙ stays d (refresh_token hash) (no_token hash)

    pub revoked-view :
        (link : Link) (sid : String) (d : Db)
        → view (revoke_all_for_session r s link sid d).1 ≡ view d
    unfolding revoke_all_for_session revoke_session
    revoked-view up sid d =
        stays (del_each r s (smembers d (session_tokens sid)) d) (session_tokens sid) (no_set sid)
        ∙ del_each-view (smembers d (session_tokens sid)) d
    revoked-view lost_request sid d = refl
    revoked-view lost_reply sid d =
        stays (del_each r s (smembers d (session_tokens sid)) d) (session_tokens sid) (no_set sid)
        ∙ del_each-view (smembers d (session_tokens sid)) d

  -- The revoker over a network that treats each of its calls the same.
  abbrev pub token_revoker : Link → TokenRevoker r
  token_revoker link = record {
    revoke_all_for_session =
        λ sid d. let (res, d') = revoke_all_for_session r s link sid d in (is_ok res, d');
    keeps_session = λ sid x d.
        revoked-view (λ e. get e (session x)) (session x) (λ e j n. get-del_ne e j (session x) n)
          (λ hash. token_ne_session hash x) (λ y. set_ne_session y x) link sid d;
    keeps_kind = λ sid x d.
        revoked-view (λ e. smembers e (session x)) (session x)
          (λ e j n. smembers-del_ne e j (session x) n) (λ hash. token_ne_session hash x)
          (λ y. set_ne_session y x) link sid d;
    keeps_index = λ sid a d.
        revoked-view (λ e. smembers e (account_sessions a)) (account_sessions a)
          (λ e j n. smembers-del_ne e j (account_sessions a) n) (λ hash. token_ne_index hash a)
          (λ y. set_ne_index y a) link sid d;
  }
