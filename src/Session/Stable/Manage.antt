-- ===== src/Session/Stable/Manage.antt =====
-- session_service_manage.go and CreateSession: what creation, revocation and listing leave as it is.
use gosso.Prelude.{inl, inr, List, [], ◌∷◌, String, ◌==◌, Bool-cases, Option-cases, Result, ok, err}
use gosso.Redis.{
  Redis, session, account_sessions, Reply, value, nil, failed, Link, up, lost_request, lost_reply,
}
use gosso.Oauth2.Client.{Time}
use gosso.Session.{Session, SessionError, Config, Local}
use gosso.Session.Limit.{enforce_session_limit}
use gosso.Session.Service.{
  Links, create_script, ttl_seconds, id_or, get_session, kept_limit, create_session,
}
use gosso.Session.Manage.{
  revoke_first, unlisted, revoke_found, revoke_session, revoke_tokens_each, del_sessions, del_all,
  revoke_all_for_account, Listed, stale, inactive, active, Listing, add_listed, judge, list_each,
  list_ids, srem_each, list_sessions_by_account,
}
use gosso.Session.Stable.{IsStable, attempt-keeps, force-keeps}
use gosso.Session.Stable.Account.{enforce-keeps, revoke_each-keeps}

module _ (r : Redis) (c : Config r) (Fresh : String → Type 0) (P : r.Db → Type 0)
    (stable : IsStable r c Fresh P) where
  open r use {Db, Text, del, srem, expire, smembers}

  kept-keeps :
      (s : Session) (text : Text) (l : Local r) (out : Result SessionError (Unit {0}) × Db)
      → P out.1
      → P (kept_limit r c s text l out).3
  kept-keeps s text l (ok u, d) p = p
  kept-keeps s text l (err e, d) p = elim (Bool-cases c.index_fail_closed) [
    | inl closed ↦ rw closed p
    | inr tolerant ↦ rw tolerant p
  ]

  pub create-keeps :
      (links : Links) (random : String) (now : Time) (given : Session) (l : Local r) (d : Db)
      → Fresh (id_or random given.id)
      → P d
      → P (create_session r c links random now given l d).3
  unfolding create_session create_script
  create-keeps links random now given l d f p =
      let s : Session = record given {
        id = id_or random given.id;
        created_at = now;
        last_active_at = now;
      } in
      let made = stable.creates s.id s.account_id (c.json.encode s) (ttl_seconds r c) d f p in
      elim links.write
        as (λ w. P (create_session r c (record links { write = w }) random now given l d).3) [
          | up ↦
              kept-keeps s (c.json.encode s) l
                (enforce_session_limit r c links.index s.account_id s.id
                  (create_script r s.id s.account_id (c.json.encode s) (ttl_seconds r c) d).1)
                (enforce-keeps r c Fresh P stable links.index s.account_id s.id _ made)
          | lost_request ↦ p
          | lost_reply ↦ made
        ]

  first-keeps : (sid : String) (d : Db) → P d → P (revoke_first r c sid d).1
  first-keeps sid d p = elim (Option-cases c.token_revoker) [
    | inl missing ↦ rw (missing, revoke_first) p
    | inr (t, set) ↦ rw (set, revoke_first) (stable.revokes t sid d p)
  ]

  pub unlisted-keeps :
      (links : Links) (account sid : String) (l : Local r) (reply : Reply (Unit {0})) (d : Db)
      → P d
      → P (unlisted r c links account sid l reply d).2
  unlisted-keeps links account sid l (value u) d p =
      attempt-keeps P links.index (λ e. (value tt, srem e (account_sessions account) sid)) d p
        (stable.srem_index account sid d p)
  unlisted-keeps links account sid l nil d p = p
  unlisted-keeps links account sid l failed d p = p

  found-keeps :
      (links : Links) (account sid : String) (x : Result SessionError Session × Local r) (d : Db)
      → P d
      → P (revoke_found r c links account sid x d).2
  found-keeps links account sid (err e, l) d p = p
  found-keeps links account sid (ok s, l) d p = elim (Bool-cases (s.account_id == account)) [
    | inr differ ↦ rw differ p
    | inl own ↦ elim (Bool-cases (revoke_first r c sid d).0) [
      | inr kept ↦ rw (own, kept) (first-keeps sid d p)
      | inl gone ↦
          rw (own, gone)
            (unlisted-keeps links account sid l _ _ (
              attempt-keeps P links.write (λ e. (value tt, del e (session sid))) _
                (first-keeps sid d p) (stable.del_session sid _ (first-keeps sid d p))))
    ]
  ]

  pub revoke-keeps :
      (links : Links) (now : Time) (account sid : String) (l : Local r) (d : Db)
      → P d
      → P (revoke_session r c links now account sid l d).2
  unfolding revoke_session
  revoke-keeps links now account sid l d p =
      found-keeps links account sid (get_session r c links.load now sid l d) d p

  tokens_each-keeps : (sids : List String) (d : Db) → P d → P (revoke_tokens_each r c sids d)
  tokens_each-keeps sids d p = elim (Option-cases c.token_revoker) [
    | inl missing ↦ rw (missing, revoke_tokens_each) p
    | inr (t, set) ↦ rw (set, revoke_tokens_each) (revoke_each-keeps r c Fresh P stable t sids d p)
  ]

  pub del_sessions-keeps : (sids : List String) (d : Db) → P d → P (del_sessions r c sids d)
  unfolding del_sessions
  del_sessions-keeps [] d p = p
  del_sessions-keeps (sid ∷ rest) d p = del_sessions-keeps rest _ (stable.del_session sid d p)

  del_all-keeps : (link : Link) (sids : List String) (d : Db) → P d → P (del_all r c link sids d).1
  del_all-keeps link [] d p = p
  del_all-keeps up (sid ∷ rest) d p = del_sessions-keeps (sid ∷ rest) d p
  del_all-keeps lost_request (sid ∷ rest) d p = p
  del_all-keeps lost_reply (sid ∷ rest) d p = del_sessions-keeps (sid ∷ rest) d p

  pub revoke_all-keeps :
      (links : Links) (account : String) (d : Db)
      → P d
      → P (revoke_all_for_account r c links account d).1
  unfolding revoke_all_for_account
  revoke_all-keeps links account d p =
      elim links.index
        as (λ w. P (revoke_all_for_account r c (record links { index = w }) account d).1) [
          | up ↦
              del_all-keeps links.write _ _ (tokens_each-keeps _ _ (stable.del_index account d p))
          | lost_request ↦ p
          | lost_reply ↦ stable.del_index account d p
        ]

  add-keeps :
      (links : Links) (account sid : String) (what : Listed) (out : Listing r c)
      → P out.after
      → P (add_listed r c links account sid what out).after
  add-keeps links account sid stale out p = p
  add-keeps links account sid (active s) out p = p
  add-keeps links account sid inactive out p =
      force-keeps r c Fresh P stable links sid account out.cache out.after p

  each-keeps :
      (links : Links) (now : Time) (account : String) (d : Db) (sids : List String)
      (out : Listing r c)
      → P out.after
      → P (list_each r c links now account d sids out).after
  unfolding list_each
  each-keeps links now account d [] out p = p
  each-keeps links now account d (sid ∷ rest) out p =
      each-keeps links now account d rest _
        (add-keeps links account sid (judge r c links now sid d) out p)

  srem_each-keeps :
      (account : String) (sids : List String) (d : Db)
      → P d
      → P (srem_each r c (account_sessions account) sids d)
  unfolding srem_each
  srem_each-keeps account [] d p = p
  srem_each-keeps account (sid ∷ rest) d p =
      srem_each-keeps account rest _ (stable.srem_index account sid d p)

  ids-keeps :
      (links : Links) (clean : Link) (now : Time) (account : String) (sids : List String)
      (l : Local r) (d : Db)
      → P d
      → P (list_ids r c links clean now account sids l d).2
  ids-keeps links clean now account [] l d p = p
  ids-keeps links clean now account (sid ∷ rest) l d p =
      elim links.load
        as (λ w.
          P (list_ids r c (record links { load = w }) clean now account (sid ∷ rest) l d).2) [
            | up ↦
                let read = each-keeps (record links { load = up }) now account d (sid ∷ rest) _ p in
                attempt-keeps P clean
                  (λ e. (value tt, srem_each r c (account_sessions account) _ e)) _ read
                  (srem_each-keeps account _ _ read)
            | lost_request ↦ p
            | lost_reply ↦ p
          ]

  pub list-keeps :
      (links : Links) (clean : Link) (now : Time) (account : String) (l : Local r) (d : Db)
      → P d
      → P (list_sessions_by_account r c links clean now account l d).2
  unfolding list_sessions_by_account
  list-keeps links clean now account l d p =
      elim links.index
        as (λ w.
          P (list_sessions_by_account r c (record links { index = w }) clean now account l d).2) [
            | up ↦
                ids-keeps (record links { index = up }) clean now account
                  (smembers d (account_sessions account)) l d p
            | lost_request ↦ p
            | lost_reply ↦ p
          ]
