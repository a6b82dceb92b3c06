-- ===== src/Session/Stable.antt =====
-- session_service.go and session_service_manage.go: what all calls leave as it is in Redis.
pub mod Account
pub mod Manage
use gosso.Prelude.{
  ℕ, ◌-◌, ◌≡◌, refl, inl, inr, Bool, true, false, not, ◌&&◌, none, some, List, [], ◌∷◌, String, ltb,
  leb, length, is_empty, ◌==◌, if◌then◌else◌, Bool-cases, Option-cases, Result, ok, err,
}
use gosso.Redis.{
  Redis, Key, session, account_sessions, Reply, value, nil, failed, Link, up, lost_request,
  lost_reply, exec, read, reading, absent, broken, present,
}
use gosso.Oauth2.Client.{Time}
use gosso.Session.{
  Session, SessionError, is_expired, update_activity, TokenRevoker, Config, Local, cache_evict,
}
use gosso.Session.Limit.{
  Aged, Pass, drop, drop_each, evict_pass, evict_sorted, evict_oldest, sort_aged, with_time,
  corrupted, revoke_each, revoke_evicted, enforce_session_limit,
}
use gosso.Session.Service.{
  Links, attempt, create_script, set_if_exists, get_ex, ttl_ms, ttl_seconds, id_or, parse_session,
  parse_reply, get_session, revoke_tokens, force_expire, check_lifetime, too_old, validate_session,
  kept_limit, create_session,
}
use gosso.Session.Change.{
  write_reply, update_session, unindexed, delete_session, refresh_found, refresh_session,
}
use gosso.Session.Manage.{
  revoke_first, unlisted, revoke_found, revoke_session, take_index, revoke_tokens_each,
  del_sessions, del_all, revoke_all_for_account, Listed, stale, inactive, active, Listing,
  add_listed, judge, list_each, list_ids, srem_each, list_sessions_by_account,
}

-- One that goes through, or not at all, or has its effect only.
pub attempt-keeps :
    {D A : Type 0} (P : D → Type 0) (link : Link) (f : D → Reply A × D) (d : D)
    → P d
    → P (f d).1
    → P (exec link f d).1
attempt-keeps P up f d p q = q
attempt-keeps P lost_request f d p q = p
attempt-keeps P lost_reply f d p q = q

module _ (r : Redis) (c : Config r) where
  open r use {Db, Text, del, srem, expire}

  -- What the single commands keep, and the script of creation for some identifiers.
  pub record IsStable (Fresh : String → Type 0) (P : Db → Type 0) : Type 0 where
    pub del_session : (x : String) (d : Db) → P d → P (del d (session x))
    pub del_index : (a : String) (d : Db) → P d → P (del d (account_sessions a))
    pub srem_index : (a x : String) (d : Db) → P d → P (srem d (account_sessions a) x)
    pub extends : (k : Key) (ms : ℕ) (d : Db) → P d → P (expire d k ms)
    pub rewrites :
        (x : String) (t : Text) (n : ℕ) (d : Db) → P d → P (set_if_exists r (session x) t n d).1
    pub revokes :
        (t : TokenRevoker r) (x : String) (d : Db) → P d → P (t.revoke_all_for_session x d).1
    pub creates :
        (x a : String) (t : Text) (n : ℕ) (d : Db) → Fresh x → P d → P (create_script r x a t n d).1

  module _ (Fresh : String → Type 0) (P : Db → Type 0) (stable : IsStable Fresh P) where
    tokens-keeps : (sid : String) (d : Db) → P d → P (revoke_tokens r c sid d)
    tokens-keeps sid d p = elim (Option-cases c.token_revoker) [
      | inl missing ↦ rw (missing, revoke_tokens) p
      | inr (t, set) ↦ rw (set, revoke_tokens) (stable.revokes t sid d p)
    ]

    pub force-keeps :
        (links : Links) (sid account : String) (l : Local r) (d : Db)
        → P d
        → P (force_expire r c links sid account l d).1
    unfolding force_expire
    force-keeps links sid account l d p =
        let gone =
          attempt-keeps P links.write (λ e. (value tt, del e (session sid))) d p
            (stable.del_session sid d p) in
        tokens-keeps sid _ (
          attempt-keeps P links.index (λ e. (value tt, srem e (account_sessions account) sid)) _
            gone (stable.srem_index account sid _ gone))

    check-keeps :
        (links : Links) (now : Time) (sid : String) (p : Result SessionError Session × Local r)
        (d : Db)
        → P d
        → P (check_lifetime r c links now sid p d).2
    check-keeps links now sid (err e, l) d p = p
    check-keeps links now sid (ok s, l) d p = elim (Bool-cases (too_old r c now s)) [
      | inl old ↦ rw old (force-keeps links sid s.account_id l d p)
      | inr young ↦ elim (Bool-cases (is_expired now c.session_ttl (some s))) [
        | inl idle ↦ rw (young, idle) (force-keeps links sid s.account_id l d p)
        | inr fresh ↦ rw (young, fresh) p
      ]
    ]

    pub validate-keeps :
        (links : Links) (now : Time) (sid : String) (l : Local r) (d : Db)
        → P d
        → P (validate_session r c links now sid l d).2
    unfolding validate_session get_ex
    validate-keeps links now sid l d p = check-keeps links now sid _ _ (
        attempt-keeps P links.load (get_ex r (session sid) (ttl_ms r c)) d p
          (stable.extends (session sid) (ttl_ms r c) d p))

    write-keeps :
        (links : Links) (s : Session) (l m : Local r) (reply : Reply Bool) (d : Db)
        → P d
        → P (write_reply r c links s l m reply d).2
    write-keeps links s l m (value true) d p =
        attempt-keeps P links.index
          (λ e. (value tt, expire e (account_sessions s.account_id) (ttl_ms r c))) d p
          (stable.extends _ _ d p)
    write-keeps links s l m (value false) d p = p
    write-keeps links s l m nil d p = p
    write-keeps links s l m failed d p = p

    pub update-keeps :
        (links : Links) (shared : Bool) (now : Time) (given : Session) (l : Local r) (d : Db)
        → P d
        → P (update_session r c links shared now given l d).2
    unfolding update_session
    update-keeps links shared now given l d p =
        write-keeps links (update_activity now given) _ _ _ _ (
          attempt-keeps P links.write (set_if_exists r (session given.id) _ (ttl_seconds r c)) d p
            (stable.rewrites given.id _ (ttl_seconds r c) d p))

    pub unindexed-keeps :
        (links : Links) (sid : String) (res : Result SessionError Session) (d : Db)
        → P d
        → P (unindexed r c links sid res d)
    unindexed-keeps links sid (err e) d p = p
    unindexed-keeps links sid (ok s) d p =
        attempt-keeps P links.index (λ e. (value tt, srem e (account_sessions s.account_id) sid)) d
          p (stable.srem_index s.account_id sid d p)

    pub delete-keeps :
        (links : Links) (now : Time) (sid : String) (l : Local r) (d : Db)
        → P d
        → P (delete_session r c links now sid l d).2
    unfolding delete_session
    delete-keeps links now sid l d p =
        elim links.write
          as (λ w. P (delete_session r c (record links { write = w }) now sid l d).2) [
            | up ↦
                unindexed-keeps (record links { write = up }) sid _ _ (stable.del_session sid d p)
            | lost_request ↦ p
            | lost_reply ↦ stable.del_session sid d p
          ]

    refresh_found-keeps :
        (links : Links) (others : Db → Db) (now : Time) (sid : String) (raw : Text)
        (x : Result SessionError Session × Local r) (d : Db)
        → ((e : Db) → P e → P (others e))
        → P d
        → P (refresh_found r c links others now sid raw x d).2
    refresh_found-keeps links others now sid raw (err e, l) d q p = p
    refresh_found-keeps links others now sid raw (ok s, l) d q p =
        elim (Bool-cases (too_old r c now s)) [
          | inl old ↦ rw old (force-keeps links sid s.account_id l (others d) (q d p))
          | inr young ↦ rw young (
              write-keeps links (update_activity now s) _ _ _ _ (
                attempt-keeps P links.write (set_if_exists r (session sid) _ (ttl_seconds r c))
                  (others d) (q d p) (stable.rewrites sid _ (ttl_seconds r c) (others d) (q d p))))
        ]

    pub refresh-keeps :
        (links : Links) (others : Db → Db) (now : Time) (sid : String) (l : Local r) (d : Db)
        → ((e : Db) → P e → P (others e))
        → P d
        → P (refresh_session r c links others now sid l d).2
    unfolding refresh_session
    refresh-keeps links others now sid l d q p = elim (reading r links.load d (session sid)) [
      | absent a g ↦ rw (a, refresh_session) p
      | broken a ↦ rw (a, refresh_session) p
      | present raw a g ↦
          rw (a, refresh_session) (refresh_found-keeps links others now sid raw _ d q p)
    ]
