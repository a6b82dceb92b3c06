-- ===== src/Session/Gone.antt =====
-- session_service.go and session_service_manage.go: a session that was ended stays ended.
use gosso.Prelude.{
  ℕ, ◌≡◌, ◌≢◌, refl, sym, subst, ◌∙◌, inl, inr, false, none, List, [], ◌∷◌, String, arith,
  Bool-cases, ok,
}
use gosso.Redis.{Redis, Key, session, account_sessions, up, lost_request, lost_reply, exists}
use gosso.Redis.Keys.{Key-cases}
use gosso.Oauth2.Client.{Time}
use gosso.Session.{Session, Config, Local}
use gosso.Session.Service.{Links, create_script, set_if_exists, id_or, validate_session, get_ex}
use gosso.Session.Agreement.{
  Call, creates, validates, updates, deletes, refreshes, revokes, revokes_all, enforces, lists,
  sweeps, serve,
}
use gosso.Session.Stable.{IsStable, validate-keeps, update-keeps, delete-keeps, refresh-keeps}
use gosso.Session.Stable.Account.{enforce-keeps}
use gosso.Session.Stable.Manage.{create-keeps, revoke-keeps, revoke_all-keeps, list-keeps}

module _ (r : Redis) (c : Config r) where
  open r use {
    Db, Text, get, set, del, smembers, sadd, srem, expire, get-set_ne, get-del, get-del_ne,
    get-sadd, get-srem, get-expire, smembers-set_ne, smembers-del, smembers-del_ne,
    smembers-sadd_ne, smembers-srem_ne, smembers-expire,
  }

  -- The call creates only what is allowed, and what goes on beside it keeps the property.
  abbrev pub Allowed : (String → Type 0) → (Db → Type 0) → Call r c → Type 0
  Allowed Fresh P (creates links random now s) = Fresh (id_or random s.id)
  Allowed Fresh P (refreshes links others now sid) = (e : Db) → P e → P (others e)
  Allowed Fresh P _ = Unit {0}

  abbrev pub AllAllowed : (String → Type 0) → (Db → Type 0) → List (Call r c) → Type 0
  AllAllowed Fresh P [] = Unit {0}
  AllAllowed Fresh P (call ∷ rest) = Allowed Fresh P call × AllAllowed Fresh P rest

  module _ (Fresh : String → Type 0) (P : Db → Type 0) (stable : IsStable r c Fresh P) where
    serve-keeps :
        (call : Call r c) (l : Local r) (d : Db)
        → Allowed Fresh P call
        → P d
        → P (serve r c call l d).2
    unfolding serve
    serve-keeps (creates links random now s) l d a p =
        create-keeps r c Fresh P stable links random now s l d a p
    serve-keeps (validates links now sid) l d a p =
        validate-keeps r c Fresh P stable links now sid l d p
    serve-keeps (updates links shared now s) l d a p =
        update-keeps r c Fresh P stable links shared now s l d p
    serve-keeps (deletes links now sid) l d a p =
        delete-keeps r c Fresh P stable links now sid l d p
    serve-keeps (refreshes links others now sid) l d a p =
        refresh-keeps r c Fresh P stable links others now sid l d a p
    serve-keeps (revokes links now account sid) l d a p =
        revoke-keeps r c Fresh P stable links now account sid l d p
    serve-keeps (revokes_all links account) l d a p =
        revoke_all-keeps r c Fresh P stable links account d p
    serve-keeps (enforces link account) l d a p =
        enforce-keeps r c Fresh P stable link account "" d p
    serve-keeps (lists links clean now account) l d a p =
        list-keeps r c Fresh P stable links clean now account l d p
    serve-keeps (sweeps now) l d a p = p

  -- What a run of calls leaves in the cache and in Redis.
  unfoldable pub run : List (Call r c) → Local r → Db → Local r × Db
  run [] l d = (l, d)
  run (call ∷ rest) l d = let (answer, l', d') = serve r c call l d in run rest l' d'

  pub run-keeps :
      (Fresh : String → Type 0) (P : Db → Type 0)
      → IsStable r c Fresh P
      → (calls : List (Call r c)) (l : Local r) (d : Db) → AllAllowed Fresh P calls
      → P d
      → P (run calls l d).1
  unfolding run
  run-keeps Fresh P stable [] l d a p = p
  run-keeps Fresh P stable (call ∷ rest) l d (a, more) p =
      run-keeps Fresh P stable rest _ _ more (serve-keeps Fresh P stable call l d a p)

  -- Nothing stands at the session's key.
  abbrev pub IsGone : String → Db → Type 0
  IsGone sid d = (get d (session sid) ≡ none) × (smembers d (session sid) ≡ [])

  del-IsGone : (sid : String) (k : Key) (d : Db) → IsGone sid d → IsGone sid (del d k)
  del-IsGone sid k d (g, m) = elim (Key-cases k (session sid)) [
    | inl same ↦
        subst (λ x. IsGone sid (del d x)) (sym same)
          (get-del d (session sid), smembers-del d (session sid))
    | inr differ ↦
        (get-del_ne d k (session sid) differ ∙ g, smembers-del_ne d k (session sid) differ ∙ m)
  ]

  set_if_exists-IsGone :
      (sid x : String) (t : Text) (n : ℕ) (d : Db)
      → IsGone sid d
      → IsGone sid (set_if_exists r (session x) t n d).1
  unfolding set_if_exists
  set_if_exists-IsGone sid x t n d (g, m) = elim (Key-cases (session x) (session sid)) [
    | inl same ↦
        let none_there : exists r d (session sid) ≡ false = rw (g, m) refl in
        subst (λ k. IsGone sid (set_if_exists r k t n d).1) (sym same)
          (rw (none_there, set_if_exists) (g, m))
    | inr differ ↦ elim (Bool-cases (exists r d (session x))) [
      | inl there ↦
          rw (there, set_if_exists)
            (
              get-set_ne d (session x) (session sid) t _ differ ∙ g,
              smembers-set_ne d (session x) (session sid) t _ differ ∙ m,
            )
      | inr absent ↦ rw (absent, set_if_exists) (g, m)
    ]
  ]

  pub IsGone-IsStable : (sid : String) → IsStable r c (λ x. x ≢ sid) (IsGone sid)
  unfolding create_script
  IsGone-IsStable sid = record {
    del_session = λ x d p. del-IsGone sid (session x) d p;
    del_index = λ a d p. del-IsGone sid (account_sessions a) d p;
    srem_index = λ a x d p. (
      get-srem d (account_sessions a) (session sid) x ∙ p.0,
      smembers-srem_ne d (account_sessions a) (session sid) x (λ q. cc) ∙ p.1,
    );
    extends = λ k ms d p.
        (get-expire d k (session sid) ms ∙ p.0, smembers-expire d k (session sid) ms ∙ p.1);
    rewrites = λ x t n d p. set_if_exists-IsGone sid x t n d p;
    revokes = λ t x d p. (t.keeps_session x sid d ∙ p.0, t.keeps_kind x sid d ∙ p.1);
    creates = λ x a t n d new p. (
      get-expire _ (account_sessions a) (session sid) _
          ∙ get-sadd _ (account_sessions a) (session sid) x
          ∙ get-set_ne d (session x) (session sid) t _ (λ q. new cc)
          ∙ p.0,
      smembers-expire _ (account_sessions a) (session sid) _
          ∙ smembers-sadd_ne _ (account_sessions a) (session sid) x (λ q. cc)
          ∙ smembers-set_ne d (session x) (session sid) t _ (λ q. new cc)
          ∙ p.1,
    );
  }

  pub not_valid :
      (links : Links) (now : Time) (sid : String) (l : Local r) (d : Db) (s : Session)
      → IsGone sid d
      → (validate_session r c links now sid l d).0 ≢ ok s
  unfolding validate_session get_ex
  not_valid links now sid l d s (g, m) h =
      elim links.load
          as (λ w. (validate_session r c (record links { load = w }) now sid l d).0 ≡ ok s → ⊥) [
            | up ↦ λ e. absurd (ground (arith, rw (g, validate_session, get_ex) at e))
            | lost_request ↦ λ e. absurd (ground arith)
            | lost_reply ↦ λ e. absurd (ground arith)
          ]
        h
