-- ===== src/Session/Spared.antt =====
-- session_service_scripts.go: the enforcement of the limit spares the protected session.
use gosso.Prelude.{
  ℕ, ◌-◌, ◌≡◌, ◌<◌, eq_self, refl, sym, ap, ◌∙◌, inl, inr, Bool, false, some, Bool-cases,
  Option-cases, List, [], ◌∷◌, String, arith, leb, length, ◌==◌, eq_iff, eq→path, contains,
  is_empty,
}
use gosso.Redis.{
  Redis, Key, session, account_sessions, Reply, value, nil, failed, Link, up, lost_request,
  lost_reply, exec,
}
use gosso.Session.{Config, TokenRevoker}
use gosso.Session.Limit.{
  Aged, time_of, corrupted, drop, drop_each, evict_pass, evict_oldest, revoke_each, revoke_evicted,
  enforce_session_limit,
}
use gosso.Session.Evicted.{timeless, timed}
use gosso.Session.Capped.{others, cleaned_of, sorted_of, evict_first}

module _ (r : Redis) where
  open r use {Db, Text, get, get-del_ne, get-srem}

  drop-get :
      (index : Key) (x sid : String) (d : Db)
      → (x == sid) ≡ false
      → get (drop r index x d) (session sid) ≡ get d (session sid)
  drop-get index x sid d differ =
      get-srem (r.del d (session x)) index (session sid) x
      ∙ get-del_ne d (session x) (session sid)
          (λ p. let e : x ≡ sid = cc in ground (arith, eq_iff x sid))

  drop_each-get :
      (index : Key) (gone : List String) (sid : String) (d : Db)
      → contains gone sid ≡ false
      → get (drop_each r index gone d) (session sid) ≡ get d (session sid)
  unfolding drop_each contains
  drop_each-get index [] sid d h = refl
  drop_each-get index (x ∷ rest) sid d h =
      drop_each-get index rest sid (drop r index x d) (ground arith)
      ∙ drop-get index x sid d (ground arith)

  -- A pass spares the sessions that it does not choose.
  evict_pass-get :
      (hit : String → Bool) (index : Key) (max remaining : ℕ) (xs : List Aged) (sid : String)
      (d : Db)
      → hit sid ≡ false
      → get (evict_pass r hit index max remaining xs d).after (session sid) ≡ get d (session sid)
  unfolding evict_pass
  evict_pass-get hit index max remaining [] sid d h = refl
  evict_pass-get hit index max remaining (a ∷ rest) sid d h =
      elim (Bool-cases (leb remaining max)) [
        | inl few ↦ rw few refl
        | inr many ↦ elim (Bool-cases (hit a.sid)) [
          | inl out ↦
              let other : (a.sid == sid) ≡ false = elim (Bool-cases (a.sid == sid)) [
                | inl same ↦ let e = ap hit (eq→path a.sid sid same) in absurd (ground (arith, e))
                | inr differ ↦ differ
              ] in
              rw (many, out)
                (evict_pass-get hit index max (remaining - 1) rest sid (drop r index a.sid d) h
                  ∙ drop-get index a.sid sid d other)
          | inr kept ↦ rw (many, kept) (evict_pass-get hit index max remaining rest sid d h)
        ]
      ]

  revoke_each-get :
      (t : TokenRevoker r) (sids : List String) (x : String) (d : Db)
      → get (revoke_each r t sids d) (session x) ≡ get d (session x)
  unfolding revoke_each
  revoke_each-get t [] x d = refl
  revoke_each-get t (sid ∷ rest) x d = elim (Bool-cases (is_empty sid)) [
    | inl unnamed ↦ rw (unnamed, revoke_each) (revoke_each-get t rest x d)
    | inr named ↦
        rw (named, revoke_each)
          (revoke_each-get t rest x (t.revoke_all_for_session sid d).1 ∙ t.keeps_session sid x d)
  ]

  module _ (c : Config r) where
    corrupted-timed :
        (d : Db) (ids : List String) (sid ts : String)
        → time_of r c d sid ≡ some ts
        → contains (corrupted r c d ids) sid ≡ false
    unfolding corrupted contains
    corrupted-timed d [] sid ts h = refl
    corrupted-timed d (x ∷ rest) sid ts h = elim (Option-cases (time_of r c d x)) [
      | inl bad ↦ rw ((timeless r c d x rest bad).1) (elim (Bool-cases (x == sid)) [
        | inl same ↦
            let e = ap (time_of r c d) (eq→path x sid same) in
            absurd (let e' = sym bad ∙ e ∙ h in ground arith)
        | inr differ ↦ ground (arith, differ, corrupted-timed d rest sid ts h)
      ])
      | inr (ts', good) ↦ rw ((timed r c d x ts' rest good).1) (corrupted-timed d rest sid ts h)
    ]

    -- The enforcement spares the protected session, if its text gives a time.
    evict_oldest-get :
        (account : String) (max : ℕ) (protected ts : String) (d : Db)
        → 0 < max
        → time_of r c d protected ≡ some ts
        → get (evict_oldest r c account max protected d).1 (session protected)
          ≡ get d (session protected)
    unfolding evict_oldest
    evict_oldest-get account max protected ts d h timely =
        let index = account_sessions account in
        let ids = r.smembers d index in
        elim (Bool-cases (leb (length ids) max)) [
          | inl few ↦ rw (few, evict_oldest) refl
          | inr many ↦ rw (evict_first r c account max protected d h many) (
              evict_pass-get (others protected) index max (length (sorted_of r c account d))
                (sorted_of r c account d) protected (cleaned_of r c account d)
                (ground (arith, eq_self protected))
              ∙ drop_each-get index (corrupted r c d ids) protected d
                  (corrupted-timed d ids protected ts timely))
        ]

    revoke_evicted-get :
        (t : TokenRevoker r) (out : Reply (List String) × Db) (x : String)
        → get (revoke_evicted r t out).1 (session x) ≡ get out.1 (session x)
    revoke_evicted-get t (value sids, d) x = revoke_each-get t sids x d
    revoke_evicted-get t (nil, d) x = refl
    revoke_evicted-get t (failed, d) x = refl

    linked-get :
        (link : Link) (account protected ts : String) (d : Db)
        → 0 < c.max_sessions
        → time_of r c d protected ≡ some ts
        → get
            (exec link (evict_oldest r c account c.max_sessions protected) d).1
            (session protected)
          ≡ get d (session protected)
    linked-get up account protected ts d h timely =
        evict_oldest-get account c.max_sessions protected ts d h timely
    linked-get lost_request account protected ts d h timely = refl
    linked-get lost_reply account protected ts d h timely =
        evict_oldest-get account c.max_sessions protected ts d h timely

    pub enforce-get :
        (link : Link) (account protected ts : String) (d : Db)
        → time_of r c d protected ≡ some ts
        → get (enforce_session_limit r c link account protected d).1 (session protected)
          ≡ get d (session protected)
    unfolding enforce_session_limit
    enforce-get link account protected ts d timely = elim (Bool-cases (leb c.max_sessions 0)) [
      | inl unlimited ↦ rw (unlimited, enforce_session_limit) refl
      | inr limited ↦ elim (Option-cases c.token_revoker) [
        | inl missing ↦ rw (limited, missing, enforce_session_limit) refl
        | inr (t, set) ↦
            rw (limited, set, enforce_session_limit)
              (revoke_evicted-get t
                  (exec link (evict_oldest r c account c.max_sessions protected) d) protected
                ∙ linked-get link account protected ts d (ground (arith, limited)) timely)
      ]
    ]
