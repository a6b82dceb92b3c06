-- ===== src/Session/Stable/Account.antt =====
-- session_service_manage.go: what the calls on an account leave as it is in Redis.
use gosso.Prelude.{
  ℕ, ◌-◌, inl, inr, Bool, not, ◌&&◌, List, [], ◌∷◌, String, ltb, leb, length, is_empty, ◌==◌,
  Bool-cases, Option-cases,
}
use gosso.Redis.{Redis, account_sessions, Reply, value, nil, failed, Link, exec}
use gosso.Session.{TokenRevoker, Config}
use gosso.Session.Limit.{
  Aged, drop, drop_each, evict_pass, evict_sorted, evict_oldest, corrupted, revoke_each,
  revoke_evicted, enforce_session_limit,
}
use gosso.Session.Stable.{IsStable, attempt-keeps}

module _ (r : Redis) (c : Config r) (Fresh : String → Type 0) (P : r.Db → Type 0)
    (stable : IsStable r c Fresh P) where
  open r use {Db, Text, del, srem, expire, smembers}

  drop-keeps : (account sid : String) (d : Db) → P d → P (drop r (account_sessions account) sid d)
  drop-keeps account sid d p = stable.srem_index account sid _ (stable.del_session sid d p)

  drop_each-keeps :
      (account : String) (sids : List String) (d : Db)
      → P d
      → P (drop_each r (account_sessions account) sids d)
  unfolding drop_each
  drop_each-keeps account [] d p = p
  drop_each-keeps account (sid ∷ rest) d p =
      drop_each-keeps account rest _ (drop-keeps account sid d p)

  pass-keeps :
      (hit : String → Bool) (account : String) (max remaining : ℕ) (xs : List Aged) (d : Db)
      → P d
      → P (evict_pass r hit (account_sessions account) max remaining xs d).after
  unfolding evict_pass
  pass-keeps hit account max remaining [] d p = p
  pass-keeps hit account max remaining (a ∷ rest) d p = elim (Bool-cases (leb remaining max)) [
    | inl few ↦ rw few p
    | inr many ↦ elim (Bool-cases (hit a.sid)) [
      | inl out ↦
          rw (many, out)
            (pass-keeps hit account max (remaining - 1) rest _ (drop-keeps account a.sid d p))
      | inr spared ↦ rw (many, spared) (pass-keeps hit account max remaining rest d p)
    ]
  ]

  sorted-keeps :
      (account : String) (max : ℕ) (protected : String) (xs : List Aged) (d : Db)
      → P d
      → P (evict_sorted r (account_sessions account) max protected xs d).1
  unfolding evict_sorted
  sorted-keeps account max protected xs d p =
      let first =
        evict_pass r (λ sid. not (sid == protected)) (account_sessions account) max (length xs) xs
          d in
      let kept = pass-keeps (λ sid. not (sid == protected)) account max (length xs) xs d p in
      elim (Bool-cases (ltb max first.remaining && not (is_empty protected))) [
        | inl more ↦
            rw (more, evict_sorted)
              (pass-keeps (λ sid. sid == protected) account max first.remaining xs first.after kept)
        | inr enough ↦ rw (enough, evict_sorted) kept
      ]

  evict-keeps :
      (account : String) (max : ℕ) (protected : String) (d : Db)
      → P d
      → P (evict_oldest r c account max protected d).1
  unfolding evict_oldest
  evict-keeps account max protected d p =
      elim (Bool-cases (leb (length (smembers d (account_sessions account))) max)) [
        | inl few ↦ rw (few, evict_oldest) p
        | inr many ↦
            rw (many, evict_oldest)
              (sorted-keeps account max protected _ _ (
                drop_each-keeps account (corrupted r c d (smembers d (account_sessions account))) d
                  p))
      ]

  pub revoke_each-keeps :
      (t : TokenRevoker r) (sids : List String) (d : Db) → P d → P (revoke_each r t sids d)
  unfolding revoke_each
  revoke_each-keeps t [] d p = p
  revoke_each-keeps t (sid ∷ rest) d p = elim (Bool-cases (is_empty sid)) [
    | inl none_named ↦ rw (none_named, revoke_each) (revoke_each-keeps t rest d p)
    | inr named ↦ rw (named, revoke_each) (revoke_each-keeps t rest _ (stable.revokes t sid d p))
  ]

  evicted-keeps :
      (t : TokenRevoker r) (out : Reply (List String) × Db) → P out.1 → P (revoke_evicted r t out).1
  evicted-keeps t (value sids, d) p = revoke_each-keeps t sids d p
  evicted-keeps t (nil, d) p = p
  evicted-keeps t (failed, d) p = p

  pub enforce-keeps :
      (link : Link) (account protected : String) (d : Db)
      → P d
      → P (enforce_session_limit r c link account protected d).1
  unfolding enforce_session_limit
  enforce-keeps link account protected d p = elim (Bool-cases (leb c.max_sessions 0)) [
    | inl unlimited ↦ rw (unlimited, enforce_session_limit) p
    | inr limited ↦ elim (Option-cases c.token_revoker) [
      | inl missing ↦ rw (limited, missing, enforce_session_limit) p
      | inr (t, set) ↦
          rw (limited, set, enforce_session_limit)
            (evicted-keeps t (exec link (evict_oldest r c account c.max_sessions protected) d) (
              attempt-keeps P link (evict_oldest r c account c.max_sessions protected) d p
                (evict-keeps account c.max_sessions protected d p)))
    ]
  ]
