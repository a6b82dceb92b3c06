-- ===== src/Session/Limited.antt =====
-- session_service_scripts.go and session_service_manage.go: no more sessions than the limit.
use gosso.Prelude.{
  ℕ, suc, ◌+◌, ◌-◌, ◌≤◌, ◌≡◌, ◌≢◌, refl, sym, subst, ◌∙◌, ap, inl, inr, Bool, true, false, List, [],
  ◌∷◌, String, arith, leb, length, eq_iff, eq→path, ◌==◌, contains, if◌then◌else◌, Bool-cases,
}
use gosso.Redis.{Redis, Key, session, account_sessions}
use gosso.Session.Limit.{Aged, drop, drop_each, evict_pass}
use gosso.Session.Evicted.{ids_of, length-ids, spared}

-- The sessions that a pass does not evict.
pub survivors : (String → Bool) → ℕ → ℕ → List Aged → List String
survivors hit max remaining [] = []
survivors hit max remaining (a ∷ rest) =
    let skip = survivors hit max remaining rest in
    let next = survivors hit max (remaining - 1) rest in
    if leb remaining max then a.sid ∷ ids_of rest else if hit a.sid then next else a.sid ∷ skip

module _ (r : Redis) where
  open r use {
    Db, get, del, srem, smembers, get-del_ne, get-srem, smembers-srem, smembers-srem_other,
    smembers-del_ne, smembers_distinct,
  }

  -- Of those that remain, `k` were passed by before.
  pub remaining-survivors :
      (hit : String → Bool) (index : Key) (max k remaining : ℕ) (xs : List Aged) (d : Db)
      → remaining ≡ length xs + k
      → (evict_pass r hit index max remaining xs d).remaining
        ≡ length (survivors hit max remaining xs) + k
  unfolding evict_pass survivors
  remaining-survivors hit index max k remaining [] d e = e
  remaining-survivors hit index max k remaining (a ∷ rest) d e =
      elim (Bool-cases (leb remaining max)) [
        | inl few ↦ rw few (ground (arith, length-ids rest))
        | inr many ↦ elim (Bool-cases (hit a.sid)) [
          | inl out ↦
              rw (many, out)
                (remaining-survivors hit index max k (remaining - 1) rest (drop r index a.sid d)
                  (omega arith))
          | inr kept ↦
              rw (many, kept)
                (remaining-survivors hit index max (suc k) remaining rest d (omega arith)
                  ∙ omega arith)
        ]
      ]

  -- A pass ends below the limit where so few are spared.
  pub pass-le :
      (hit : String → Bool) (index : Key) (max k remaining : ℕ) (xs : List Aged) (d : Db)
      → remaining ≡ length xs + k
      → spared hit xs + k ≤ max
      → (evict_pass r hit index max remaining xs d).remaining ≤ max
  unfolding evict_pass spared
  pass-le hit index max k remaining [] d e h = omega arith
  pass-le hit index max k remaining (a ∷ rest) d e h = elim (Bool-cases (leb remaining max)) [
    | inl few ↦ rw few (ground (arith, few))
    | inr many ↦ elim (Bool-cases (hit a.sid)) [
      | inl out ↦
          rw (many, out)
            (pass-le hit index max k (remaining - 1) rest (drop r index a.sid d) (omega arith)
              (rw out at h))
      | inr kept ↦
          let h' = rw kept at h in
          rw (many, kept)
            (pass-le hit index max (suc k) remaining rest d (omega arith) (omega arith))
    ]
  ]

  -- What one eviction leaves in the index.
  drop-member :
      (account x sid : String) (d : Db)
      → contains (smembers (drop r (account_sessions account) x d) (account_sessions account)) sid
        ≡ true
      → (contains (smembers d (account_sessions account)) sid ≡ true) × ((x == sid) ≡ false)
  drop-member account x sid d h =
      let index = account_sessions account in
      elim (Bool-cases (x == sid)) [
        | inl same ↦
            let e = eq→path x sid same in
            let out = smembers-srem (del d (session x)) index x in
            absurd (
              ground (
                arith,
                subst (λ y. contains (smembers (srem (del d (session x)) index x) index) y ≡ false)
                    e out,
              ))
        | inr differ ↦
            let other : x ≢ sid = λ p. ground (arith, eq_iff x sid) in
            let kept = smembers-srem_other (del d (session x)) index x sid other in
            let before = smembers-del_ne d (session x) index (λ p. cc) in
            (ap (λ ms. contains ms sid) (sym before) ∙ sym kept ∙ h, differ)
      ]

  pub drop_each-member :
      (account : String) (gone : List String) (sid : String) (d : Db)
      → contains
          (smembers (drop_each r (account_sessions account) gone d) (account_sessions account))
          sid
        ≡ true
      → (contains (smembers d (account_sessions account)) sid ≡ true) × (contains gone sid ≡ false)
  unfolding drop_each contains
  drop_each-member account [] sid d h = (h, refl)
  drop_each-member account (x ∷ rest) sid d h =
      let (was, out) =
        drop_each-member account rest sid (drop r (account_sessions account) x d) h in
      let (before, differ) = drop-member account x sid d was in
      (before, ground (arith, out, differ))

  pub pass-member :
      (hit : String → Bool) (account : String) (max remaining : ℕ) (xs : List Aged) (d : Db)
      (sid : String)
      → contains
          (smembers
            (evict_pass r hit (account_sessions account) max remaining xs d).after
            (account_sessions account))
          sid
        ≡ true
      → (contains (smembers d (account_sessions account)) sid ≡ true)
        × (contains (ids_of xs) sid ≡ true → contains (survivors hit max remaining xs) sid ≡ true)
  unfolding evict_pass survivors contains
  pass-member hit account max remaining [] d sid h = (h, λ e. e)
  pass-member hit account max remaining (a ∷ rest) d sid h = elim (Bool-cases (leb remaining max)) [
    | inl few ↦ (rw few at h, λ e. rw few e)
    | inr many ↦ elim (Bool-cases (hit a.sid)) [
      | inl out ↦
          let (was, stays) =
            pass-member hit account max (remaining - 1) rest
              (drop r (account_sessions account) a.sid d) sid (rw (many, out) at h) in
          let (before, differ) = drop-member account a.sid sid d was in
          (before, λ e. rw (many, out) (stays (ground (arith, differ))))
      | inr kept ↦
          let (was, stays) =
            pass-member hit account max remaining rest d sid (rw (many, kept) at h) in
          (
            was,
            λ e.
                rw (many, kept)
                  (elim (Bool-cases (a.sid == sid)) [
                    | inl same ↦ ground (arith, same)
                    | inr differ ↦ ground (arith, stays (ground (arith, differ)))
                  ]),
          )
    ]
  ]
