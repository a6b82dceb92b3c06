-- ===== src/Session/Capped.antt =====
-- session_service_scripts.go, session_service_manage.go and CreateSession: the number of sessions
-- in an account's index after the limit was enforced.
use gosso.Prelude.{
  ℕ, ◌≤◌, ◌<◌, ◌≡◌, refl, ◌∙◌, inl, inr, Bool, true, false, not, List, [], ◌∷◌, String, arith, ltb,
  leb, length, ◌==◌, contains, is_empty, Bool-cases,
}
use gosso.Redis.{Redis, account_sessions, value}
use gosso.Session.{Config, TokenRevoker}
use gosso.Session.Limit.{
  Aged, sort_aged, Pass, with_time, corrupted, drop_each, evict_pass, evict_sorted, evict_oldest,
  revoke_each,
}
use gosso.Session.Evicted.{ids-sort, spared-sort, listed, spared_one}
use gosso.Session.Limited.{survivors, remaining-survivors, pass-le, drop_each-member, pass-member}

-- All are but the protected one.
abbrev pub others : String → String → Bool
others protected sid = not (sid == protected)

module _ (r : Redis) (c : Config r) where
  open r use {Db, smembers, smembers_distinct}

  -- The sessions with a time, in the order of eviction, and Redis without the corrupted ones.
  abbrev pub sorted_of : String → Db → List Aged
  sorted_of account d = sort_aged (with_time r c d (smembers d (account_sessions account)))

  abbrev pub cleaned_of : String → Db → Db
  cleaned_of account d =
      drop_each r (account_sessions account)
        (corrupted r c d (smembers d (account_sessions account))) d

  abbrev pub first_of : String → ℕ → String → Db → Pass Db
  first_of account max protected d =
      evict_pass r (others protected) (account_sessions account) max (length (sorted_of account d))
        (sorted_of account d) (cleaned_of account d)

  -- The first pass suffices.
  pub first-le :
      (account : String) (max : ℕ) (protected : String) (d : Db)
      → 0 < max
      → (first_of account max protected d).remaining ≤ max
  first-le account max protected d h =
      let ids = smembers d (account_sessions account) in
      let one = spared_one r c d protected ids (smembers_distinct d (account_sessions account)) in
      let same = spared-sort (others protected) (with_time r c d ids) in
      pass-le r (others protected) (account_sessions account) max 0 (length (sorted_of account d))
        (sorted_of account d) (cleaned_of account d) (omega arith) (omega (arith, one, same))

  pub evict_first :
      (account : String) (max : ℕ) (protected : String) (d : Db)
      → 0 < max
      → leb (length (smembers d (account_sessions account))) max ≡ false
      → evict_oldest r c account max protected d ≡ (
        value (first_of account max protected d).evicted,
        (first_of account max protected d).after,
      )
  unfolding evict_oldest evict_sorted
  evict_first account max protected d h many =
      let enough : ltb max (first_of account max protected d).remaining ≡ false =
        ground (arith, first-le account max protected d h) in
      rw (many, evict_oldest) (rw (enough, evict_sorted) refl)

  -- All members of the index are in a list that is no longer than the limit.
  abbrev pub IsCapped : String → ℕ → Db → Type 0
  IsCapped account max d =
      (kept : List String) × (length kept ≤ max)
      × ((sid : String)
          → contains (smembers d (account_sessions account)) sid ≡ true
          → contains kept sid ≡ true)

  first-IsCapped :
      (account : String) (max : ℕ) (protected : String) (d : Db)
      → 0 < max
      → IsCapped account max (first_of account max protected d).after
  first-IsCapped account max protected d h =
      let index = account_sessions account in
      let ids = smembers d index in
      let sorted = sorted_of account d in
      let count =
        remaining-survivors r (others protected) index max 0 (length sorted) sorted
          (cleaned_of account d) (omega arith) in
      (
        survivors (others protected) max (length sorted) sorted,
        omega (arith, count, first-le account max protected d h),
        λ sid m.
            let (was, stays) =
              pass-member r (others protected) account max (length sorted) sorted
                (cleaned_of account d) sid m in
            let (before, sound) = drop_each-member r account (corrupted r c d ids) sid d was in
            stays (ids-sort (with_time r c d ids) sid ∙ listed r c d ids sid before sound),
      )

  pub evict-IsCapped :
      (account : String) (max : ℕ) (protected : String) (d : Db)
      → 0 < max
      → IsCapped account max (evict_oldest r c account max protected d).1
  unfolding evict_oldest
  evict-IsCapped account max protected d h =
      elim (Bool-cases (leb (length (smembers d (account_sessions account))) max)) [
        | inl few ↦
            rw (few, evict_oldest)
              (smembers d (account_sessions account), ground (arith, few), λ sid m. m)
        | inr many ↦
            rw (evict_first account max protected d h many)
              (first-IsCapped account max protected d h)
      ]

  pub revoke_each-index :
      (t : TokenRevoker r) (sids : List String) (account : String) (d : Db)
      → smembers (revoke_each r t sids d) (account_sessions account)
        ≡ smembers d (account_sessions account)
  unfolding revoke_each
  revoke_each-index t [] account d = refl
  revoke_each-index t (sid ∷ rest) account d = elim (Bool-cases (is_empty sid)) [
    | inl unnamed ↦ rw (unnamed, revoke_each) (revoke_each-index t rest account d)
    | inr named ↦
        rw (named, revoke_each)
          (revoke_each-index t rest account (t.revoke_all_for_session sid d).1
            ∙ t.keeps_index sid account d)
  ]
