-- ===== src/Session/Evicted.antt =====
-- session_service_scripts.go: what the eviction script leaves in the account's index.
use gosso.Prelude.{
  ℕ, suc, ◌≤◌, ◌≡◌, refl, subst, inl, inr, Bool, true, false, not, ◌||◌, none, some, List, [], ◌∷◌,
  String, arith, length, eq→path, ◌==◌, contains, IsDistinct, if◌then◌else◌, Bool-cases,
  Option-cases,
}
use gosso.Redis.{Redis}
use gosso.Session.{Config}
use gosso.Session.Limit.{Aged, older, insert_aged, sort_aged, time_of, with_time, corrupted}

abbrev pub ids_of : List Aged → List String
ids_of [] = []
ids_of (a ∷ rest) = a.sid ∷ ids_of rest

ids-insert :
    (a : Aged) (xs : List Aged) (sid : String)
    → contains (ids_of (insert_aged a xs)) sid ≡ (a.sid == sid || contains (ids_of xs) sid)
unfolding insert_aged contains
ids-insert a [] sid = refl
ids-insert a (b ∷ rest) sid = elim (Bool-cases (older b a)) [
  | inl before ↦ rw before (ground (arith, ids-insert a rest sid))
  | inr after ↦ rw after refl
]

pub ids-sort :
    (xs : List Aged) (sid : String)
    → contains (ids_of (sort_aged xs)) sid ≡ contains (ids_of xs) sid
unfolding sort_aged contains
ids-sort [] sid = refl
ids-sort (a ∷ rest) sid = ground (arith, ids-insert a (sort_aged rest) sid, ids-sort rest sid)

length-insert : (a : Aged) (xs : List Aged) → length (insert_aged a xs) ≡ suc (length xs)
unfolding insert_aged
length-insert a [] = refl
length-insert a (b ∷ rest) = ground (arith, length-insert a rest)

pub length-sort : (xs : List Aged) → length (sort_aged xs) ≡ length xs
unfolding sort_aged
length-sort [] = refl
length-sort (a ∷ rest) = ground (arith, length-insert a (sort_aged rest), length-sort rest)

pub length-ids : (xs : List Aged) → length (ids_of xs) ≡ length xs
length-ids [] = refl
length-ids (a ∷ rest) = ground (arith, length-ids rest)

-- How many of the sessions are not chosen.
unfoldable pub spared : (String → Bool) → List Aged → ℕ
spared hit [] = 0
spared hit (a ∷ rest) = let more = spared hit rest in if hit a.sid then more else suc more

spared-insert :
    (hit : String → Bool) (a : Aged) (xs : List Aged)
    → spared hit (insert_aged a xs) ≡ spared hit (a ∷ xs)
unfolding insert_aged spared
spared-insert hit a [] = refl
spared-insert hit a (b ∷ rest) = elim (Bool-cases (older b a)) [
  | inl before ↦ rw before (ground (arith, spared-insert hit a rest))
  | inr after ↦ rw after refl
]

pub spared-sort : (hit : String → Bool) (xs : List Aged) → spared hit (sort_aged xs) ≡ spared hit xs
unfolding sort_aged spared
spared-sort hit [] = refl
spared-sort hit (a ∷ rest) =
    ground (arith, spared-insert hit a (sort_aged rest), spared-sort hit rest)

module _ (r : Redis) (c : Config r) where
  open r use {Db, get, del, smembers, smembers-srem, smembers-srem_other, smembers-del_ne}

  -- One step through the index.
  pub timeless :
      (d : Db) (x : String) (rest : List String)
      → time_of r c d x ≡ none
      → (with_time r c d (x ∷ rest) ≡ with_time r c d rest)
        × (corrupted r c d (x ∷ rest) ≡ x ∷ corrupted r c d rest)
  unfolding with_time corrupted
  timeless d x rest e = (rw (e, with_time) refl, rw (e, corrupted) refl)

  pub timed :
      (d : Db) (x ts : String) (rest : List String)
      → time_of r c d x ≡ some ts
      → (with_time r c d (x ∷ rest) ≡ record { sid = x; ts = ts } ∷ with_time r c d rest)
        × (corrupted r c d (x ∷ rest) ≡ corrupted r c d rest)
  unfolding with_time corrupted
  timed d x ts rest e = (rw (e, with_time) refl, rw (e, corrupted) refl)

  -- Every session of the index has a time or is corrupted.
  pub listed :
      (d : Db) (ids : List String) (sid : String)
      → contains ids sid ≡ true
      → contains (corrupted r c d ids) sid ≡ false
      → contains (ids_of (with_time r c d ids)) sid ≡ true
  unfolding contains
  listed d [] sid h n = absurd (ground arith)
  listed d (x ∷ rest) sid h n = elim (Option-cases (time_of r c d x)) [
    | inl bad ↦
        let (same, out) = timeless d x rest bad in
        let n' = rw out at n in rw same (listed d rest sid (ground arith) (ground arith))
    | inr (ts, good) ↦
        let (same, out) = timed d x ts rest good in
        let n' = rw out at n in rw same (ground (arith, listed d rest sid))
  ]

  -- One protected session at most is spared.
  spared_absent :
      (d : Db) (protected : String) (ids : List String)
      → contains ids protected ≡ false
      → spared (λ sid. not (sid == protected)) (with_time r c d ids) ≡ 0
  unfolding spared contains with_time
  spared_absent d protected [] n = refl
  spared_absent d protected (x ∷ rest) n = elim (Option-cases (time_of r c d x)) [
    | inl bad ↦ rw ((timeless d x rest bad).0) (spared_absent d protected rest (ground arith))
    | inr (ts, good) ↦
        rw ((timed d x ts rest good).0) (ground (arith, spared_absent d protected rest))
  ]

  pub spared_one :
      (d : Db) (protected : String) (ids : List String)
      → IsDistinct ids
      → spared (λ sid. not (sid == protected)) (with_time r c d ids) ≤ 1
  unfolding spared with_time
  spared_one d protected [] n = omega arith
  spared_one d protected (x ∷ rest) (new, n) = elim (Option-cases (time_of r c d x)) [
    | inl bad ↦ rw ((timeless d x rest bad).0) (spared_one d protected rest n)
    | inr (ts, good) ↦ rw ((timed d x ts rest good).0) (elim (Bool-cases (x == protected)) [
      | inl same ↦
          let e = eq→path x protected same in
          let none_left =
            spared_absent d protected rest (subst (λ y. contains rest y ≡ false) e new) in
          rw same (omega (arith, none_left))
      | inr differ ↦ rw differ (spared_one d protected rest n)
    ])
  ]
