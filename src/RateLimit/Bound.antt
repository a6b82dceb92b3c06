-- ===== src/RateLimit/Bound.antt =====
-- redis_ratelimit.go: how many requests the sliding window lets through.
use gosso.Prelude.{
  ℕ, suc, ◌+◌, ◌*◌, ◌/◌, ◌≤◌, ◌<◌, ◌≡◌, refl, sym, ◌∙◌, ap, subst, inl, inr, Bool, true, false,
  List, [], ◌∷◌, arith, ltb, leb, length, Bool-cases, All, if◌then◌else◌,
}
use gosso.RateLimit.{Window, fresh, live, evict, zadd, sliding_window}

evict-evict :
    (window a b : ℕ) (ts : List ℕ) → a ≤ b → evict window b (evict window a ts) ≡ evict window b ts
unfolding evict
evict-evict window a b [] h = refl
evict-evict window a b (t ∷ rest) h = elim (Bool-cases (leb (t / 1000 + window) a)) [
  | inl old ↦
      let old' : leb (t / 1000 + window) b ≡ true = ground (arith, old) in
      rw (old, old') (evict-evict window a b rest h)
  | inr new ↦ rw new (elim (Bool-cases (leb (t / 1000 + window) b)) [
    | inl old ↦ rw (old, evict) (evict-evict window a b rest h)
    | inr newer ↦ rw (newer, evict) (ap (λ x. t ∷ x) (evict-evict window a b rest h))
  ])
]

length-evict : (window b : ℕ) (ts : List ℕ) → length (evict window b ts) ≤ length ts
unfolding evict
length-evict window b [] = omega arith
length-evict window b (t ∷ rest) = ground (arith, length-evict window b rest)

evict_all :
    (window b t : ℕ) (ts : List ℕ)
    → All (λ x. x ≤ t) ts
    → t / 1000 + window ≤ b
    → evict window b ts ≡ []
unfolding evict
evict_all window b t [] a h = refl
evict_all window b t (x ∷ rest) (le, a) h =
    let old : leb (x / 1000 + window) b ≡ true = ground arith in
    rw old (evict_all window b t rest a h)

evict_keep :
    (window b t : ℕ) (ts : List ℕ)
    → leb (t / 1000 + window) b ≡ false
    → evict window b (t ∷ ts) ≡ t ∷ evict window b ts
unfolding evict
evict_keep window b t ts e = rw e refl

evict-All :
    (window b t : ℕ) (ts : List ℕ) → All (λ x. x ≤ t) ts → All (λ x. x ≤ t) (evict window b ts)
unfolding evict
evict-All window b t [] a = tt
evict-All window b t (x ∷ rest) (le, a) = elim (Bool-cases (leb (x / 1000 + window) b)) [
  | inl old ↦ rw old (evict-All window b t rest a)
  | inr new ↦ rw new (le, evict-All window b t rest a)
]

All-later : (s t : ℕ) (ts : List ℕ) → s ≤ t → All (λ x. x ≤ s) ts → All (λ x. x ≤ t) ts
All-later s t [] h a = tt
All-later s t (x ∷ rest) h (le, a) = (omega arith, All-later s t rest h a)

zadd_latest : (s t : ℕ) (ts : List ℕ) → All (λ x. x ≤ s) ts → s < t → zadd t ts ≡ t ∷ ts
unfolding zadd
zadd_latest s t [] a h = refl
zadd_latest s t (x ∷ rest) (le, a) h = let below : ltb x t ≡ true = ground arith in rw below refl

-- How many of the times lie in the window before `m`, in milliseconds.
unfoldable pub recent : ℕ → ℕ → List ℕ → ℕ
recent window m [] = 0
recent window m (t ∷ ts) =
    let rest = recent window m ts in if ltb m (t / 1000 + window) then suc rest else rest

recent-length : (window m : ℕ) (ts : List ℕ) → recent window m ts ≡ length (evict window m ts)
unfolding recent evict
recent-length window m [] = refl
recent-length window m (t ∷ ts) = ground (arith, recent-length window m ts)

-- The requests that were let through, with the one at `t`.
abbrev pub with_request : Bool → ℕ → List ℕ → List ℕ
with_request true t ts = t ∷ ts
with_request false t ts = ts

module _ (window_sec limit : ℕ) where
  abbrev pub outcome : ℕ → Window → Bool
  outcome t w = (sliding_window window_sec limit t w).0.allowed

  -- Requests one after the other, of which `ts` were let through; the last came at `s`.
  pub data Run : Window → List ℕ → ℕ → Type 0 where
    start : Run fresh [] 0
    request :
        (t : ℕ) {w : Window} {ts : List ℕ} {s : ℕ}
        → Run w ts s
        → s < t
        → Run (sliding_window window_sec limit t w).1 (with_request (outcome t w) t ts) t

  -- From `s` on, the sorted set has what was let through in the window, and no more than the limit.
  record Follows (w : Window) (ts : List ℕ) (s : ℕ) : Type 0 where
    latest : All (λ x. x ≤ s) ts
    same :
        (m : ℕ)
        → s / 1000 ≤ m
        → evict (window_sec * 1000) m (live m w) ≡ evict (window_sec * 1000) m ts
    bounded : (m : ℕ) → s / 1000 ≤ m → length (evict (window_sec * 1000) m ts) ≤ limit

  start-Follows : Follows fresh [] 0
  unfolding evict
  start-Follows = record {
    latest = tt;
    same = λ m h. elim (Bool-cases (leb 0 m)) [ inl e ↦ rw e refl | inr e ↦ rw e refl ];
    bounded = λ m h. omega arith;
  }

  allowed-Follows :
      (w : Window) (ts : List ℕ) (s t : ℕ)
      → Follows w ts s
      → s < t
      → let kept = evict (window_sec * 1000) (t / 1000) (live (t / 1000) w) in
        ltb (length kept) limit ≡ true
        → Follows
            (record { entries = zadd t kept; expires = t / 1000 + window_sec * 1000 })
            (t ∷ ts)
            t
  allowed-Follows w ts s t f lt below =
      let window = window_sec * 1000 in
      let now : ℕ = t / 1000 in
      let all : All (λ x. x ≤ t) (t ∷ ts) =
        (omega arith, All-later s t ts (omega arith) f.latest) in
      let kept = f.same now (omega arith) in
      let added =
        zadd_latest s t (evict window now (live now w))
          (subst (All (λ x. x ≤ s)) (sym kept) (evict-All window now s ts f.latest)) lt in
      record {
        latest = all;
        same = λ m h. elim (Bool-cases (leb (now + window) m)) [
          | inl gone ↦
              let over : now + window ≤ m = ground arith in
              rw gone
                (evict_all window m t [] tt over ∙ sym (evict_all window m t (t ∷ ts) all over))
          | inr there ↦
              rw
                (
                  there,
                  added,
                  evict_keep window m t (evict window now (live now w)) there,
                  evict_keep window m t ts there,
                )
                (ap (λ x. t ∷ x) (ap (evict window m) kept ∙ evict-evict window now m ts h))
        ];
        bounded = λ m h. elim (Bool-cases (leb (now + window) m)) [
          | inl gone ↦ rw (evict_all window m t (t ∷ ts) all (ground arith)) (omega arith)
          | inr there ↦
              let fewer = length-evict window m (evict window now ts) in
              let shrunk = evict-evict window now m ts h in
              rw (evict_keep window m t ts there)
                (ground (arith, rw kept at below, rw shrunk at fewer))
        ];
      }

  denied-Follows :
      (w : Window) (ts : List ℕ) (s t : ℕ)
      → Follows w ts s
      → s < t
      → Follows
          (record w { entries = evict (window_sec * 1000) (t / 1000) (live (t / 1000) w) })
          ts
          t
  denied-Follows w ts s t f lt = record {
    latest = All-later s t ts (omega arith) f.latest;
    same = λ m h. elim (Bool-cases (leb w.expires m)) [
      | inl gone ↦
          let here : evict (window_sec * 1000) m (live m w) ≡ evict (window_sec * 1000) m ts =
            f.same m (omega arith) in
          rw gone (rw gone at here)
      | inr there ↦ rw there (
          ap (evict (window_sec * 1000) m) (f.same (t / 1000) (omega arith))
          ∙ evict-evict (window_sec * 1000) (t / 1000) m ts h)
    ];
    bounded = λ m h. f.bounded m (omega arith);
  }

  abbrev kept_at : ℕ → Window → List ℕ
  kept_at t w = evict (window_sec * 1000) (t / 1000) (live (t / 1000) w)

  script_allows :
      (t : ℕ) (w : Window)
      → ltb (length (kept_at t w)) limit ≡ true
      → ((sliding_window window_sec limit t w).1
          ≡ record { entries = zadd t (kept_at t w); expires = t / 1000 + window_sec * 1000 })
        × (outcome t w ≡ true)
  unfolding sliding_window
  script_allows t w e = (rw (e, sliding_window) refl, rw (e, outcome, sliding_window) refl)

  script_denies :
      (t : ℕ) (w : Window)
      → ltb (length (kept_at t w)) limit ≡ false
      → ((sliding_window window_sec limit t w).1 ≡ record w { entries = kept_at t w })
        × (outcome t w ≡ false)
  unfolding sliding_window
  script_denies t w e = (rw (e, sliding_window) refl, rw (e, outcome, sliding_window) refl)

  run-Follows : (w : Window) (ts : List ℕ) (s : ℕ) → Run w ts s → Follows w ts s
  run-Follows w ts s start = start-Follows
  run-Follows w ts s (request t {w = w'} {ts = ts'} {s = s'} r lt) =
      let f = run-Follows w' ts' s' r in
      elim (Bool-cases (ltb (length (kept_at t w')) limit)) [
        | inl below ↦
            let (next, let_in) = script_allows t w' below in
            rw (next, let_in) (allowed-Follows w' ts' s' t f lt below)
        | inr full ↦
            let (next, kept_out) = script_denies t w' full in
            rw (next, kept_out) (denied-Follows w' ts' s' t f lt)
      ]

  -- Whatever requests of one key come, each at a later microsecond of Redis's clock than the one
  -- before, of those that were let through no more than the limit lie in the window before any time
  -- from the last request on.
  pub run-bounded :
      (w : Window) (ts : List ℕ) (s m : ℕ)
      → Run w ts s
      → s / 1000 ≤ m
      → recent (window_sec * 1000) m ts ≤ limit
  run-bounded w ts s m r h =
      let f = run-Follows w ts s r in rw (recent-length (window_sec * 1000) m ts) (f.bounded m h)

  -- After whatever requests of one key, each at a later microsecond than the one before, the next
  -- one is let through exactly if of those that were let through fewer than the limit lie in the
  -- window before it; requests that were turned away do not count.
  pub run_allows :
      (w : Window) (ts : List ℕ) (s t : ℕ)
      → Run w ts s
      → s < t
      → outcome t w ≡ ltb (recent (window_sec * 1000) (t / 1000) ts) limit
  run_allows w ts s t r lt =
      let f = run-Follows w ts s r in
      let same = f.same (t / 1000) (omega arith) in
      rw (recent-length (window_sec * 1000) (t / 1000) ts, sym same)
        (elim (Bool-cases (ltb (length (kept_at t w)) limit)) [
          | inl below ↦ (script_allows t w below).1 ∙ sym below
          | inr full ↦ (script_denies t w full).1 ∙ sym full
        ])
