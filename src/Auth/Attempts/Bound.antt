-- ===== src/Auth/Attempts/Bound.antt =====
-- CheckAndIncr and the limits on it: how many attempts get through.
use gosso.Prelude.{
  ℕ, ◌+◌, ◌-◌, ◌*◌, ◌≤◌, ◌<◌, ◌≡◌, refl, ◌∙◌, inl, inr, true, false, none, some, List, [], ◌∷◌,
  arith, leb, nat_eq, if◌then◌else◌, Bool-cases, Result, err, is_ok,
}
use gosso.Redis.{Redis, Codec, Key, Reply, value, Link, up, lost_request, lost_reply, exec}
use gosso.Token.Refresh.{ceil_seconds}
use gosso.Auth.{ServiceError, service_unavailable}
use gosso.Auth.Attempts.{check_and_incr_script, check_and_incr, incremented, admit, limited}

module _ (r : Redis) (decimal : Codec (r.Text) ℕ) where
  open r use {Db, Text, get, get-put, get-expire}

  -- The counter has this value; it is absent at 0.
  pub data Counts (k : Key) (d : Db) (n : ℕ) : Type 0 where
    absent : get d k ≡ none → n ≡ 0 → Counts k d n
    present : (t : Text) → get d k ≡ some t → decimal.decode t ≡ some n → Counts k d n

  incremented-Counts :
      (k : Key) (n seconds : ℕ) (d : Db) → Counts k (incremented r decimal k n seconds d) (n + 1)
  incremented-Counts k n seconds d = elim (Bool-cases (nat_eq (n + 1) 1)) [
    | inl first ↦ rw first (
        present (decimal.encode (n + 1))
          (get-expire _ k k (1000 * seconds) ∙ get-put d k (decimal.encode (n + 1)))
          (decimal.decode-encode (n + 1)))
    | inr later ↦ rw later (
        present (decimal.encode (n + 1)) (get-put d k (decimal.encode (n + 1)))
          (decimal.decode-encode (n + 1)))
  ]

  -- What the script does at a count.
  script-at :
      (k : Key) (limit seconds n : ℕ) (d : Db)
      → Counts k d n
      → check_and_incr_script r decimal k limit seconds d ≡ (
          if leb limit n
          then (value n, d)
          else (value (n + 1), incremented r decimal k n seconds d))
  unfolding check_and_incr_script
  script-at k limit seconds n d (absent gone zero) = rw (gone, zero, check_and_incr_script) refl
  script-at k limit seconds n d (present t stored good) =
      rw (stored, good, check_and_incr_script) refl

  -- An attempt under the limit, or what happens beside the attempts: other commands, and time.
  pub data Event : Type 0 where
    attempt : Link → Event
    beside : (Db → Db) → Event

  module _ (refusal : ServiceError) (k : Key) (max window : ℕ) where
    -- How many attempts get through.
    unfoldable pub passes : List Event → Db → ℕ
    passes [] d = 0
    passes (beside f ∷ rest) d = passes rest (f d)
    passes (attempt link ∷ rest) d =
        let (res, d') = limited r decimal refusal link k max window d in
        (if is_ok res then 1 else 0) + passes rest d'

    -- What happens beside leaves the counter: no time passes after which it is gone.
    abbrev pub KeepsCounter : List Event → Type 0
    KeepsCounter [] = Unit {0}
    KeepsCounter (attempt link ∷ rest) = KeepsCounter rest
    KeepsCounter (beside f ∷ rest) = ((d : Db) → get (f d) k ≡ get d k) × KeepsCounter rest

    beside-Counts :
        (f : Db → Db) (n : ℕ) (d : Db)
        → ((e : Db) → get (f e) k ≡ get e k)
        → Counts k d n
        → Counts k (f d) n
    beside-Counts f n d same (absent gone zero) = absent (same d ∙ gone) zero
    beside-Counts f n d same (present t stored good) = present t (same d ∙ stored) good

    -- An attempt raises the counter and gets through, or raises it at most, or does nothing.
    data Tried (n : ℕ) (out : Result ServiceError (Unit {0}) × Db) : Type 0 where
      through : is_ok out.0 ≡ true → n + 1 < max → Counts k out.1 (n + 1) → Tried n out
      refused : (m : ℕ) → is_ok out.0 ≡ false → n ≤ m → Counts k out.1 m → Tried n out

    script-Tried :
        (n seconds : ℕ) (d : Db)
        → Counts k d n
        → (let x = check_and_incr_script r decimal k max seconds d in
            Tried n (admit r decimal refusal max x.0, x.1))
    script-Tried n seconds d c = elim (Bool-cases (leb max n)) [
      | inl full ↦
          rw (script-at k max seconds n d c, full)
            (refused n (ground (arith, full)) (omega arith) c)
      | inr room ↦ elim (Bool-cases (leb max (n + 1))) [
        | inl last ↦
            rw (script-at k max seconds n d c, room)
              (refused (n + 1) (ground (arith, last)) (omega arith)
                (incremented-Counts k n seconds d))
        | inr free ↦
            rw (script-at k max seconds n d c, room)
              (through (ground (arith, free)) (ground (arith, free))
                (incremented-Counts k n seconds d))
      ]
    ]

    failed-Tried : (n : ℕ) (d : Db) → Counts k d n → Tried n (err service_unavailable, d)
    failed-Tried n d c = refused n refl (omega arith) c

    lost-Tried :
        (n : ℕ) (x : Reply ℕ × Db)
        → Tried n (admit r decimal refusal max x.0, x.1)
        → Tried n (err service_unavailable, x.1)
    lost-Tried n x (through e l c) = refused (n + 1) refl (omega arith) c
    lost-Tried n x (refused m e l c) = refused m refl l c

    limited-Tried :
        (link : Link) (n : ℕ) (d : Db)
        → Counts k d n
        → Tried n (limited r decimal refusal link k max window d)
    unfolding check_and_incr
    limited-Tried link n d c = elim (Bool-cases (leb window 0)) [
      | inl idle ↦ rw (idle, check_and_incr) (failed-Tried n d c)
      | inr timed ↦
          rw (timed, check_and_incr)
            (elim link
              as (λ w.
                (let x = exec w (check_and_incr_script r decimal k max (ceil_seconds window)) d in
                  Tried n (admit r decimal refusal max x.0, x.1))) [
                    | up ↦ script-Tried n (ceil_seconds window) d c
                    | lost_request ↦ failed-Tried n d c
                    | lost_reply ↦ lost-Tried n _ (script-Tried n (ceil_seconds window) d c)
                  ])
    ]

    passes-le :
        (events : List Event) (n : ℕ) (d : Db)
        → KeepsCounter events
        → Counts k d n
        → passes events d ≤ max - 1 - n
    unfolding passes
    passes-le [] n d keeps c = omega arith
    passes-le (beside f ∷ rest) n d (same, keeps) c =
        passes-le rest n (f d) keeps (beside-Counts f n d same c)
    passes-le (attempt link ∷ rest) n d keeps c = elim (limited-Tried link n d c) [
      | through e l more ↦ rw e (ground (arith, l, passes-le rest (n + 1) _ keeps more))
      | refused m e l same ↦ rw e (ground (arith, l, passes-le rest m _ keeps same))
    ]

    -- While the counter of a limit lives, fewer attempts get through than the limit says,
    -- whatever the network does to the calls and whatever happens beside them. At first there is
    -- no counter.
    pub limited-bounded :
        (events : List Event) (d : Db)
        → KeepsCounter events
        → get d k ≡ none
        → passes events d ≤ max - 1
    limited-bounded events d keeps gone =
        omega (arith, passes-le events 0 d keeps (absent gone refl))
