-- ===== src/RateLimit.antt =====
-- middleware/redis_ratelimit.go: the sliding window, a Lua script on one sorted set. Times are the
-- microseconds of Redis's own clock: a member, made of the milliseconds and of the microseconds of
-- the second, stands for its time, and its score is the time in milliseconds.
pub mod Bound
use gosso.Prelude.{
  ℕ, ◌+◌, ◌-◌, ◌*◌, ◌/◌, Bool, true, false, Option, none, some, List, [], ◌∷◌, ltb, leb, length,
  if◌then◌else◌, ◌==◌,
}

-- The sorted set, latest first, and the time in milliseconds at which its key expires.
pub record Window : Type 0 where
  pub entries : List ℕ
  pub expires : ℕ

abbrev pub fresh : Window
fresh = record { entries = []; expires = 0 }

-- What Redis finds at a time.
abbrev pub live : ℕ → Window → List ℕ
live now_ms w = if leb w.expires now_ms then [] else w.entries

-- ZREMRANGEBYSCORE.
unfoldable pub evict : ℕ → ℕ → List ℕ → List ℕ
evict window_ms now_ms [] = []
evict window_ms now_ms (t ∷ rest) =
    let later = evict window_ms now_ms rest in
    if leb (t / 1000 + window_ms) now_ms then later else t ∷ later

-- ZADD.
unfoldable pub zadd : ℕ → List ℕ → List ℕ
zadd t [] = t ∷ []
zadd t (x ∷ rest) =
    let later = zadd t rest in
    if ltb x t then t ∷ x ∷ rest else if leb x t then x ∷ rest else x ∷ later

-- ZRANGE 0 0.
unfoldable pub oldest : List ℕ → Option ℕ
oldest [] = none
oldest (t ∷ []) = some t
oldest (t ∷ x ∷ rest) = oldest (x ∷ rest)

pub record Verdict : Type 0 where
  pub allowed : Bool
  pub remaining : ℕ
  pub reset_at : ℕ
  pub retry_after : ℕ

abbrev ceil : ℕ → ℕ
ceil ms = (ms + 999) / 1000

abbrev clamp : ℕ → ℕ → ℕ
clamp limit n = if ltb limit n then limit else n

-- When the first slot frees up, in seconds, and how many seconds that takes; `t` is the time.
abbrev reset : ℕ → ℕ → Option ℕ → ℕ
reset window_sec t none = t / 1000000 + window_sec
reset window_sec t (some first) = ceil (first / 1000 + window_sec * 1000)

abbrev retry : ℕ → ℕ → Option ℕ → ℕ
retry window_sec t none = window_sec
retry window_sec t (some first) =
    clamp window_sec (ceil (first / 1000 + window_sec * 1000 - t / 1000))

abbrev verdict : Bool → ℕ → ℕ → ℕ → Option ℕ → Verdict
verdict allowed remaining window_sec t first = record {
  allowed = allowed;
  remaining = remaining;
  reset_at = reset window_sec t first;
  retry_after = retry window_sec t first;
}

unfoldable pub sliding_window : ℕ → ℕ → ℕ → Window → Verdict × Window
sliding_window window_sec limit t w =
    let window_ms : ℕ = window_sec * 1000 in
    let kept : List ℕ = evict window_ms (t / 1000) (live (t / 1000) w) in
    let added : Window = record { entries = zadd t kept; expires = t / 1000 + window_ms } in
    if ltb (length kept) limit
    then (
      verdict true (limit - length kept - 1) window_sec t (oldest (live (t / 1000) added)),
      added,
    )
    else (verdict false 0 window_sec t (oldest kept), record w { entries = kept })

pub data Answer : Type 0 where
  next : Option Verdict → Answer
  too_many_requests : Verdict → Answer
  service_unavailable : Answer

-- `none` is an error of Redis. The verdict goes into the headers.
unfoldable pub rate_limit : Bool → Option Verdict → Answer
rate_limit fail_open none = if fail_open then next none else service_unavailable
rate_limit fail_open (some v) = if v.allowed then next (some v) else too_many_requests v
