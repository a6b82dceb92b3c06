-- ===== src/Oauth2/DeviceCode/Service/Scripts.antt =====
-- The scripts on device codes, seen through what they leave in Redis.
use gosso.Prelude.{
  ◌+◌, ◌&&◌, ltb, Bool-cases, ℕ, ◌≡◌, ◌≢◌, refl, inl, inr, Option, none, some, String, arith, err,
  Option-cases,
}
use gosso.Redis.{device_code_poll, Redis, Key, device_code, value, Codec}
use gosso.Oauth2.DeviceCode.{DeviceCode, device_code_not_found}
use gosso.Oauth2.DeviceCode.Service.{
  last_epoch, of_unix, poll_script, save_px, save_ex, save_for, change_script, found,
}

abbrev pub bind_option : {A B : Type 0} → Option A → (A → Option B) → Option B
bind_option none f = none
bind_option (some a) f = f a

module _ (r : Redis) (json : Codec (r.Text) DeviceCode) where
  open r use {
    Db, Text, get, set, set_forever, pttl, ttl, elapse, get-set, get-set_ne, get-set_forever,
    get-set_forever_ne,
  }

  abbrev pub view : Db → String → Option DeviceCode
  view d hash = bind_option (get d (device_code hash)) json.decode

  -- A way to store a text that puts it under its key and leaves the other keys alone.
  pub record Saves (save : Db → Key → Text → Db) : Type 0 where
    pub at_key : (d : Db) (k : Key) (t : Text) → get (save d k t) k ≡ some t
    pub elsewhere : (d : Db) (k j : Key) (t : Text) → k ≢ j → get (save d k t) j ≡ get d j

  pub save_for-Saves : (ms : ℕ) → Saves (save_for r json ms)
  unfolding save_for
  save_for-Saves ms = record {
    at_key = λ d k t. ground (arith, get-set d k t ms, get-set_forever d k t);
    elsewhere = λ d k j t h. ground (arith, get-set_ne d k j t ms h, get-set_forever_ne d k j t h);
  }

  pub save_px-Saves : Saves (save_px r json)
  unfolding save_px
  save_px-Saves = record {
    at_key = λ d k t. (save_for-Saves (pttl d k)).at_key d k t;
    elsewhere = λ d k j t h. (save_for-Saves (pttl d k)).elsewhere d k j t h;
  }

  pub save_ex-Saves : Saves (save_ex r json)
  unfolding save_ex
  save_ex-Saves = record {
    at_key = λ d k t. get-set d k t _;
    elsewhere = λ d k j t h. get-set_ne d k j t _ h;
  }

  -- What one run of a script comes to: the change was made on the code that was there, or nothing
  -- was.
  pub data Outcome (change : DeviceCode → Option DeviceCode) (save : Db → Key → Text → Db)
      (hash : String) (d : Db) : Type 0 where
    changes :
        (dc e : DeviceCode)
        → view d hash ≡ some dc
        → change dc ≡ some e
        → change_script r json change save hash d
          ≡ (value e, save d (device_code hash) (json.encode e))
        → Outcome change save hash d
    ignores :
        found (change_script r json change save hash d).0 ≡ err device_code_not_found
        → (change_script r json change save hash d).1 ≡ d
        → ((dc : DeviceCode) → view d hash ≡ some dc → change dc ≡ none)
        → Outcome change save hash d

  pub outcome :
      (change : DeviceCode → Option DeviceCode) (save : Db → Key → Text → Db) (hash : String)
      (d : Db)
      → Outcome change save hash d
  unfolding change_script
  outcome change save hash d = elim (Option-cases (get d (device_code hash))) [
    | inl e ↦ ignores (ground (arith, e)) (ground (arith, e)) (λ dc v. absurd (ground (arith, e)))
    | inr (t, e) ↦ elim (Option-cases (json.decode t)) [
      | inl b ↦
          ignores (ground (arith, e, b)) (ground (arith, e, b))
            (λ dc v. absurd (ground (arith, e, b)))
      | inr (dc, b) ↦ elim (Option-cases (change dc)) [
        | inl c ↦
            ignores (ground (arith, e, b, c)) (ground (arith, e, b, c))
              (λ dc' v. ground (arith, e, b, c))
        | inr (e', c) ↦ changes dc e' (ground (arith, e, b)) c (ground (arith, e, b, c))
      ]
    ]
  ]

  -- What is stored under a key is seen there, and elsewhere nothing changes.
  pub view-save :
      {save : Db → Key → Text → Db}
      → Saves save
      → (d : Db) (hash : String) (e : DeviceCode)
      → view (save d (device_code hash) (json.encode e)) hash ≡ some e
  view-save s d hash e = rw (s.at_key d (device_code hash) (json.encode e)) (json.decode-encode e)

  pub view-save_ne :
      {save : Db → Key → Text → Db}
      → Saves save
      → (d : Db) (hash other : String) (t : Text) → hash ≢ other
      → view (save d (device_code hash) t) other ≡ view d other
  view-save_ne s d hash other t h =
      rw (s.elsewhere d (device_code hash) (device_code other) t (λ e. h (ground arith))) refl

module _ (r : Redis) (json : Codec (r.Text) DeviceCode) (epoch : Codec (r.Text) ℕ) where
  open r use {Db, Text, get, pttl}

  -- The state after the poll key was written.
  abbrev pub polled : Db → ℕ → String → Db
  polled d now hash =
      save_for r json (pttl d (device_code hash)) d (device_code_poll hash) (epoch.encode now)

  -- What a poll leaves behind: nothing new, the time of the poll, or that and the code with it.
  pub data PollOutcome (now interval : ℕ) (hash : String) (d : Db) : Type 0 where
    quiet : (poll_script r json epoch now interval hash d).1 ≡ d → PollOutcome now interval hash d
    warned :
        (poll_script r json epoch now interval hash d).1 ≡ polled d now hash
        → PollOutcome now interval hash d
    touched :
        (dc : DeviceCode)
        → view r json d hash ≡ some dc
        → (poll_script r json epoch now interval hash d).1
          ≡ save_for r json
              (pttl d (device_code hash))
              (polled d now hash)
              (device_code hash)
              (json.encode (record dc { last_poll_at = of_unix now }))
        → PollOutcome now interval hash d

  pub poll_outcome : (now interval : ℕ) (hash : String) (d : Db) → PollOutcome now interval hash d
  unfolding poll_script
  poll_outcome now interval hash d = elim (Option-cases (get d (device_code hash))) [
    | inl e ↦ quiet (ground (arith, e))
    | inr (t, e) ↦ elim (Option-cases (last_epoch r json epoch (get d (device_code_poll hash)))) [
      | inl b ↦ quiet (ground (arith, e, b))
      | inr (last, b) ↦ elim (Bool-cases (ltb 0 last && ltb now (last + interval))) [
        | inl early ↦ quiet (ground (arith, e, b, early))
        | inr late ↦ elim (Option-cases (json.decode t)) [
          | inl c ↦ warned (ground (arith, e, b, late, c))
          | inr (dc, c) ↦ touched dc (ground (arith, e, c)) (ground (arith, e, b, late, c))
        ]
      ]
    ]
  ]
