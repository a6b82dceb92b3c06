-- ===== src/Oauth2/DeviceCode/Service.antt =====
-- internal/oauth2/service/device_code_service.go: codes in Redis, and the scripts that change
-- them. Device codes are keyed by the hex text of their SHA-256.
pub mod Scripts
pub mod Spent
pub mod Claim
use gosso.Prelude.{
  ℕ, ◌+◌, ◌-◌, ◌*◌, ◌/◌, not, ◌&&◌, Option, none, some, String, nat_eq, ltb, if◌then◌else◌,
  is_empty, ◌==◌, Result, ok, err, reject,
}
use gosso.Redis.{
  Redis, Key, device_code, device_code_poll, Reply, value, nil, failed, Link, exec, Codec,
}
use gosso.Oauth2.Client.{Time}
use gosso.Oauth2.DeviceCode.{
  DeviceCode, pending, authorized, denied, used, DeviceError, device_code_not_found, slow_down,
  client_id_required,
}

-- Seconds since 1970 of a time, and back; the constant is 1970 in seconds of year 1.
unfoldable pub unix : Time → ℕ
unix t = t / 1000000000 - 62135596800

unfoldable pub of_unix : ℕ → Time
of_unix s = (s + 62135596800) * 1000000000

-- What `time.RFC3339` keeps of a time.
unfoldable pub to_seconds : Time → Time
to_seconds t = t / 1000000000 * 1000000000

-- The changes that the scripts make, and the tests before them.
unfoldable pub authorize_stored : String → Time → DeviceCode → Option DeviceCode
authorize_stored account at dc = elim dc.status [
  | pending ↦ some (record dc { status = authorized; account_id = account; authorized_at = at })
  | _ ↦ none
]

unfoldable pub deny_stored : DeviceCode → Option DeviceCode
deny_stored dc = elim dc.status [ pending ↦ some (record dc { status = denied }) | _ ↦ none ]

unfoldable pub claim_stored : String → DeviceCode → Option DeviceCode
claim_stored client dc = elim dc.status [
  | authorized ↦
      if not (is_empty client) && not (dc.client_id == client)
      then none
      else some (record dc { status = used })
  | _ ↦ none
]

module _ (r : Redis) (json : Codec (r.Text) DeviceCode) where
  open r use {Db, Text, get, set, set_forever, pttl, ttl}

  -- authorizeDeviceCodeScript and denyDeviceCodeScript keep the lifetime in milliseconds.
  unfoldable pub save_for : ℕ → Db → Key → Text → Db
  save_for ms d k t = if ltb 0 ms then set d k t ms else set_forever d k t

  unfoldable pub save_px : Db → Key → Text → Db
  unfolding save_for
  save_px d k t = save_for (pttl d k) d k t

  -- claimAuthorizedScript keeps it in seconds, and gives a minute to a key without one.
  unfoldable pub save_ex : Db → Key → Text → Db
  save_ex d k t = set d k t (if ltb 0 (ttl d k) then ttl d k * 1000 else 60000)

  -- A script: nil if the key is missing or the change does not apply; a text that cjson cannot
  -- decode is an error of the script.
  save_change : (Db → Key → Text → Db) → String → Db → Option DeviceCode → Reply DeviceCode × Db
  save_change save hash d none = (nil, d)
  save_change save hash d (some dc) = (value dc, save d (device_code hash) (json.encode dc))

  change_decoded :
      (DeviceCode → Option DeviceCode)
      → (Db → Key → Text → Db)
      → String
      → Db
      → Option DeviceCode
      → Reply DeviceCode × Db
  unfolding save_change
  change_decoded change save hash d none = (failed, d)
  change_decoded change save hash d (some dc) = save_change save hash d (change dc)

  change_text :
      (DeviceCode → Option DeviceCode)
      → (Db → Key → Text → Db)
      → String
      → Db
      → Option Text
      → Reply DeviceCode × Db
  unfolding change_decoded
  change_text change save hash d none = (nil, d)
  change_text change save hash d (some t) = change_decoded change save hash d (json.decode t)

  unfoldable pub change_script :
      (DeviceCode → Option DeviceCode)
      → (Db → Key → Text → Db)
      → String
      → Db
      → Reply DeviceCode × Db
  unfolding change_text
  change_script change save hash d = change_text change save hash d (get d (device_code hash))

-- A call that fails has the nil result too, and the source tests that first.
abbrev pub found : Reply DeviceCode → Result DeviceError DeviceCode
found (value dc) = ok dc
found nil = err device_code_not_found
found failed = err device_code_not_found

module _ (r : Redis) (json : Codec (r.Text) DeviceCode) where
  open r use {Db, Text, get, set, set_forever, pttl}

  -- AuthorizeDeviceCodeByHash; AuthorizeDeviceCode is this at `hash_token device`.
  unfoldable pub authorize_by_hash :
      Link → Time → String → String → Db → Result DeviceError DeviceCode × Db
  unfolding change_script authorize_stored save_px
  authorize_by_hash link now hash account d =
      let (reply, d') =
        exec link
          (change_script r json (authorize_stored account (to_seconds now)) (save_px r json) hash)
          d in
      (found reply, d')

  unfoldable pub deny_by_hash : Link → String → Db → Result DeviceError DeviceCode × Db
  unfolding change_script deny_stored save_px
  deny_by_hash link hash d =
      let (reply, d') = exec link (change_script r json deny_stored (save_px r json) hash) d in
      (found reply, d')

  -- ClaimAuthorizedDeviceCode, after the device code is hashed.
  unfoldable pub claim_by_hash : Link → String → String → Db → Result DeviceError DeviceCode × Db
  unfolding change_script claim_stored save_ex
  claim_by_hash link hash client d =
      if is_empty client
      then (err client_id_required, d)
      else (let (reply, d') =
            exec link (change_script r json (claim_stored client) (save_ex r json) hash) d in
          (found reply, d'))

-- checkAndUpdatePollRateScript. Its reply is 1, or 0 for a poll that comes too early.
module _ (r : Redis) (json : Codec (r.Text) DeviceCode) (epoch : Codec (r.Text) ℕ) where
  open r use {Db, Text, get, pttl}

  -- tonumber(redis.call('GET', KEYS[2]) or '0'); a text that is no number is an error later on.
  last_epoch : Option Text → Option ℕ
  last_epoch none = some 0
  last_epoch (some t) = epoch.decode t

  -- The poll key is written before the code's text is decoded, and stays written.
  touch_code : ℕ → ℕ → String → Db → Option DeviceCode → Reply ℕ × Db
  unfolding of_unix save_for
  touch_code now ms hash d none = (failed, d)
  touch_code now ms hash d (some dc) = (
    value 1,
    save_for r json ms d (device_code hash)
        (json.encode (record dc { last_poll_at = of_unix now })),
  )

  poll_since : ℕ → ℕ → String → Db → Text → Option ℕ → Reply ℕ × Db
  unfolding touch_code save_for
  poll_since now interval hash d t none = (failed, d)
  poll_since now interval hash d t (some last) =
      if ltb 0 last && ltb now (last + interval)
      then (value 0, d)
      else touch_code now (pttl d (device_code hash)) hash
          (save_for r json (pttl d (device_code hash)) d (device_code_poll hash) (epoch.encode now))
          (json.decode t)

  poll_text : ℕ → ℕ → String → Db → Option Text → Reply ℕ × Db
  unfolding poll_since last_epoch
  poll_text now interval hash d none = (nil, d)
  poll_text now interval hash d (some t) =
      poll_since now interval hash d t (last_epoch (get d (device_code_poll hash)))

  unfoldable pub poll_script : ℕ → ℕ → String → Db → Reply ℕ × Db
  unfolding poll_text
  poll_script now interval hash d = poll_text now interval hash d (get d (device_code hash))

  -- CheckAndUpdatePollRate; `interval` is in seconds.
  abbrev poll_result : Reply ℕ → Result DeviceError (Unit {0})
  poll_result (value n) = reject (nat_eq n 0) slow_down
  poll_result _ = err device_code_not_found

  unfoldable pub check_and_update_poll_rate :
      Link → Time → ℕ → String → Db → Result DeviceError (Unit {0}) × Db
  unfolding poll_script unix
  check_and_update_poll_rate link now interval hash d =
      let (reply, d') = exec link (poll_script (unix now) interval hash) d in
      (poll_result reply, d')
