-- ===== src/Oauth2/DeviceCode/Create.antt =====
-- internal/oauth2/service/device_code_service.go: making a device code and finding it again.
-- `hash_token` is the hex text of SHA-256, `to_upper` is strings.ToUpper; a user code leads to the
-- hash that its device code is keyed by.
use Prim.Native.String.{len, slice}
use Prim.Native.String.{◌++◌ as ◌<>◌}
use gosso.Prelude.{
  ℕ, ◌+◌, not, Option, none, some, List, String, nat_eq, if◌then◌else◌, ◌==◌, Result, ok, err,
  ◌>>=◌, ◌>>◌, reject,
}
use gosso.Redis.{
  Redis, Key, device_code, user_code, Reply, value, nil, failed, Link, exec, read, Raw, Codec,
}
use gosso.Oauth2.Client.{Time}
use gosso.Oauth2.DeviceCode.{
  DeviceCode, DeviceError, device_code_not_found, random_failed, store_failed, get_failed,
  unmarshal_failed, new_device_code,
}

-- strings.ReplaceAll(userCode, "-", "")
unfoldable pub remove_dashes : String → String
remove_dashes String.[] = ""
remove_dashes (String.◌∷◌ c s) =
    let rest = remove_dashes s in if String.◌∷◌ c "" == "-" then rest else String.◌∷◌ c rest

-- XXXX-XXXX
unfoldable pub format_user_code : String → String
format_user_code s = ◌<>◌ (slice s 0 4) (◌<>◌ "-" (slice s 4 (len s)))

module _ (r : Redis) (json : Codec (r.Text) DeviceCode) (raw : Raw (r.Text))
    (hash_token to_upper : String → String) where
  open r use {Db, Text, set}

  abbrev user_key : String → Key
  user_key formatted = user_code (to_upper formatted)

  created : DeviceCode → Reply (Unit {0}) × Db → Result DeviceError DeviceCode × Db
  created dc (failed, d) = (err store_failed, d)
  created dc (_, d) = (ok dc, d)

  -- createDeviceCodeScript, with the device code cleared in what is stored. `ttl` is in
  -- milliseconds.
  store_device_code :
      Link → ℕ → Result DeviceError DeviceCode → Db → Result DeviceError DeviceCode × Db
  unfolding created
  store_device_code link ttl (err e) d = (err e, d)
  store_device_code link ttl (ok dc) d = created dc (
      exec link
        (λ e. (
          value tt,
          set
              (set e (device_code (hash_token dc.device_code))
                (json.encode (record dc { device_code = "" })) ttl)
              (user_key dc.user_code) (raw.to_text (hash_token dc.device_code)) ttl,
        ))
        d)

  -- The code before it is stored, from the two random texts.
  unfoldable pub make_device_code :
      Time → ℕ → ℕ → String → String → String → Option (List String) → Result DeviceError DeviceCode
  unfolding new_device_code format_user_code
  make_device_code now expiry interval device user client scopes = do
    reject (not (nat_eq (len user) 8)) random_failed
    new_device_code now device (format_user_code user) client scopes (now + expiry) interval

  unfoldable pub create_device_code :
      Link
      → Option String
      → Option String
      → Time
      → ℕ
      → ℕ
      → ℕ
      → String
      → Option (List String)
      → Db
      → Result DeviceError DeviceCode × Db
  unfolding store_device_code make_device_code
  create_device_code link none user now expiry ttl interval client scopes d = (err random_failed, d)
  create_device_code link (some device) none now expiry ttl interval client scopes d =
      (err random_failed, d)
  create_device_code link (some device) (some user) now expiry ttl interval client scopes d =
      store_device_code link ttl (make_device_code now expiry interval device user client scopes) d

  decoded : Option DeviceCode → Result DeviceError DeviceCode
  decoded none = err unmarshal_failed
  decoded (some dc) = ok dc

  got : Reply Text → Result DeviceError DeviceCode
  unfolding decoded
  got (value t) = decoded (json.decode t)
  got nil = err device_code_not_found
  got failed = err get_failed

  unfoldable pub get_device_code : Link → String → Db → Result DeviceError DeviceCode
  unfolding got
  get_device_code link device d = got (read r link d (device_code (hash_token device)))

  -- The user code as it was typed, without dashes and in upper case.
  unfoldable pub normalize_user_code : String → String
  unfolding remove_dashes
  normalize_user_code code = to_upper (remove_dashes code)

  with_hash : String → Result DeviceError DeviceCode → Result DeviceError (DeviceCode × String)
  with_hash hash res = do dc ← res; ok (dc, hash)

  resolve : Link → Db → Reply Text → Result DeviceError (DeviceCode × String)
  unfolding with_hash got
  resolve link d (value t) =
      with_hash (raw.of_text t) (got (read r link d (device_code (raw.of_text t))))
  resolve link d nil = err device_code_not_found
  resolve link d failed = err get_failed

  -- The result has the hash that the source puts in the code's `Hash`; there are two GETs.
  unfoldable pub get_device_code_by_user_code :
      Link → Link → String → Db → Result DeviceError (DeviceCode × String)
  unfolding resolve normalize_user_code format_user_code
  get_device_code_by_user_code first second code d =
      if not (nat_eq (len (normalize_user_code code)) 8)
      then err device_code_not_found
      else resolve second d
          (read r first d (user_code (format_user_code (normalize_user_code code))))
