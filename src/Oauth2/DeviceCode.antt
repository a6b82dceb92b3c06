-- ===== src/Oauth2/DeviceCode.antt =====
-- internal/oauth2/domain/device_code.go: the Device Authorization Grant code (RFC 8628).
pub mod Lifecycle
pub mod Service
pub mod Create
use gosso.Prelude.{
  ℕ, ◌≡◌, refl, Bool, true, false, Option, none, some, List, [], String, nat_eq, ltb, if◌then◌else◌,
  is_empty, Result, ok, err, ◌>>=◌, ◌>>◌, reject,
}
use gosso.Oauth2.Client.{Time}
use gosso.Oauth2.AuthCode.{or_empty}

-- The four known values of the status string.
pub data DeviceCodeStatus : Type 0 where
  pending authorized denied used : DeviceCodeStatus

-- The fields that are serialized; `Hash` is a result of its own where it is set.
pub record DeviceCode : Type 0 where
  pub device_code : String
  pub user_code : String
  pub client_id : String
  pub account_id : String
  pub scopes : List String
  pub status : DeviceCodeStatus
  pub expires_at : Time
  pub authorized_at : Time
  pub last_poll_at : Time
  pub interval : ℕ
  pub created_at : Time

pub data DeviceError : Type 0 where
  device_code_required user_code_required device_client_required : DeviceError
  device_expires_required device_account_id_required : DeviceError
  already_authorized already_denied already_used not_authorized : DeviceError
  device_code_not_found slow_down : DeviceError
  random_failed store_failed get_failed unmarshal_failed client_id_required : DeviceError

unfoldable pub new_device_code :
    Time
    → String
    → String
    → String
    → Option (List String)
    → Time
    → ℕ
    → Result DeviceError DeviceCode
new_device_code now device user client scopes expires_at interval = do
  reject (is_empty device) device_code_required
  reject (is_empty user) user_code_required
  reject (is_empty client) device_client_required
  reject (nat_eq expires_at 0) device_expires_required
  ok (record {
    device_code = device;
    user_code = user;
    client_id = client;
    account_id = "";
    scopes = or_empty scopes;
    status = pending;
    expires_at = expires_at;
    authorized_at = 0;
    last_poll_at = 0;
    interval = interval;
    created_at = now;
  })

unfoldable pub is_expired : Time → Option DeviceCode → Bool
is_expired now none = true
is_expired now (some d) = ltb d.expires_at now

abbrev pub is_pending_status : DeviceCodeStatus → Bool
is_pending_status pending = true
is_pending_status _ = false

unfoldable pub is_pending : Option DeviceCode → Bool
is_pending none = false
is_pending (some d) = is_pending_status d.status

-- The tests of Authorize and Deny on the status, in their order.
unfoldable pub undecided : DeviceCodeStatus → Result DeviceError (Unit {0})
undecided authorized = err already_authorized
undecided denied = err already_denied
undecided used = err already_used
undecided pending = ok tt

-- A method that mutates the code returns the new one; `none` is the nil receiver.
unfoldable pub authorize : Time → String → Option DeviceCode → Result DeviceError DeviceCode
unfolding undecided
authorize now account none = err device_code_not_found
authorize now account (some d) = do
  reject (is_empty account) device_account_id_required
  undecided d.status
  ok (record d { status = authorized; account_id = account; authorized_at = now })

unfoldable pub deny : Option DeviceCode → Result DeviceError DeviceCode
unfolding undecided
deny none = err device_code_not_found
deny (some d) = do undecided d.status; ok (record d { status = denied })

unfoldable pub usable : DeviceCodeStatus → Result DeviceError (Unit {0})
usable used = err already_used
usable authorized = ok tt
usable _ = err not_authorized

unfoldable pub mark_used : Option DeviceCode → Result DeviceError DeviceCode
unfolding usable
mark_used none = err device_code_not_found
mark_used (some d) = do usable d.status; ok (record d { status = used })
