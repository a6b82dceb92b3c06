-- ===== src/Account.antt =====
-- internal/account/domain/account.go: the account and its lifecycle.
pub mod Validity
pub mod Lifecycle
pub mod Role
pub mod Credential
use gosso.Prelude.{
  [], ℕ, ◌≡◌, refl, Bool, true, false, not, ◌&&◌, Option, none, some, String, ltb, if◌then◌else◌,
  is_empty, Result, ok, err, ◌>>=◌, ◌>>◌, reject, trim_space, byte_len,
}
use gosso.Oauth2.Client.{Time, Metadata}

-- The known values of the status string, and any other.
pub data AccountStatus : Type 0 where
  active suspended deleted : AccountStatus
  unknown : String → AccountStatus

pub data AccountError : Type 0 where
  display_name_required display_name_too_long username_too_long : AccountError
  locale_required locale_too_long timezone_required : AccountError
  account_already_deleted cannot_suspend_deleted cannot_activate_deleted : AccountError
  invalid_account_status : AccountError

pub record Account : Type 0 where
  pub id : String
  pub username : Option String
  pub display_name : String
  pub avatar_url : Option String
  pub status : AccountStatus
  pub locale : String
  pub timezone : String
  pub metadata : Metadata
  pub created_at : Time
  pub updated_at : Time
  pub deleted_at : Option Time

unfoldable pub is_valid_account_status : AccountStatus → Bool
is_valid_account_status (unknown s) = false
is_valid_account_status _ = true

unfoldable pub sanitize_username : Option String → Option String
sanitize_username none = none
sanitize_username (some u) = if is_empty (trim_space u) then none else some (trim_space u)

unfoldable pub sanitize : Account → Account
unfolding sanitize_username
sanitize a = record a {
  display_name = trim_space a.display_name;
  username = sanitize_username a.username;
  locale = trim_space a.locale;
  timezone = trim_space a.timezone;
}

-- `a.Username != nil && len(*a.Username) > 64`
unfoldable pub too_long : Option String → Bool
too_long none = false
too_long (some u) = ltb 64 (byte_len u)

unfoldable pub validate : Account → Result AccountError (Unit {0})
validate a = do
  reject (is_empty a.display_name) display_name_required
  reject (ltb 255 (byte_len a.display_name)) display_name_too_long
  reject (too_long a.username) username_too_long
  reject (not (is_valid_account_status a.status)) invalid_account_status
  reject (is_empty a.locale) locale_required
  reject (ltb 10 (byte_len a.locale)) locale_too_long
  reject (is_empty a.timezone) timezone_required
  ok tt

-- The new identifier and the time are arguments.
abbrev pub fresh_account : String → Time → String → Account
fresh_account id now display_name = record {
  id = id;
  username = none;
  display_name = display_name;
  avatar_url = none;
  status = active;
  locale = "en";
  timezone = "UTC";
  metadata = some [];
  created_at = now;
  updated_at = now;
  deleted_at = none;
}

unfoldable pub new_account : String → Time → String → Result AccountError Account
new_account id now display_name =
    let a = sanitize (fresh_account id now display_name) in validate a >>= (λ _. ok a)

abbrev is_set : Option Time → Bool
is_set none = false
is_set (some t) = true

-- An account is `none` where the receiver is nil.
unfoldable pub is_deleted : Option Account → Bool
is_deleted none = false
is_deleted (some a) = is_set a.deleted_at

abbrev is_active_status : AccountStatus → Bool
is_active_status active = true
is_active_status _ = false

abbrev is_suspended_status : AccountStatus → Bool
is_suspended_status suspended = true
is_suspended_status _ = false

unfoldable pub is_active : Option Account → Bool
unfolding is_deleted
is_active none = false
is_active (some a) = is_active_status a.status && not (is_deleted (some a))

unfoldable pub is_suspended : Option Account → Bool
unfolding is_deleted
is_suspended none = false
is_suspended (some a) = is_suspended_status a.status && not (is_deleted (some a))

unfoldable pub soft_delete : Time → Option Account → Result AccountError Account
unfolding is_deleted
soft_delete now none = err account_already_deleted
soft_delete now (some a) = do
  reject (is_deleted (some a)) account_already_deleted
  ok (record a { deleted_at = some now; status = deleted; updated_at = now })

unfoldable pub suspend : Time → Option Account → Result AccountError Account
unfolding is_deleted
suspend now none = err invalid_account_status
suspend now (some a) = do
  reject (is_deleted (some a)) cannot_suspend_deleted
  reject (not (is_active_status a.status)) invalid_account_status
  ok (record a { status = suspended; updated_at = now })

unfoldable pub activate : Time → Option Account → Result AccountError Account
unfolding is_deleted
activate now none = err invalid_account_status
activate now (some a) = do
  reject (is_deleted (some a)) cannot_activate_deleted
  reject (not (is_suspended_status a.status)) invalid_account_status
  ok (record a { status = active; updated_at = now })
