-- ===== src/Account/Validity.antt =====
-- Which accounts account.go takes for valid, and which names NewAccount accepts.
use gosso.Prelude.{
  ◌≤◌, ◌≡◌, ◌≢◌, refl, ◌↔◌, true, false, Option, none, some, String, arith, eq_iff, Result, ◌>>=◌,
  ok, err, is_ok, trim_space, byte_len,
}
use gosso.Oauth2.Client.{Time}
use gosso.Account.{
  Account, AccountStatus, AccountError, active, suspended, deleted, unknown, sanitize,
  sanitize_username, fresh_account, validate, new_account, too_long, is_valid_account_status,
}

abbrev IsShort : Option String → Type 0
IsShort none = Unit {0}
IsShort (some u) = byte_len u ≤ 64

-- The fields of a valid account.
pub record IsValid (a : Account) : Type 0 where
  pub named : a.display_name ≢ ""
  pub name_fits : byte_len a.display_name ≤ 255
  pub username_fits : IsShort a.username
  pub known : (s : String) → a.status ≢ unknown s
  pub has_locale : a.locale ≢ ""
  pub locale_fits : byte_len a.locale ≤ 10
  pub has_timezone : a.timezone ≢ ""

too_long_iff : (u : Option String) → (too_long u ≡ false) ↔ IsShort u
unfolding too_long
too_long_iff none = (λ h. tt, λ h. refl)
too_long_iff (some u) = (λ h. ground arith, λ h. ground arith)

known_iff :
    (s : AccountStatus) → (is_valid_account_status s ≡ true) ↔ ((t : String) → s ≢ unknown t)
unfolding is_valid_account_status
known_iff active = (λ h t. ground arith, λ k. refl)
known_iff suspended = (λ h t. ground arith, λ k. refl)
known_iff deleted = (λ h t. ground arith, λ k. refl)
known_iff (unknown s) = (λ h. absurd (ground arith), λ k. absurd (k s refl))

pub validate-IsValid : (a : Account) → is_ok (validate a) ≡ true → IsValid a
unfolding validate
validate-IsValid a h = record {
  named = ground (arith, eq_iff a.display_name "");
  name_fits = ground arith;
  username_fits = (too_long_iff a.username).0 (ground arith);
  known = (known_iff a.status).0 (ground arith);
  has_locale = ground (arith, eq_iff a.locale "");
  locale_fits = ground arith;
  has_timezone = ground (arith, eq_iff a.timezone "");
}

IsValid-validate : (a : Account) → IsValid a → is_ok (validate a) ≡ true
unfolding validate
IsValid-validate a v =
    let u = (too_long_iff a.username).1 v.username_fits in
    let k = (known_iff a.status).1 v.known in
    ground (
      arith,
      eq_iff a.display_name "",
      eq_iff a.locale "",
      eq_iff a.timezone "",
      v.named,
      v.has_locale,
      v.has_timezone,
      v.name_fits,
      v.locale_fits,
    )

-- Validate accepts an account exactly when its name, locale and time zone are not empty, the name
-- has at most 255 bytes, the user name, if any, 64 and the locale 10, and the status is a known one.
pub validate_iff : (a : Account) → (is_ok (validate a) ≡ true) ↔ IsValid a
validate_iff a = (validate-IsValid a, IsValid-validate a)

is_ok-value : (r : Result AccountError Account) → is_ok r ≡ true → (a : Account) × (r ≡ ok a)
is_ok-value (ok a) h = (a, refl)
is_ok-value (err e) h = absurd (ground arith)

pub accepted :
    (b a : Account) → (validate b >>= (λ _. ok b)) ≡ ok a → (is_ok (validate b) ≡ true) × (b ≡ a)
accepted b a h = ground arith

trims_en : trim_space "en" ≡ "en"
unfolding trim_space
trims_en = refl

trims_utc : trim_space "UTC" ≡ "UTC"
unfolding trim_space
trims_utc = refl

len_en : byte_len "en" ≡ 2
unfolding byte_len
len_en = refl

fits :
    (id : String) (now : Time) (name : String)
    → trim_space name ≢ ""
    → byte_len (trim_space name) ≤ 255
    → IsValid (sanitize (fresh_account id now name))
unfolding sanitize sanitize_username
fits id now name n l = record {
  named = n;
  name_fits = l;
  username_fits = tt;
  known = λ t e. ground arith;
  has_locale = rw trims_en (ground (arith, eq_iff "en" ""));
  locale_fits = rw trims_en (ground (arith, len_en));
  has_timezone = rw trims_utc (ground (arith, eq_iff "UTC" ""));
}

-- NewAccount accepts a name exactly when, without the white space around it, it is not empty and has
-- at most 255 bytes.
pub new_account_iff :
    (id : String) (now : Time) (name : String)
    → (is_ok (new_account id now name) ≡ true)
      ↔ ((trim_space name ≢ "") × (byte_len (trim_space name) ≤ 255))
unfolding new_account sanitize
new_account_iff id now name =
    let b = sanitize (fresh_account id now name) in
    (
      λ h.
          let (a, made) = is_ok-value (new_account id now name) h in
          let v = validate-IsValid b (accepted b a made).0 in (v.named, v.name_fits),
      λ h. ground (arith, IsValid-validate b (fits id now name h.0 h.1)),
    )
