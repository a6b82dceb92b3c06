-- ===== src/Tests/Account.antt =====
-- Tests of accounts and roles.
use gosso.Prelude.{
  contains, ◌≡◌, ◌≢◌, ◌≤◌, ◌↔◌, refl, true, false, not, ◌&&◌, ◌||◌, none, some, [], ◌∷◌, arith, ok,
  is_ok, is_empty, ◌==◌, trim_space, byte_len,
}
use gosso.Account.{
  Account, deleted, new_account, sanitize, sanitize_username, validate, is_valid_account_status,
  too_long, fresh_account,
}
use gosso.Account.Lifecycle
use gosso.Account.Validity.{IsValid, validate_iff, new_account_iff}
use gosso.Account.Lifecycle.{
  IsSound, new_account-run, new_account-IsSound, account_call_iff, account_run_deleted, suspends,
  activates, deletes,
}
use gosso.Account.Role.{
  Role, new_role, add_permission, remove_permission, has_permission, IsUnique, adds, removes,
  changes, has_permission-add, has_permission-remove, new_role-changes,
}

abbrev ann : Account
ann = fresh_account "a1" 10 "Ann"

made : new_account "a1" 10 " Ann " ≡ ok ann
unfolding new_account sanitize sanitize_username validate is_valid_account_status too_long
    trim_space byte_len
made = refl

abbrev gone : Account
gone = record ann { status = deleted; deleted_at = some 30 }

validate_iff_test : (is_ok (validate ann) ≡ true) ↔ IsValid ann
validate_iff_test = validate_iff ann

new_account_iff_test :
    (is_ok (new_account "a1" 10 " ") ≡ true)
    ↔ ((trim_space " " ≢ "") × (byte_len (trim_space " ") ≤ 255))
new_account_iff_test = new_account_iff "a1" 10 " "

new_account-run_example :
    IsSound (Lifecycle.run ann (suspends 20 ∷ activates 25 ∷ deletes 30 ∷ suspends 40 ∷ []))
new_account-run_example =
    new_account-run "a1" 10 " Ann " ann (suspends 20 ∷ activates 25 ∷ deletes 30 ∷ suspends 40 ∷ [])
      made

account_run_deleted_test : Lifecycle.run gone (activates 40 ∷ deletes 50 ∷ []) ≡ gone
account_run_deleted_test =
    account_run_deleted gone (activates 40 ∷ deletes 50 ∷ []) (λ h. ground arith)

account_call_iff_test :
    (is_ok (Lifecycle.call (suspends 20) ann) ≡ true) ↔ Lifecycle.Legal (suspends 20) ann.status
account_call_iff_test =
    account_call_iff (suspends 20) ann (new_account-IsSound "a1" 10 " Ann " ann made)

abbrev editor : Role
editor = record {
  id = "r1";
  name = "editor";
  description = none;
  permissions = [];
  metadata = some [];
  created_at = 10;
  updated_at = 10;
  deleted_at = none;
}

role_made : new_role "r1" 10 "editor" none ≡ ok editor
unfolding new_role trim_space byte_len
role_made = refl

abbrev writer : Role
writer = record editor { permissions = "post:write" ∷ "post:read" ∷ [] }

write_added : has_permission (some (add_permission 20 " post:write" editor)) "post:write" ≡ (
    has_permission (some editor) "post:write"
    || not (is_empty (trim_space " post:write"))
      && trim_space " post:write" == trim_space "post:write")
write_added = has_permission-add 20 " post:write" "post:write" editor

is_not : contains ("post:read" ∷ []) "post:write" ≡ false
unfolding contains
is_not = refl

is_not' : contains [] "post:read" ≡ false
unfolding contains
is_not' = refl

write_removed : has_permission (some (remove_permission 20 "post:write" writer)) "post:write" ≡ (
    has_permission (some writer) "post:write"
    && not (trim_space "post:write" == trim_space "post:write"))
write_removed = has_permission-remove 20 "post:write" "post:write" writer (is_not, (is_not', tt))

new_role-changes_test :
    IsUnique (changes (adds 20 "a" ∷ adds 21 " a" ∷ removes 22 "a" ∷ []) editor).permissions
new_role-changes_test =
    new_role-changes "r1" 10 "editor" none editor (adds 20 "a" ∷ adds 21 " a" ∷ removes 22 "a" ∷ [])
      role_made
