-- ===== src/Account/Lifecycle.antt =====
-- What holds of an account over any calls of account.go.
use gosso.Prelude.{
  ◌≡◌, ◌≢◌, refl, ◌↔◌, ◌⊎◌, true, Option, none, some, List, [], ◌∷◌, String, arith, Result, subst,
  inl, ok, err, is_ok,
}
use gosso.Oauth2.Client.{Time}
use gosso.Account.{
  Account, AccountStatus, AccountError, active, suspended, deleted, sanitize, fresh_account,
  new_account, soft_delete, suspend, activate,
}
use gosso.Account.Validity.{IsValid, validate-IsValid, accepted}

pub data Call : Type 0 where
  suspends activates deletes : Time → Call

abbrev pub call : Call → Account → Result AccountError Account
call (suspends now) a = suspend now (some a)
call (activates now) a = activate now (some a)
call (deletes now) a = soft_delete now (some a)

-- A call that fails changes nothing.
abbrev after : Account → Result AccountError Account → Account
after a (ok b) = b
after a (err e) = a

pub run : Account → List Call → Account
run a [] = a
run a (c ∷ cs) = run (after a (call c a)) cs

-- What a call asks of the account.
abbrev pub Legal : Call → AccountStatus → Type 0
Legal (suspends now) s = s ≡ active
Legal (activates now) s = s ≡ suspended
Legal (deletes now) s = s ≢ deleted

-- The account runs, pauses or has ended, and its deletion time agrees.
abbrev pub Agrees : AccountStatus → Option Time → Type 0
Agrees s d = ((s ≡ deleted) ↔ (d ≢ none)) × ((s ≡ active) ⊎ ((s ≡ suspended) ⊎ (s ≡ deleted)))

abbrev pub IsSound : Account → Type 0
IsSound a = IsValid a × Agrees a.status a.deleted_at

-- On a sound account a call succeeds exactly when its status allows it: an active account can be
-- suspended, a suspended one activated, and any that is not deleted can be deleted.
pub account_call_iff :
    (c : Call) (a : Account) → IsSound a → (is_ok (call c a) ≡ true) ↔ Legal c a.status
unfolding suspend activate soft_delete
account_call_iff (suspends now) a (v, s) = ground (arith, s.0, s.1)
account_call_iff (activates now) a (v, s) = ground (arith, s.0, s.1)
account_call_iff (deletes now) a (v, s) = ground (arith, s.0, s.1)

call-Agrees :
    (c : Call) (a : Account)
    → Agrees a.status a.deleted_at
    → Agrees (after a (call c a)).status (after a (call c a)).deleted_at
unfolding suspend activate soft_delete
call-Agrees (suspends now) a s = ground (arith, s.0, s.1)
call-Agrees (activates now) a s = ground (arith, s.0, s.1)
call-Agrees (deletes now) a s = ground (arith, s.0, s.1)

-- What no call changes.
record Keeps (a b : Account) : Type 0 where
  same_name : b.display_name ≡ a.display_name
  same_username : b.username ≡ a.username
  same_locale : b.locale ≡ a.locale
  same_timezone : b.timezone ≡ a.timezone

call-Keeps : (c : Call) (a : Account) → Keeps a (after a (call c a))
unfolding suspend activate soft_delete
call-Keeps (suspends now) a = record {
  same_name = ground arith;
  same_username = ground arith;
  same_locale = ground arith;
  same_timezone = ground arith;
}
call-Keeps (activates now) a = record {
  same_name = ground arith;
  same_username = ground arith;
  same_locale = ground arith;
  same_timezone = ground arith;
}
call-Keeps (deletes now) a = record {
  same_name = ground arith;
  same_username = ground arith;
  same_locale = ground arith;
  same_timezone = ground arith;
}

Keeps-IsSound : (a b : Account) → Keeps a b → Agrees b.status b.deleted_at → IsValid a → IsSound b
Keeps-IsSound a b k s v = (
  record {
    named = rw k.same_name v.named;
    name_fits = rw k.same_name v.name_fits;
    username_fits = rw k.same_username v.username_fits;
    known = λ t e. ground (arith, s.1);
    has_locale = rw k.same_locale v.has_locale;
    locale_fits = rw k.same_locale v.locale_fits;
    has_timezone = rw k.same_timezone v.has_timezone;
  },
  s,
)

run-IsSound : (a : Account) (cs : List Call) → IsSound a → IsSound (run a cs)
unfolding run
run-IsSound a [] s = s
run-IsSound a (c ∷ cs) (v, s) =
    run-IsSound (after a (call c a)) cs
      (Keeps-IsSound a (after a (call c a)) (call-Keeps c a) (call-Agrees c a s) v)

pub new_account-IsSound :
    (id : String) (now : Time) (name : String) (a : Account)
    → new_account id now name ≡ ok a
    → IsSound a
unfolding new_account sanitize
new_account-IsSound id now name a h =
    let (valid, same) = accepted (sanitize (fresh_account id now name)) a h in
    subst IsSound same (validate-IsValid _ valid, (ground arith, inl refl))

-- After any calls on an account that was just made, it is valid, and it has a deletion time exactly
-- when it is deleted.
pub new_account-run :
    (id : String) (now : Time) (name : String) (a : Account) (cs : List Call)
    → new_account id now name ≡ ok a
    → IsSound (run a cs)
new_account-run id now name a cs h = run-IsSound a cs (new_account-IsSound id now name a h)

deleted_call : (c : Call) (a : Account) → a.deleted_at ≢ none → after a (call c a) ≡ a
unfolding suspend activate soft_delete
deleted_call (suspends now) a d = ground arith
deleted_call (activates now) a d = ground arith
deleted_call (deletes now) a d = ground arith

-- An account that is deleted stays as it is, whatever is called on it.
pub account_run_deleted : (a : Account) (cs : List Call) → a.deleted_at ≢ none → run a cs ≡ a
unfolding run
account_run_deleted a [] d = refl
account_run_deleted a (c ∷ cs) d = rw (deleted_call c a d) (account_run_deleted a cs d)
