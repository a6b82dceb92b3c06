-- ===== src/Oauth2/DeviceCode/Lifecycle.antt =====
-- The lifecycle of a device code as a relation, and the methods against it.
use mathlib.Core.Path.{subst₂}
use gosso.Prelude.{
  sym, ◌≡◌, ◌≢◌, refl, ◌↔◌, ◌⊎◌, some, List, [], ◌∷◌, String, arith, eq_iff, Result, ok, err, is_ok,
  true,
}
use gosso.Oauth2.Client.{Time}
use gosso.Oauth2.DeviceCode.{
  DeviceCode, DeviceCodeStatus, pending, authorized, denied, used, DeviceError, authorize, deny,
  mark_used,
}

infix 40 ◌⟶◌
pub data ◌⟶◌ : DeviceCodeStatus → DeviceCodeStatus → Type 0 where
  approve : pending ⟶ authorized
  refuse : pending ⟶ denied
  redeem : authorized ⟶ used

-- One call of a method on a code.
pub data Call : Type 0 where
  authorizes : Time → String → Call
  denies marks_used : Call

abbrev pub call : Call → DeviceCode → Result DeviceError DeviceCode
call (authorizes now account) d = authorize now account (some d)
call denies d = deny (some d)
call marks_used d = mark_used (some d)

-- A call that fails changes nothing.
abbrev pub after : DeviceCode → Result DeviceError DeviceCode → DeviceCode
after d (ok e) = e
after d (err x) = d

pub run : DeviceCode → List Call → DeviceCode
run d [] = d
run d (c ∷ cs) = run (after d (call c d)) cs

-- What a call asks of the code.
abbrev pub Legal : Call → DeviceCodeStatus → Type 0
Legal (authorizes now account) s = (s ≡ pending) × (account ≢ "")
Legal denies s = s ≡ pending
Legal marks_used s = s ≡ authorized

-- A call succeeds exactly when the status allows it, and an approval names an account.
pub call_iff : (c : Call) (d : DeviceCode) → (is_ok (call c d) ≡ true) ↔ Legal c d.status
unfolding authorize deny mark_used
call_iff (authorizes now account) d = (
  λ h. (ground (arith, eq_iff account ""), λ e. ground (arith, eq_iff account "")),
  λ l. ground (arith, eq_iff account "", l.0, l.1),
)
call_iff denies d = (λ h. ground arith, λ l. ground arith)
call_iff marks_used d = (λ h. ground arith, λ l. ground arith)

step_of : (s t u v : DeviceCodeStatus) → s ⟶ t → u ≡ s → v ≡ t → u ⟶ v
step_of s t u v st e f = subst₂ (λ x y. x ⟶ y) (sym e) (sym f) st

-- A call that succeeds takes the code one step along the lifecycle: from pending to authorized or
-- denied, or from authorized to used.
pub call-⟶ : (c : Call) (d e : DeviceCode) → call c d ≡ ok e → d.status ⟶ e.status
unfolding authorize deny mark_used
call-⟶ (authorizes now account) d e h =
    step_of pending authorized d.status e.status approve (ground arith) (ground arith)
call-⟶ denies d e h = step_of pending denied d.status e.status refuse (ground arith) (ground arith)
call-⟶ marks_used d e h =
    step_of authorized used d.status e.status redeem (ground arith) (ground arith)

abbrev pub IsFinal : DeviceCodeStatus → Type 0
IsFinal s = (s ≡ denied) ⊎ (s ≡ used)

final_step : (c : Call) (d : DeviceCode) → IsFinal d.status → after d (call c d) ≡ d
unfolding authorize deny mark_used
final_step (authorizes now account) d f = ground arith
final_step denies d f = ground arith
final_step marks_used d f = ground arith

-- A denied or used code stays as it is, whatever is called on it.
pub run_final : (d : DeviceCode) (cs : List Call) → IsFinal d.status → run d cs ≡ d
unfolding run
run_final d [] f = refl
run_final d (c ∷ cs) f = rw (final_step c d f) (run_final d cs f)

-- Whoever may use the code is known: an authorized or used code names an account.
abbrev pub NamesAccount : DeviceCode → Type 0
NamesAccount d = (d.status ≡ authorized) ⊎ (d.status ≡ used) → d.account_id ≢ ""
