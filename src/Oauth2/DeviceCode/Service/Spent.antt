-- ===== src/Oauth2/DeviceCode/Service/Spent.antt =====
-- A code that is used or gone stays so under every call of device_code_service.go and over time.
use gosso.Prelude.{
  ℕ, ◌≡◌, refl, sym, subst, inl, inr, true, false, Option, none, some, List, [], ◌∷◌, String, arith,
  eq_iff, eq→path, is_empty, err, Bool-cases, ◌==◌,
}
use gosso.Redis.{
  Redis, Key, device_code, device_code_poll, Link, up, lost_request, lost_reply, exec, Codec, Reply,
}
use gosso.Oauth2.Client.{Time}
use gosso.Oauth2.DeviceCode.{DeviceCode, used, client_id_required}
use gosso.Oauth2.DeviceCode.Service.{
  authorize_stored, deny_stored, claim_stored, save_px, save_ex, change_script, found,
  authorize_by_hash, deny_by_hash, claim_by_hash, check_and_update_poll_rate, poll_script, of_unix,
  to_seconds, unix,
}
use gosso.Oauth2.DeviceCode.Service.Scripts.{
  view, Saves, polled, quiet, warned, touched, poll_outcome, save_for-Saves, save_px-Saves,
  save_ex-Saves, changes, ignores, outcome, view-save, view-save_ne,
}

-- What Redis holds of a code: nothing, or a used one, or a text that is no code.
abbrev pub IsSpent : Option DeviceCode → Type 0
IsSpent none = Unit {0}
IsSpent (some dc) = dc.status ≡ used

-- A change that never applies to a used code.
abbrev SparesUsed : (DeviceCode → Option DeviceCode) → Type 0
SparesUsed change = (dc : DeviceCode) → dc.status ≡ used → change dc ≡ none

authorize-SparesUsed : (account : String) (at : Time) → SparesUsed (authorize_stored account at)
unfolding authorize_stored
authorize-SparesUsed account at dc h = ground arith

deny-SparesUsed : SparesUsed deny_stored
unfolding deny_stored
deny-SparesUsed dc h = ground arith

pub claim-SparesUsed : (client : String) → SparesUsed (claim_stored client)
unfolding claim_stored
claim-SparesUsed client dc h = ground arith

-- The calls of the service on stored codes, and time.
pub data Op : Type 0 where
  authorizes : Link → Time → String → String → Op
  denies : Link → String → Op
  claims : Link → String → String → Op
  polls : Link → Time → ℕ → String → Op
  waits : ℕ → Op

module _ (r : Redis) (json : Codec (r.Text) DeviceCode) (epoch : Codec (r.Text) ℕ) where
  open r use {Db, Text, get, pttl, elapse, get-elapse}

  abbrev pub step : Db → Op → Db
  step d (authorizes link now hash account) = (authorize_by_hash r json link now hash account d).1
  step d (denies link hash) = (deny_by_hash r json link hash d).1
  step d (claims link hash client) = (claim_by_hash r json link hash client d).1
  step d (polls link now interval hash) =
      (check_and_update_poll_rate r json epoch link now interval hash d).1
  step d (waits ms) = elapse d ms

  pub run : Db → List Op → Db
  run d [] = d
  run d (o ∷ os) = run (step d o) os

  abbrev pub Spent : String → Db → Type 0
  Spent hash d = IsSpent (view r json d hash)

  -- Storing a code under another hash, or a used one under this.
  save-Spent :
      {save : Db → Key → Text → Db}
      → Saves r json save
      → (d : Db) (hash other : String) (e : DeviceCode) → (hash ≡ other → e.status ≡ used)
      → Spent other d
      → Spent other (save d (device_code hash) (json.encode e))
  save-Spent {save} s d hash other e u spent = elim (Bool-cases (hash == other)) [
    | inl same ↦
        let p = eq→path hash other same in
        subst (λ h. Spent h (save d (device_code hash) (json.encode e))) p
          (rw (view-save r json s d hash e) (u p))
    | inr differ ↦
        rw
          (view-save_ne r json s d hash other (json.encode e)
            (λ p. ground (arith, eq_iff hash other)))
          spent
  ]

  script-Spent :
      (change : DeviceCode → Option DeviceCode) (save : Db → Key → Text → Db) (hash other : String)
      (d : Db)
      → Saves r json save
      → SparesUsed change
      → Spent other d
      → Spent other (change_script r json change save hash d).1
  script-Spent change save hash other d s spares spent = elim (outcome r json change save hash d) [
    | changes dc e v c eq ↦ rw eq (
        save-Spent s d hash other e
          (λ p.
            let here : Spent hash d = subst (λ h. Spent h d) (sym p) spent in
            absurd (ground (arith, spares dc (rw v at here), c)))
          spent)
    | ignores n same missing ↦ rw same spent
  ]

  exec-Spent :
      {A : Type 0} (link : Link) (script : Db → Reply A × Db) (other : String) (d : Db)
      → Spent other d
      → Spent other (script d).1
      → Spent other (exec link script d).1
  exec-Spent up script other d before after = after
  exec-Spent lost_request script other d before after = before
  exec-Spent lost_reply script other d before after = after

  -- The poll key is not a code's.
  polled-Spent :
      (now : ℕ) (hash other : String) (d : Db)
      → Spent other d
      → Spent other (polled r json epoch d now hash)
  polled-Spent now hash other d spent =
      rw
        ((save_for-Saves r json (pttl d (device_code hash))).elsewhere d (device_code_poll hash)
          (device_code other) (epoch.encode now) (λ e. cc))
        spent

  poll-Spent :
      (now interval : ℕ) (hash other : String) (d : Db)
      → Spent other d
      → Spent other (poll_script r json epoch now interval hash d).1
  poll-Spent now interval hash other d spent =
      elim (poll_outcome r json epoch now interval hash d) [
        | quiet eq ↦ rw eq spent
        | warned eq ↦ rw eq (polled-Spent now hash other d spent)
        | touched dc v eq ↦ rw eq (
            save-Spent (save_for-Saves r json (pttl d (device_code hash)))
              (polled r json epoch d now hash) hash other (record dc { last_poll_at = of_unix now })
              (λ p. let here : Spent hash d = subst (λ h. Spent h d) (sym p) spent in rw v at here)
              (polled-Spent now hash other d spent))
      ]

  elapse-Spent : (other : String) (d : Db) (ms : ℕ) → Spent other d → Spent other (elapse d ms)
  elapse-Spent other d ms spent = elim (get-elapse d (device_code other) ms) [
    | inl same ↦ rw same spent
    | inr lost ↦ rw lost tt
  ]

  abbrev pub claim_script : String → String → Db → Reply DeviceCode × Db
  claim_script hash client = change_script r json (claim_stored client) (save_ex r json) hash

  pub claim_empty :
      (link : Link) (hash client : String) (d : Db)
      → is_empty client ≡ true
      → claim_by_hash r json link hash client d ≡ (err client_id_required, d)
  unfolding claim_by_hash
  claim_empty link hash client d e = rw (e, claim_by_hash) refl

  pub claim_given :
      (link : Link) (hash client : String) (d : Db)
      → is_empty client ≡ false
      → claim_by_hash r json link hash client d ≡ (
        found (exec link (claim_script hash client) d).0,
        (exec link (claim_script hash client) d).1,
      )
  unfolding claim_by_hash
  claim_given link hash client d e = rw (e, claim_by_hash) refl

  claim-Spent :
      (link : Link) (hash client other : String) (d : Db)
      → Spent other d
      → Spent other (claim_by_hash r json link hash client d).1
  claim-Spent link hash client other d spent = elim (Bool-cases (is_empty client)) [
    | inl empty ↦ rw (claim_empty link hash client d empty) spent
    | inr given ↦ rw (claim_given link hash client d given) (
        exec-Spent link _ other d spent (
          script-Spent (claim_stored client) (save_ex r json) hash other d (save_ex-Saves r json)
            (claim-SparesUsed client) spent))
  ]

  step-Spent : (other : String) (o : Op) (d : Db) → Spent other d → Spent other (step d o)
  unfolding authorize_by_hash deny_by_hash check_and_update_poll_rate
  step-Spent other (authorizes link now hash account) d spent = exec-Spent link _ other d spent (
      script-Spent (authorize_stored account (to_seconds now)) (save_px r json) hash other d
        (save_px-Saves r json) (authorize-SparesUsed account (to_seconds now)) spent)
  step-Spent other (denies link hash) d spent = exec-Spent link _ other d spent (
      script-Spent deny_stored (save_px r json) hash other d (save_px-Saves r json) deny-SparesUsed
        spent)
  step-Spent other (claims link hash client) d spent = claim-Spent link hash client other d spent
  step-Spent other (polls link now interval hash) d spent =
      exec-Spent link _ other d spent (poll-Spent (unix now) interval hash other d spent)
  step-Spent other (waits ms) d spent = elapse-Spent other d ms spent

  pub run-Spent : (other : String) (os : List Op) (d : Db) → Spent other d → Spent other (run d os)
  unfolding run
  run-Spent other [] d spent = spent
  run-Spent other (o ∷ os) d spent = run-Spent other os (step d o) (step-Spent other o d spent)
