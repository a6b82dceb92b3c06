-- ===== src/Oauth2/DeviceCode/Service/Claim.antt =====
-- Over any history of calls on the stored codes a code is claimed at most once, and only by its own
-- client after it was authorized. Making a new code under the same hash is not among the calls.
use gosso.Prelude.{
  ℕ, ◌≡◌, refl, sym, ap, ◌∙◌, inl, inr, false, some, List, String, arith, eq_iff, is_empty, is_ok,
  ok, Bool-cases,
}
use gosso.Redis.{Redis, Link, up, lost_request, lost_reply, exec, Codec}
use gosso.Oauth2.DeviceCode.{DeviceCode, authorized, used}
use gosso.Oauth2.DeviceCode.Service.{claim_stored, save_ex, found, claim_by_hash}
use gosso.Oauth2.DeviceCode.Service.Scripts.{
  view, save_ex-Saves, changes, ignores, outcome, view-save,
}
use gosso.Oauth2.DeviceCode.Service.Spent.{
  IsSpent, Op, Spent, run, run-Spent, claim_script, claim_empty, claim_given, claim-SparesUsed,
}

module _ (r : Redis) (json : Codec (r.Text) DeviceCode) (epoch : Codec (r.Text) ℕ) where
  open r use {Db}

  -- What a claim found and left: an authorized code of the client, now used.
  pub record Claimed (hash client : String) (d d' : Db) (e : DeviceCode) : Type 0 where
    pub code : DeviceCode
    pub stored : view r json d hash ≡ some code
    pub was_authorized : code.status ≡ authorized
    pub own : code.client_id ≡ client
    pub result : e ≡ record code { status = used }
    pub kept : view r json d' hash ≡ some e

  claim_stored-own :
      (client : String) (dc e : DeviceCode)
      → is_empty client ≡ false
      → claim_stored client dc ≡ some e
      → (dc.status ≡ authorized) × (dc.client_id ≡ client) × (e ≡ record dc { status = used })
  unfolding claim_stored
  claim_stored-own client dc e n h = (
    ground arith,
    ground (arith, eq_iff dc.client_id client),
    ground (arith, eq_iff dc.client_id client),
  )

  -- A claim succeeds only on a code that Redis holds as authorized, for the client that it was made
  -- for; the code comes back as used, and stands so in Redis.
  pub claim_by_hash-Claimed :
      (link : Link) (hash client : String) (d : Db) (e : DeviceCode)
      → (claim_by_hash r json link hash client d).0 ≡ ok e
      → Claimed hash client d (claim_by_hash r json link hash client d).1 e
  claim_by_hash-Claimed up hash client d e h = elim (Bool-cases (is_empty client)) [
    | inl empty ↦ absurd (ground (arith, claim_empty r json epoch up hash client d empty))
    | inr given ↦
        let run_once = claim_given r json epoch up hash client d given in
        elim (outcome r json (claim_stored client) (save_ex r json) hash d) [
          | changes dc e' v c eq ↦
              let same : e' ≡ e = ground (arith, run_once, eq) in
              let (was, own, result) = claim_stored-own client dc e' given c in
              record {
                code = dc;
                stored = v;
                was_authorized = was;
                own = own;
                result = sym same ∙ result;
                kept =
                    rw (run_once, eq)
                      (view-save r json (save_ex-Saves r json) d hash e' ∙ ap some same);
              }
          | ignores n same missing ↦ absurd (ground (arith, run_once, n))
        ]
  ]
  claim_by_hash-Claimed lost_request hash client d e h = elim (Bool-cases (is_empty client)) [
    | inl empty ↦ absurd (ground (arith, claim_empty r json epoch lost_request hash client d empty))
    | inr given ↦ absurd (ground (arith, claim_given r json epoch lost_request hash client d given))
  ]
  claim_by_hash-Claimed lost_reply hash client d e h = elim (Bool-cases (is_empty client)) [
    | inl empty ↦ absurd (ground (arith, claim_empty r json epoch lost_reply hash client d empty))
    | inr given ↦ absurd (ground (arith, claim_given r json epoch lost_reply hash client d given))
  ]

  Spent-reply :
      (link : Link) (hash client : String) (d : Db)
      → Spent r json epoch hash d
      → is_ok (found (exec link (claim_script r json epoch hash client) d).0) ≡ false
  Spent-reply up hash client d spent =
      elim (outcome r json (claim_stored client) (save_ex r json) hash d) [
        | changes dc e v c eq ↦
            let here : IsSpent (some dc) = rw v at spent in
            absurd (ground (arith, claim-SparesUsed client dc here, c))
        | ignores n same missing ↦ rw n refl
      ]
  Spent-reply lost_request hash client d spent = refl
  Spent-reply lost_reply hash client d spent = refl

  claim-Refused :
      (link : Link) (hash client : String) (d : Db)
      → Spent r json epoch hash d
      → is_ok (claim_by_hash r json link hash client d).0 ≡ false
  claim-Refused link hash client d spent = elim (Bool-cases (is_empty client)) [
    | inl empty ↦ rw (claim_empty r json epoch link hash client d empty) refl
    | inr given ↦
        rw (claim_given r json epoch link hash client d given)
          (Spent-reply link hash client d spent)
  ]

  -- After a claim that succeeded no other does, whatever is called on the stored codes in between,
  -- whoever claims, and whatever the network does.
  pub claim_once :
      (link again : Link) (hash client client' : String) (d : Db) (e : DeviceCode) (os : List Op)
      → (claim_by_hash r json link hash client d).0 ≡ ok e
      → is_ok
          (claim_by_hash r json again hash client'
            (run r json epoch (claim_by_hash r json link hash client d).1 os)).0
        ≡ false
  claim_once link again hash client client' d e os h =
      let c = claim_by_hash-Claimed link hash client d e h in
      let used_up : Spent r json epoch hash (claim_by_hash r json link hash client d).1 =
        rw c.kept (ground (arith, c.result)) in
      claim-Refused again hash client' _ (run-Spent r json epoch hash os _ used_up)
