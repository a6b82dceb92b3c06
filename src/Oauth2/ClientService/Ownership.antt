-- ===== src/Oauth2/ClientService/Ownership.antt =====
-- client_service.go, UpdateClientByAccountID: who may change a client, and what of it.
use gosso.Prelude.{
  ◌≡◌, refl, subst, ◌⊎◌, inl, inr, Bool, true, false, Option, some, [], ◌∷◌, ◌||◌, String, arith,
  eq_iff, Bool-cases, Option-cases, Result-cases, Result, ok, err,
}
use gosso.Oauth2.Client.{Oauth2Client, Time, Url}
use gosso.Oauth2.ClientTable.{Rows, find_by_client_id, selected, update}
use gosso.Oauth2.ClientService.{UpdateClientRequest, ServiceError, has_admin_scope}
use gosso.Oauth2.ClientService.Update.{
  apply_request, prepare, check_request, update_client_by_account_id,
}
use gosso.Oauth2.ClientService.Capability.{IsSynced}

-- What a change keeps of a client, and that it takes on no administrator's scope unless allowed.
pub record Keeps (allowed : Bool) (old new : Oauth2Client) : Type 0 where
  pub same_id : new.id ≡ old.id
  pub same_account : new.account_id ≡ old.account_id
  pub same_client : new.client_id ≡ old.client_id
  pub same_secret : new.client_secret_hash ≡ old.client_secret_hash
  pub synced : IsSynced old → IsSynced new
  pub no_more :
      allowed ≡ false → has_admin_scope new.scopes ≡ true → has_admin_scope old.scopes ≡ true

-- A row with the identifier, which is live and was last changed at the time.
pub holds_version : String → Time → Rows → Bool
holds_version id expected [] = false
holds_version id expected (row ∷ rest) = selected id expected row || holds_version id expected rest

-- What a successful change has checked and done: the account's own client, as it was read, is
-- changed, and it is the version that was read.
pub record Updated (q : UpdateClientRequest) (account_id client_id : String) (rows others : Rows)
    (out : Oauth2Client) : Type 0 where
  pub current : Oauth2Client
  pub found : find_by_client_id client_id rows ≡ some current
  pub own : current.account_id ≡ account_id
  pub keeps : Keeps q.allow_reserved_scopes current out
  pub unchanged : holds_version current.id current.updated_at others ≡ true

prepared :
    (account_id : String) (q : UpdateClientRequest) (current c : Oauth2Client) (expected : Time)
    → prepare account_id q (some current) ≡ ok (c, expected)
    → (current.account_id ≡ account_id)
      × (apply_request q current ≡ ok c)
      × (expected ≡ current.updated_at)
unfolding prepare
prepared account_id q current c expected h =
    (ground (arith, eq_iff current.account_id account_id), ground arith, ground arith)

module _ (parse_url : String → Option Url) (commits : Bool) (others : Rows → Rows) (now : Time)
    (account_id client_id : String) (q : UpdateClientRequest) (rows : Rows) where
  abbrev outcome : Result ServiceError Oauth2Client × Rows
  outcome = update_client_by_account_id parse_url commits others now account_id client_id q rows

  -- A change that was written: what was read, what it was changed to, and what is stored.
  record Written (out : Result ServiceError Oauth2Client × Rows) : Type 0 where
    current : Oauth2Client
    changed : Oauth2Client
    read : find_by_client_id client_id rows ≡ some current
    own : current.account_id ≡ account_id
    applied : apply_request q current ≡ ok changed
    stored : update now changed current.updated_at (others rows) ≡ ok out.1
    result : out.0 ≡ ok (record changed { updated_at = now })

  -- A call that fails leaves the rows as the others do.
  data Outcome (out : Result ServiceError Oauth2Client × Rows) : Type 0 where
    writes : Written out → Outcome out
    fails :
        (e : ServiceError) → out.0 ≡ err e → (out.1 ≡ rows) ⊎ (out.1 ≡ others rows) → Outcome out

  outcomes : Outcome outcome
  unfolding update_client_by_account_id prepare
  outcomes = elim (Result-cases (check_request parse_url q)) [
    | inl (e, bad) ↦ rw (bad, update_client_by_account_id) (fails e refl (inl refl))
    | inr (u, good) ↦ elim (Option-cases (find_by_client_id client_id rows)) [
      | inl missing ↦ rw (good, update_client_by_account_id, missing) (fails _ refl (inr refl))
      | inr (current, read) ↦ elim (Result-cases (prepare account_id q (some current))) [
        | inl (e, bad) ↦ rw (good, update_client_by_account_id, read, bad) (fails e refl (inr refl))
        | inr ((c, expected), ready) ↦
            let (own, applied, version) = prepared account_id q current c expected ready in
            elim (Result-cases (update now c expected (others rows))) [
              | inl (e, bad) ↦
                  rw (good, update_client_by_account_id, read, ready, bad) (fails _ refl (inr refl))
              | inr (rows', stored) ↦ elim (Bool-cases commits) [
                | inl done ↦
                    rw (good, update_client_by_account_id, read, ready, stored, done)
                      (writes (record {
                        current = current;
                        changed = c;
                        read = read;
                        own = own;
                        applied = applied;
                        stored =
                            subst (λ t. update now c t (others rows) ≡ ok rows') version stored;
                        result = refl;
                      }))
                | inr aborted ↦
                    rw (good, update_client_by_account_id, read, ready, stored, aborted)
                      (fails _ refl (inr refl))
              ]
            ]
      ]
    ]
  ]

  -- A change that fails leaves the rows as they were, or as others left them meanwhile.
  pub update_client-unchanged :
      (e : ServiceError) → outcome.0 ≡ err e → (outcome.1 ≡ rows) ⊎ (outcome.1 ≡ others rows)
  update_client-unchanged e h = elim outcomes [
    | fails e' bad same ↦ same
    | writes w ↦ absurd (ground (arith, w.result, h))
  ]
