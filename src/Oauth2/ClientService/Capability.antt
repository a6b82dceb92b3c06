-- ===== src/Oauth2/ClientService/Capability.antt =====
-- The administrator's capability of clients, over the calls of client_service.go.
use gosso.Prelude.{
  ◌≡◌, refl, ap, subst, ◌∙◌, inl, inr, Bool, false, ◌&&◌, Option, none, some, List, [], ◌∷◌, String,
  arith, All, Bool-cases, Option-cases, ◌==◌, lookup-insert, lookup-delete, Result-cases, ok,
}
use gosso.Oauth2.Client.{
  Oauth2Client, Time, Metadata, str, Url, is_admin_value, has_capability,
  client_capability_metadata_key, client_capability_admin,
}
use gosso.Oauth2.ClientTable.{
  Rows, is_live, find_by_client_id, create, written, selected, update_rows, update,
}
use gosso.Oauth2.ClientService.{
  RegisterClientRequest, has_admin_scope, entries, sync_admin_capability,
  validate_user_managed_scopes, check_reserved, nil_if_empty, or_default, make_client,
  register_client, validate_redirect_uris, secret_hash_of,
}

-- The capability stands in the metadata exactly when a scope is an administrator's.
abbrev pub IsSynced : Oauth2Client → Type 0
IsSynced c = has_capability c.metadata ≡ has_admin_scope c.scopes

pub sync_lem :
    (metadata : Metadata) (scopes : List String)
    → has_capability (some (sync_admin_capability metadata scopes)) ≡ has_admin_scope scopes
unfolding has_capability is_admin_value sync_admin_capability
sync_lem metadata scopes = elim (Bool-cases (has_admin_scope scopes)) [
  | inl admin ↦ rw admin (
      rw
        (lookup-insert client_capability_metadata_key client_capability_metadata_key
          (str client_capability_admin) (entries metadata))
        refl)
  | inr plain ↦ rw plain (
      rw
        (lookup-delete client_capability_metadata_key client_capability_metadata_key
          (entries metadata))
        refl)
]

pub managed-plain :
    (scopes : List String)
    → validate_user_managed_scopes scopes ≡ ok tt
    → has_admin_scope scopes ≡ false
unfolding validate_user_managed_scopes has_admin_scope
managed-plain [] h = refl
managed-plain (s ∷ rest) h = ground (arith, managed-plain rest)

pub reserved-plain :
    (scopes : List String) → check_reserved false scopes ≡ ok tt → has_admin_scope scopes ≡ false
reserved-plain scopes h = managed-plain scopes h

-- The scopes that a request comes to.
abbrev pub scopes_of : RegisterClientRequest → List String
scopes_of q = or_default q.scopes ("openid" ∷ [])

-- A client as it is registered.
pub record IsMade (parse_url : String → Option Url) (secret : Option (String × String))
    (q : RegisterClientRequest) (c : Oauth2Client) (plain : String) : Type 0 where
  pub redirects : c.redirect_uris ≡ q.redirect_uris
  pub checked : validate_redirect_uris parse_url q.redirect_uris ≡ ok tt
  scopes : c.scopes ≡ scopes_of q
  metadata : c.metadata ≡ nil_if_empty (sync_admin_capability q.metadata (scopes_of q))
  reserved : check_reserved q.allow_reserved_scopes (scopes_of q) ≡ ok tt
  pub confidential : c.is_confidential ≡ q.is_confidential
  pub hashed : secret_hash_of q.is_confidential secret ≡ ok (plain, c.client_secret_hash)

module _ (parse_url : String → Option Url) where
  make_client-IsMade :
      (now : Time) (random_id : Option String) (secret : Option (String × String))
      (q : RegisterClientRequest) (c : Oauth2Client) (plain : String)
      → make_client parse_url now random_id secret q ≡ ok (c, plain)
      → IsMade parse_url secret q c plain
  unfolding make_client
  make_client-IsMade now random_id secret q c plain h = record {
    redirects = ground arith;
    checked = ground arith;
    scopes = ground arith;
    metadata = ground arith;
    reserved = ground arith;
    confidential = ground arith;
    hashed = ground arith;
  }

  create_row :
      (id : String) (now : Time) (c row : Oauth2Client) (rows rows' : Rows)
      → create id now c rows ≡ ok (row, rows')
      → (row ≡ record c { id = id; created_at = now; updated_at = now; deleted_at = none })
        × (rows' ≡ row ∷ rows)
  unfolding create
  create_row id now c row rows rows' h = (ground arith, ground arith)

  -- What a registration has done when it gives out a client.
  pub record IsRegistered (secret : Option (String × String)) (q : RegisterClientRequest)
      (rows : Rows) (c : Oauth2Client) (plain : String) (rows' : Rows) : Type 0 where
    pub made : Oauth2Client
    pub from_request : IsMade parse_url secret q made plain
    pub same_redirects : c.redirect_uris ≡ made.redirect_uris
    same_scopes : c.scopes ≡ made.scopes
    same_metadata : c.metadata ≡ made.metadata
    pub same_kind : c.is_confidential ≡ made.is_confidential
    pub same_hash : c.client_secret_hash ≡ made.client_secret_hash
    stored : rows' ≡ c ∷ rows

  pub register_client-IsRegistered :
      (commits : Bool) (now : Time) (row_id : String) (random_id : Option String)
      (secret : Option (String × String)) (q : RegisterClientRequest) (rows : Rows)
      (c : Oauth2Client) (plain : String)
      → (register_client parse_url commits now row_id random_id secret q rows).0 ≡ ok (c, plain)
      → IsRegistered secret q rows c plain
          (register_client parse_url commits now row_id random_id secret q rows).1
  unfolding register_client
  register_client-IsRegistered commits now row_id random_id secret q rows c plain h =
      elim (Result-cases (make_client parse_url now random_id secret q)) [
        | inl (e, bad) ↦ absurd (ground (arith, rw (bad, register_client) at h))
        | inr ((m, p), good) ↦ elim (Bool-cases commits) [
          | inl done ↦ elim (Result-cases (create row_id now m rows)) [
            | inl (e, bad) ↦ absurd (ground (arith, rw (good, register_client, done, bad) at h))
            | inr ((row, rows'), stored) ↦
                let (same, put) = create_row row_id now m row rows rows' stored in
                let out : row ≡ c = ground (arith, rw (good, register_client, done, stored) at h) in
                rw (good, register_client, done, stored)
                  (record {
                    made = m;
                    from_request =
                        subst (IsMade parse_url secret q m)
                          (ground (arith, rw (good, register_client, done, stored) at h))
                          (make_client-IsMade now random_id secret q m p good);
                    same_redirects = ground (arith, same, out);
                    same_scopes = ground (arith, same, out);
                    same_metadata = ground (arith, same, out);
                    same_kind = ground (arith, same, out);
                    same_hash = ground (arith, same, out);
                    stored = put ∙ ap (λ x. x ∷ rows) out;
                  })
          ]
          | inr aborted ↦ absurd (ground (arith, rw (good, register_client, aborted) at h))
        ]
      ]

abbrev pub AllSynced : Rows → Type 0
AllSynced rows = All IsSynced rows

pub find-IsSynced :
    (client_id : String) (rows : Rows) (c : Oauth2Client)
    → AllSynced rows
    → find_by_client_id client_id rows ≡ some c
    → IsSynced c
unfolding find_by_client_id
find-IsSynced client_id [] c a h = absurd (ground arith)
find-IsSynced client_id (row ∷ rest) c (a, later) h =
    elim (Bool-cases (is_live row && row.client_id == client_id)) [
      | inl here ↦ let same : row ≡ c = ground (arith, rw here at h) in subst IsSynced same a
      | inr there ↦ find-IsSynced client_id rest c later (rw there at h)
    ]

update_rows-AllSynced :
    (now : Time) (c : Oauth2Client) (expected : Time) (rows rows' : Rows)
    → IsSynced c
    → AllSynced rows
    → update_rows now c expected rows ≡ some rows'
    → AllSynced rows'
unfolding update_rows
update_rows-AllSynced now c expected [] rows' s a h = absurd (ground arith)
update_rows-AllSynced now c expected (row ∷ rest) rows' s (a, later) h =
    elim (Bool-cases (selected c.id expected row)) [
      | inl here ↦
          let same : (written now c row ∷ rest) ≡ rows' = ground (arith, rw here at h) in
          subst AllSynced same (s, later)
      | inr there ↦ elim (Option-cases (update_rows now c expected rest)) [
        | inl nothing ↦ absurd (ground (arith, rw (there, nothing) at h))
        | inr (more, found) ↦
            let same : (row ∷ more) ≡ rows' = ground (arith, rw (there, found) at h) in
            subst AllSynced same (a, update_rows-AllSynced now c expected rest more s later found)
      ]
    ]

pub update-AllSynced :
    (now : Time) (c : Oauth2Client) (expected : Time) (rows rows' : Rows)
    → IsSynced c
    → AllSynced rows
    → update now c expected rows ≡ ok rows'
    → AllSynced rows'
unfolding update
update-AllSynced now c expected rows rows' s a h =
    elim (Option-cases (update_rows now c expected rows)) [
      | inl nothing ↦ absurd (ground (arith, rw (nothing, update) at h))
      | inr (more, found) ↦
          let same : more ≡ rows' = ground (arith, rw (found, update) at h) in
          subst AllSynced same (update_rows-AllSynced now c expected rows more s a found)
    ]
