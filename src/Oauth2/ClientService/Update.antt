-- ===== src/Oauth2/ClientService/Update.antt =====
-- internal/oauth2/service/client_service.go: the calls that change and delete a client.
use gosso.Prelude.{
  Bool, false, not, Option, none, some, List, [], ◌∷◌, String, if◌then◌else◌, ◌==◌, Result, ok, err,
  ◌>>=◌, ◌>>◌, reject,
}
use gosso.Oauth2.Client.{Oauth2Client, Time, Url}
use gosso.Oauth2.ClientTable.{Rows, find_by_client_id, client_not_found, update, soft_delete}
use gosso.Oauth2.ClientService.{
  UpdateClientRequest, ServiceError, Check, validation_error, client_access_denied, table_error,
  database_failed, validate_client_name, validate_client_description, validate_grant_types,
  validate_redirect_uris, validate_scopes, check_reserved, sync_admin_capability, optional,
}

abbrev not_empty : List String → Check
not_empty [] = err validation_error
not_empty (uri ∷ uris) = ok tt

abbrev pub or_kept : {A : Type 0} → Option A → A → A
or_kept none old = old
or_kept (some a) old = a

unfoldable pub change_scopes : UpdateClientRequest → Oauth2Client → Result ServiceError Oauth2Client
change_scopes q c = elim q.scopes [
  | none ↦ ok c
  | some scopes ↦ do
    validate_scopes scopes
    check_reserved q.allow_reserved_scopes scopes
    ok (record c { scopes = scopes; metadata = some (sync_admin_capability c.metadata scopes) })
]

unfoldable pub apply_request : UpdateClientRequest → Oauth2Client → Result ServiceError Oauth2Client
apply_request q c = change_scopes q (record c {
  name = or_kept q.name c.name;
  description = or_kept q.description c.description;
  redirect_uris = or_kept q.redirect_uris c.redirect_uris;
  post_logout_redirect_uris = or_kept q.post_logout_redirect_uris c.post_logout_redirect_uris;
  grant_types = or_kept q.grant_types c.grant_types;
})

-- The client as the transaction read it, with the request applied.
unfoldable pub prepare :
    String → UpdateClientRequest → Option Oauth2Client → Result ServiceError (Oauth2Client × Time)
prepare account_id q none = err (table_error client_not_found)
prepare account_id q (some c) = do
  reject (not (c.account_id == account_id)) client_access_denied
  changed ← apply_request q c
  ok (changed, c.updated_at)

module _ (parse_url : String → Option Url) where
  unfoldable pub check_request : UpdateClientRequest → Check
  check_request q = do
    optional (λ name. validate_client_name name false) q.name
    optional validate_client_description q.description
    optional (λ uris. not_empty uris >> validate_redirect_uris parse_url uris) q.redirect_uris
    optional (validate_redirect_uris parse_url) q.post_logout_redirect_uris
    optional validate_grant_types q.grant_types

  -- `others` is what other transactions commit between the read and the write.
  unfoldable pub update_client_by_account_id :
      Bool
      → (Rows → Rows)
      → Time
      → String
      → String
      → UpdateClientRequest
      → Rows
      → Result ServiceError Oauth2Client × Rows
  update_client_by_account_id commits others now account_id client_id q rows =
      elim (check_request q) [
        | err e ↦ (err e, rows)
        | ok u ↦ elim (prepare account_id q (find_by_client_id client_id rows)) [
          | err e ↦ (err e, others rows)
          | ok (c, expected) ↦ elim (update now c expected (others rows)) [
            | err e ↦ (err (table_error e), others rows)
            | ok rows' ↦
                if not commits
                then (err database_failed, others rows)
                else (ok (record c { updated_at = now }), rows')
          ]
        ]
      ]

abbrev owned : String → Option Oauth2Client → Result ServiceError Oauth2Client
owned account_id none = err (table_error client_not_found)
owned account_id (some c) =
    if not (c.account_id == account_id) then err client_access_denied else ok c

unfoldable pub delete_client :
    Bool → (Rows → Rows) → Time → String → String → Rows → Result ServiceError (Unit {0}) × Rows
delete_client commits others now account_id client_id rows =
    elim (owned account_id (find_by_client_id client_id rows)) [
      | err e ↦ (err e, others rows)
      | ok c ↦ elim (soft_delete c.id now (others rows)) [
        | err e ↦ (err (table_error e), others rows)
        | ok rows' ↦ if not commits then (err database_failed, others rows) else (ok tt, rows')
      ]
    ]

-- UpdateClient, which other services call with a client that they read.
unfoldable pub update_client :
    Bool → (Rows → Rows) → Time → Oauth2Client → Rows → Result ServiceError (Unit {0}) × Rows
update_client commits others now c rows = elim (find_by_client_id c.client_id rows) [
  | none ↦ (err (table_error client_not_found), others rows)
  | some current ↦ elim (update now c current.updated_at (others rows)) [
    | err e ↦ (err (table_error e), others rows)
    | ok rows' ↦ if not commits then (err database_failed, others rows) else (ok tt, rows')
  ]
]
