-- ===== src/Oauth2/ClientTable.antt =====
-- internal/oauth2/repository/client_repository_impl.go: the table oauth2_clients, as its rows. The
-- column client_id is unique among the rows that are not deleted.
use gosso.Prelude.{
  Bool, true, false, ◌&&◌, Option, none, some, List, [], ◌∷◌, String, nat_eq, if◌then◌else◌, ◌==◌,
  Result, ok, err,
}
use gosso.Oauth2.Client.{Oauth2Client, Time}

abbrev pub Rows : Type 0
Rows = List Oauth2Client

pub data TableError : Type 0 where
  client_not_found concurrent_modification already_exists : TableError

abbrev pub is_live : Oauth2Client → Bool
is_live c = elim c.deleted_at [ none ↦ true | some at ↦ false ]

unfoldable pub find_by_client_id : String → Rows → Option Oauth2Client
find_by_client_id client_id [] = none
find_by_client_id client_id (c ∷ rest) =
    let later = find_by_client_id client_id rest in
    if is_live c && c.client_id == client_id then some c else later

-- The database gives the row its identifier and its times.
unfoldable pub create :
    String → Time → Oauth2Client → Rows → Result TableError (Oauth2Client × Rows)
unfolding find_by_client_id
create id now c rows = elim (find_by_client_id c.client_id rows) [
  | some other ↦ err already_exists
  | none ↦
      let row : Oauth2Client = record c {
        id = id;
        created_at = now;
        updated_at = now;
        deleted_at = none;
      } in
      ok (row, row ∷ rows)
]

-- The columns that UPDATE sets.
abbrev pub written : Time → Oauth2Client → Oauth2Client → Oauth2Client
written now c row = record row {
  name = c.name;
  description = c.description;
  redirect_uris = c.redirect_uris;
  post_logout_redirect_uris = c.post_logout_redirect_uris;
  grant_types = c.grant_types;
  scopes = c.scopes;
  metadata = c.metadata;
  frontchannel_logout_uri = c.frontchannel_logout_uri;
  frontchannel_logout_session_required = c.frontchannel_logout_session_required;
  backchannel_logout_uri = c.backchannel_logout_uri;
  backchannel_logout_session_required = c.backchannel_logout_session_required;
  updated_at = now;
}

abbrev pub selected : String → Time → Oauth2Client → Bool
selected id expected row = row.id == id && (is_live row && nat_eq row.updated_at expected)

-- `none` where no row is selected; identifiers are unique.
unfoldable pub update_rows : Time → Oauth2Client → Time → Rows → Option Rows
update_rows now c expected [] = none
update_rows now c expected (row ∷ rest) =
    let later = update_rows now c expected rest in
    if selected c.id expected row
    then some (written now c row ∷ rest)
    else elim later [ none ↦ none | some rows ↦ some (row ∷ rows) ]

unfoldable pub why_not : Option Oauth2Client → TableError
why_not none = client_not_found
why_not (some c) = concurrent_modification

unfoldable pub update : Time → Oauth2Client → Time → Rows → Result TableError Rows
unfolding update_rows why_not find_by_client_id
update now c expected rows = elim (update_rows now c expected rows) [
  | some rows' ↦ ok rows'
  | none ↦ err (why_not (find_by_client_id c.client_id rows))
]

unfoldable pub delete_rows : String → Time → Rows → Option Rows
delete_rows id at [] = none
delete_rows id at (row ∷ rest) =
    let later = delete_rows id at rest in
    if row.id == id && is_live row
    then some (record row { deleted_at = some at; updated_at = at; client_secret_hash = "" } ∷ rest)
    else elim later [ none ↦ none | some rows ↦ some (row ∷ rows) ]

unfoldable pub soft_delete : String → Time → Rows → Result TableError Rows
unfolding delete_rows
soft_delete id at rows = elim (delete_rows id at rows) [
  | some rows' ↦ ok rows'
  | none ↦ err client_not_found
]
