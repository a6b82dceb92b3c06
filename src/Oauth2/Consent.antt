-- ===== src/Oauth2/Consent.antt =====
-- internal/oauth2/domain/consent.go, the rows of internal/oauth2/repository/
-- consent_repository_impl.go, and internal/oauth2/service/consent_service.go: consents in the
-- database, with Redis as a cache that is written through.
pub mod Cache
use Prim.Native.String.{◌++◌ as ◌<>◌}
use gosso.Prelude.{
  ℕ, ◌*◌, ◌≡◌, Bool, true, false, not, ◌&&◌, ◌||◌, Option, none, some, List, [], ◌∷◌, String, ltb,
  length, if◌then◌else◌, ◌==◌, is_empty, contains, Result, ok, err, ◌>>=◌, ◌>>◌, reject,
}
use gosso.Redis.{Redis, Codec, Key, consent, Reply, value, nil, failed, Link, exec, read}
use gosso.Oauth2.Client.{Time}
use gosso.Oauth2.AuthCode.{or_empty}

pub record Consent : Type 0 where
  pub id : String
  pub account_id : String
  pub client_id : String
  pub scopes : List String
  pub granted_at : Time
  pub created_at : Time
  pub updated_at : Time
  pub deleted_at : Option Time

pub data ConsentError : Type 0 where
  consent_not_found account_id_required client_id_required empty_scope : ConsentError
  too_many_scopes duplicate_scope consent_nil invalid_consent database_failed : ConsentError

-- The loop over the scopes, with those that were seen.
unfoldable pub check_scopes : List String → List String → Result ConsentError (Unit {0})
check_scopes seen [] = ok tt
check_scopes seen (s ∷ rest) = do
  reject (is_empty s) empty_scope
  reject (contains seen s) duplicate_scope
  check_scopes (s ∷ seen) rest

unfoldable pub new_consent :
    String → Time → String → String → Option (List String) → Result ConsentError Consent
new_consent id now account_id client_id scopes = do
  reject (is_empty account_id) account_id_required
  reject (is_empty client_id) client_id_required
  reject (ltb 64 (length (or_empty scopes))) too_many_scopes
  check_scopes [] (or_empty scopes)
  ok (record {
    id = id;
    account_id = account_id;
    client_id = client_id;
    scopes = or_empty scopes;
    granted_at = now;
    created_at = now;
    updated_at = now;
    deleted_at = none;
  })

abbrev pub Rows : Type 0
Rows = List Consent

abbrev pub matches : String → String → Consent → Bool
matches account client c = elim c.deleted_at [
  | none ↦ c.account_id == account && c.client_id == client
  | some at ↦ false
]

-- The join with the table of clients turns a client's identifier into its row and back.
unfoldable pub find_consent : String → String → Rows → Option Consent
find_consent account client [] = none
find_consent account client (c ∷ rest) =
    let later = find_consent account client rest in
    if matches account client c then some c else later

-- ON CONFLICT DO UPDATE, with the trigger that sets `updated_at`.
unfoldable pub overwrite : Time → Consent → Rows → Rows
overwrite now c [] = []
overwrite now c (old ∷ rest) =
    let later = overwrite now c rest in
    if matches c.account_id c.client_id old
    then record old {
      scopes = c.scopes;
      granted_at = c.granted_at;
      updated_at = now;
      deleted_at = none;
    }
      ∷ rest
    else old ∷ later

unfoldable pub upsert : String → Time → Consent → Rows → Rows
upsert id now c rows = elim (find_consent c.account_id c.client_id rows) [
  | none ↦ record c { id = id; created_at = now; updated_at = now; deleted_at = none } ∷ rows
  | some old ↦ overwrite now c rows
]

unfoldable pub remove : Time → String → String → Rows → Rows
remove now account client [] = []
remove now account client (c ∷ rest) =
    let later = remove now account client rest in
    if matches account client c
    then record c { deleted_at = some now; updated_at = now } ∷ later
    else c ∷ later

-- `live` says whether the client is not deleted: the statement looks its row up.
unfoldable pub soft_delete : Bool → Time → String → String → Rows → Result ConsentError Rows
soft_delete live now account client rows =
    if not live then err consent_not_found else elim (find_consent account client rows) [
      | none ↦ err consent_not_found
      | some c ↦ ok (remove now account client rows)
    ]

abbrev pub consent_ttl : ℕ
consent_ttl = 7776000000

abbrev pub consent_cache_fallback_ttl : ℕ
consent_cache_fallback_ttl = 300000

-- What a cached text says: the tombstone, or a consent.
pub data Entry : Type 0 where
  revoked : Entry
  granted : Consent → Entry

abbrev pub consent_key : String → String → Key
consent_key account client = consent (account <> "|" <> client)

module _ (r : Redis) (json : Codec (r.Text) Entry) where
  open r use {Db, Text, get, set, del}

  -- The consent that the cache gives, if it gives one.
  unfoldable pub cached : Reply Text → Option Consent
  cached (value t) = elim (json.decode t) [ some (granted c) ↦ some c | _ ↦ none ]
  cached _ = none

  abbrev put : Key → Entry → ℕ → Db → Reply (Unit {0}) × Db
  put k e ms d = (value tt, set d k (json.encode e) ms)

  -- `others` is what happens in Redis between the reading of the database and the writing of the
  -- cache; `reachable` says whether the database answers.
  unfoldable pub get_consent :
      Link
      → Link
      → (Db → Db)
      → Bool
      → String
      → String
      → Rows
      → Db
      → Result ConsentError Consent × Db
  get_consent load store others reachable account client rows d =
      elim (cached (read r load d (consent_key account client))) [
        | some c ↦ (ok c, d)
        | none ↦
            if not reachable
            then (err database_failed, d)
            else elim (find_consent account client rows) [
              | none ↦ (err consent_not_found, d)
              | some c ↦ (
                ok c,
                (exec store (put (consent_key account client) (granted c) consent_ttl)
                    (others d)).1,
              )
            ]
      ]

  abbrev retried : Reply (Unit {0}) → Db → Db → Db
  retried (value u) done again = done
  retried _ done again = again

  unfoldable pub write_cache : Link → Link → Key → Entry → Db → Db
  write_cache first second k e d =
      let (reply, d') = exec first (put k e consent_ttl) d in
      retried reply d' (exec second (put k e consent_cache_fallback_ttl) d').1

  -- What the database returns is in the consent that is cached.
  unfoldable pub saved : String → Time → Consent → Rows → Consent
  saved id now c rows = elim (find_consent c.account_id c.client_id (upsert id now c rows)) [
    | none ↦ c
    | some row ↦ record c { id = row.id; created_at = row.created_at; updated_at = row.updated_at }
  ]

  -- `commits` says whether the transaction goes through, which it does not for a deleted client.
  unfoldable pub save_consent :
      Link
      → Link
      → Bool
      → String
      → Time
      → Option Consent
      → Rows
      → Db
      → Result ConsentError (Unit {0}) × Rows × Db
  save_consent first second commits id now none rows d = (err consent_nil, rows, d)
  save_consent first second commits id now (some c) rows d =
      let granted_now : Consent = record c { granted_at = now } in
      if is_empty c.account_id || is_empty c.client_id
      then (err invalid_consent, rows, d)
      else if not commits
      then (err database_failed, rows, d)
      else (
        ok tt,
        upsert id now granted_now rows,
        write_cache first second (consent_key c.account_id c.client_id)
            (granted (saved id now granted_now rows)) d,
      )

  unfoldable pub drop_cache : Link → Link → Key → Db → Db
  drop_cache first second k d =
      let (reply, d') = exec first (λ e. (value tt, del e k)) d in
      retried reply d' (exec second (put k revoked consent_cache_fallback_ttl) d').1

  unfoldable pub delete_consent :
      Link
      → Link
      → Bool
      → Bool
      → Time
      → String
      → String
      → Rows
      → Db
      → Result ConsentError (Unit {0}) × Rows × Db
  delete_consent first second commits live now account client rows d =
      elim (soft_delete live now account client rows) [
        | err e ↦ (err e, rows, d)
        | ok rows' ↦
            if not commits
            then (err database_failed, rows, d)
            else (ok tt, rows', drop_cache first second (consent_key account client) d)
      ]
