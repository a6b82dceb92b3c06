-- ===== src/Tests/Consent.antt =====
-- Tests of consents.
use gosso.Prelude.{◌≡◌, ◌≢◌, refl, inr, true, none, [], ◌∷◌, arith, ok}
use gosso.Redis.{up, lost_request}
use gosso.Redis.Keys.{key_eq}
use gosso.Redis.Memory.{Memory, fresh}
use gosso.Oauth2.Consent.{
  Consent, granted, consent_key, find_consent, soft_delete, remove, cached, get_consent, drop_cache,
  delete_consent,
}
use gosso.Oauth2.Consent.Cache.{delete_consent-forgets}
use gosso.Tests.Fixtures.{Payload, consented, server, consent_json}

abbrev given : Consent
given = record {
  id = "k1";
  account_id = "ann";
  client_id = "app";
  scopes = "openid" ∷ [];
  granted_at = 10;
  created_at = 10;
  updated_at = 10;
  deleted_at = none;
}

abbrev cache : Memory Payload
cache = server.set fresh (consent_key "ann" "app") (consented (granted given)) 7776000000

deleted :
    (delete_consent server consent_json lost_request up true true 20 "ann" "app"
      (given ∷ [])
      cache).0
    ≡ ok tt
unfolding delete_consent soft_delete find_consent
deleted = refl

delete_consent-forgets_example :
    let (result, rows, d) =
      delete_consent server consent_json lost_request up true true 20 "ann" "app"
        (given ∷ [])
        cache in
    (get_consent server consent_json up up (λ e. e) true "ann" "app" rows (server.elapse d 1000)).0
    ≢ ok given
delete_consent-forgets_example =
    delete_consent-forgets server consent_json lost_request up up up (λ e. e) true true true 20
      "ann" "app" 1000 (given ∷ []) cache given (inr (λ p. ground arith)) deleted

-- GetConsent reads the database before a deletion and writes the cache after it: the cache then
-- holds the consent that was deleted, and gives it out.
abbrev deletion : Memory Payload → Memory Payload
deletion d = (delete_consent server consent_json up up true true 20 "ann" "app" (given ∷ []) d).2

abbrev raced : Memory Payload
raced = (get_consent server consent_json up up deletion true "ann" "app" (given ∷ []) fresh).1

gives_deleted :
    (get_consent server consent_json up up
      (λ e. e)
      true
      "ann"
      "app"
      (remove 20 "ann" "app" (given ∷ []))
      raced).0
    ≡ ok given
unfolding get_consent cached find_consent delete_consent soft_delete drop_cache key_eq
gives_deleted = refl
