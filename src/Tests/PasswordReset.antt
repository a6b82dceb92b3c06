-- ===== src/Tests/PasswordReset.antt =====
-- Tests of password resets.
use gosso.Prelude.{
  ◌≡◌, ◌≢◌, refl, true, false, none, some, List, [], ◌∷◌, ok, err, contains, trim_space, lookup,
}
use gosso.Redis.{up, lost_request, reset_token, account_sessions}
use gosso.Redis.Keys.{key_eq}
use gosso.Redis.Memory.{Memory, fresh}
use gosso.Account.Credential.{Credential, email, password, new_base_credential}
use gosso.Account.Credential.Rows.{
  find_by_type_and_identifier, find_password_credential, put_row, update_credential,
}
use gosso.Session.{Session, Local}
use gosso.Session.Limit.{enforce_session_limit}
use gosso.Session.Service
use gosso.Session.Service.{create_session, create_script, validate_session, parse_session}
use gosso.Session.Agreement.{lists}
use gosso.Session.Gone.{run}
use gosso.Auth.PasswordReset.{PasswordResetData, delete_failed}
use gosso.Auth.PasswordReset.Request.{request_reset}
use gosso.Auth.PasswordReset.Verify.{ResetLinks, verify_and_reset}
use gosso.Auth.PasswordReset.Ends.{verify_and_reset-ends}
use gosso.Tests.Fixtures.{Payload, reset_text, server, sessions, resets}

abbrev all_up : Service.Links
all_up = record { load = up; write = up; index = up }

abbrev ann_session : Session
ann_session = record {
  id = "s1";
  account_id = "ann";
  username = "1";
  ip = "";
  user_agent = "";
  mfa_verified = false;
  created_at = 1000000000;
  last_active_at = 1000000000;
  metadata = none;
}

abbrev empty : Local server
empty = record { entries = []; cache_size = 0 }

abbrev rows : List Credential
rows =
    record (new_base_credential "c1" 10 "ann" email) { identifier = some "ann@id.example" }
    ∷ record (new_base_credential "c2" 10 "ann" password) { value = "old" }
    ∷ []

abbrev logged_in : Memory Payload
logged_in = (create_session server sessions all_up "r" 1000000000 ann_session empty fresh).3

abbrev asked : Memory Payload
asked =
    (request_reset server resets (record { check = up; store = up; cool = up }) " ann@id.example"
      (some "t1") rows logged_in).1

abbrev held : PasswordResetData
held = record { account_id = "ann"; email = "ann@id.example"; username = ""; attempts = 0 }

abbrev good : ResetLinks
good = record { take = up; remove = up; revoke = up; sessions = all_up }

abbrev bad : ResetLinks
bad = record good { remove = lost_request }

stored : server.get asked (reset_token "t1") ≡ some (reset_text held)
unfolding request_reset create_session create_script enforce_session_limit key_eq
    find_by_type_and_identifier trim_space
stored = refl

listed : contains (server.smembers asked (account_sessions "ann")) "s1" ≡ true
unfolding request_reset create_session create_script enforce_session_limit key_eq
    find_by_type_and_identifier trim_space contains
listed = refl

was_reset : (verify_and_reset server resets good true 2000000000 "t1" "new" rows asked).0 ≡ ok tt
unfolding verify_and_reset request_reset create_session create_script enforce_session_limit key_eq
    find_by_type_and_identifier trim_space find_password_credential put_row update_credential
was_reset = refl

-- Where the token cannot be deleted the password is changed, and the old session goes on.
half_reset :
    (let (res, d, after) =
        verify_and_reset server resets bad true 2000000000 "t1" "new" rows asked in
      (res ≡ err delete_failed)
      × ((verify_and_reset server resets bad true 2000000000 "t1" "new" rows asked).2
          ≡ record (new_base_credential "c1" 10 "ann" email) { identifier = some "ann@id.example" }
            ∷ record (new_base_credential "c2" 10 "ann" password) {
              value = "new";
              updated_at = 2000000000;
            }
            ∷ [])
      × ((validate_session server sessions all_up 3000000000 "s1" empty d).0 ≡ ok ann_session))
unfolding verify_and_reset request_reset create_session create_script enforce_session_limit key_eq
    find_by_type_and_identifier trim_space find_password_credential put_row update_credential
    validate_session parse_session lookup
half_reset = (refl, refl, refl)

verify_and_reset-ends_example :
    (validate_session server sessions all_up 3000000000 "s1" empty
      (run server sessions
        (lists all_up up 2500000000 "ann" ∷ [])
        empty
        (verify_and_reset server resets good true 2000000000 "t1" "new" rows asked).1).1).0
    ≢ ok ann_session
unfolding trim_space
verify_and_reset-ends_example =
    verify_and_reset-ends server resets good true 2000000000 3000000000 "t1" "new" "s1"
      (reset_text held) (record held { attempts = 1 }) rows empty empty asked
      (lists all_up up 2500000000 "ann" ∷ []) all_up ann_session stored refl refl refl listed
      (tt, tt) was_reset
