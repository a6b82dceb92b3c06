-- ===== src/Tests/DeviceCode.antt =====
-- Tests of device codes.
use gosso.Prelude.{◌≡◌, ◌↔◌, refl, inl, true, false, [], ◌∷◌, ok, is_ok}
use gosso.Redis.{up, device_code}
use gosso.Redis.Keys.{key_eq}
use gosso.Redis.Memory.{Memory, fresh}
use gosso.Oauth2.DeviceCode.{DeviceCode, pending, authorized, denied, used, deny}
use gosso.Oauth2.DeviceCode.Lifecycle.{
  authorizes, denies, marks_used, call, run, Legal, call_iff, ◌⟶◌, call-⟶, run_final,
}
use gosso.Oauth2.DeviceCode.Service.{claim_by_hash}
use gosso.Oauth2.DeviceCode.Service.Spent
use gosso.Oauth2.DeviceCode.Service.Claim.{Claimed, claim_by_hash-Claimed, claim_once}
use gosso.Tests.Fixtures.{Payload, device, server, device_json, number_text}

abbrev tv : DeviceCode
tv = record {
  device_code = "";
  user_code = "ABCD-EFGH";
  client_id = "tv";
  account_id = "";
  scopes = [];
  status = pending;
  expires_at = 100;
  authorized_at = 0;
  last_poll_at = 0;
  interval = 5;
  created_at = 10;
}

abbrev tv_authorized : DeviceCode
tv_authorized = record tv { status = authorized; account_id = "a" }

call_iff_test : (is_ok (call (authorizes 20 "a") tv) ≡ true) ↔ Legal (authorizes 20 "a") tv.status
call_iff_test = call_iff (authorizes 20 "a") tv

denied_call : call denies tv ≡ ok (record tv { status = denied })
unfolding deny
denied_call = refl

call-⟶_test : pending ⟶ denied
call-⟶_test = call-⟶ denies tv (record tv { status = denied }) denied_call

run_final_test :
    run (record tv { status = denied }) (authorizes 20 "a" ∷ marks_used ∷ [])
    ≡ record tv { status = denied }
run_final_test =
    run_final (record tv { status = denied }) (authorizes 20 "a" ∷ marks_used ∷ []) (inl refl)

abbrev holding : Memory Payload
holding = server.set fresh (device_code "h") (device tv_authorized) 90000

claimed :
    (claim_by_hash server device_json up "h" "tv" holding).0
    ≡ ok (record tv_authorized { status = used })
unfolding claim_by_hash key_eq
claimed = refl

claim_by_hash-Claimed_example :
    Claimed server device_json number_text "h" "tv" holding
      (claim_by_hash server device_json up "h" "tv" holding).1
      (record tv_authorized { status = used })
claim_by_hash-Claimed_example =
    claim_by_hash-Claimed server device_json number_text up "h" "tv" holding
      (record tv_authorized { status = used }) claimed

claim_once_example :
    is_ok
      (claim_by_hash server device_json up "h" "tv" (
        Spent.run server device_json number_text
          (claim_by_hash server device_json up "h" "tv" holding).1
          (Spent.polls up 0 5 "h" ∷ Spent.authorizes up 0 "h" "thief" ∷ []))).0
    ≡ false
claim_once_example =
    claim_once server device_json number_text up up "h" "tv" "tv" holding
      (record tv_authorized { status = used })
      (Spent.polls up 0 5 "h" ∷ Spent.authorizes up 0 "h" "thief" ∷ []) claimed
