-- ===== src/Tests/Auth.antt =====
-- Tests of the limits on attempts and of verification codes.
use gosso.Prelude.{◌≤◌, ◌-◌, ◌≡◌, refl, some, List, [], ◌∷◌, arith, trim_space, ok, err}
use gosso.Redis.{up, lost_request, lost_reply, login_attempts_ip}
use gosso.Redis.Keys.{key_eq}
use gosso.Redis.Memory.{Memory, fresh}
use gosso.Auth.{ip_locked}
use gosso.Auth.Attempts.{check_and_incr}
use gosso.Auth.Attempts.Bound
use gosso.Auth.Attempts.Bound.{attempt, passes, limited-bounded}
use gosso.Auth.Verification
use gosso.Auth.Verification.{
  send_failed, code_expired, send_code, verify_code, verify_script, pepper_hash, deliver,
  VerifyCodeData,
}
use gosso.Auth.Verification.Guesses
use gosso.Auth.Verification.Guesses.{guess, tally, decided, accepted, verify_code-bounded}
use gosso.Auth.Verification.Sent.{send_code-verify_code}
use gosso.Tests.Fixtures.{Payload, code_data, server, number_text, verification}

abbrev tries : List (Bound.Event server number_text)
tries =
    attempt up
    ∷ attempt lost_request
    ∷ attempt up
    ∷ attempt lost_reply
    ∷ attempt up
    ∷ attempt up
    ∷ []

-- Of a limit of three, the third attempt is refused.
passed : passes server number_text ip_locked (login_attempts_ip "a") 3 1000000000 tries fresh ≡ 2
unfolding passes check_and_incr key_eq
passed = refl

limited-bounded_example :
    passes server number_text ip_locked (login_attempts_ip "a") 3 1000000000 tries fresh ≤ 3 - 1
limited-bounded_example =
    limited-bounded server number_text ip_locked (login_attempts_ip "a") 3 1000000000 tries fresh tt
      refl

abbrev quick : Verification.Links
quick = record { check = up; store = up; cool = up; roll_back = up }

sent : (send_code server verification quick "email" " ann" "a1" (some "123456") fresh).0 ≡ ok tt
unfolding send_code key_eq trim_space
sent = refl

unsent :
    (send_code server verification quick "phone" " ann" "a1" (some "123456") fresh).0
    ≡ err send_failed
unfolding send_code key_eq trim_space
unsent = refl

send_code-verify_code_example :
    (let d' = (send_code server verification quick "email" " ann" "a1" (some "123456") fresh).1 in
      let (res, d'') = verify_code server verification up "email" " ann" "123456" d' in
      (res ≡ ok "a1")
      × ((verify_code server verification up "email" " ann" "123456" d'').0 ≡ err code_expired))
send_code-verify_code_example =
    send_code-verify_code server verification quick "email" " ann" "a1" "123456" fresh (omega arith)
      sent

abbrev held : VerifyCodeData
held = record { code_hash = "123456"; attempts = 0; account_id = "a1" }

abbrev one_code : Memory Payload
one_code =
    server.set fresh (Guesses.the_key server verification "email" "ann") (code_data held) 600000

abbrev guesses : List (Guesses.Event server verification)
guesses =
    guess up "1" ∷ guess lost_reply "2" ∷ guess up "123456" ∷ guess up "123456" ∷ guess up "4" ∷ []

right : tally server verification "email" "ann" (accepted server verification) guesses one_code ≡ 1
unfolding tally verify_code key_eq trim_space
right = refl

stored :
    server.get one_code (Guesses.the_key server verification "email" "ann") ≡ some (code_data held)
unfolding key_eq trim_space
stored = refl

verify_code-bounded_example :
    (tally server verification "email" "ann" (decided server verification) guesses one_code ≤ 3 - 0)
    × (tally server verification "email" "ann" (accepted server verification) guesses one_code ≤ 1)
verify_code-bounded_example =
    verify_code-bounded server verification "email" "ann" guesses (code_data held) held one_code tt
      stored refl
