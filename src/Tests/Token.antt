-- ===== src/Tests/Token.antt =====
-- Tests of refresh tokens.
use gosso.Prelude.{
  ℕ, ◌+◌, ◌<◌, List, ◌≡◌, ◌≢◌, ◌↔◌, refl, inr, none, some, [], ◌∷◌, arith, eq_iff, ok,
}
use gosso.Redis.{up, lost_reply, refresh_token, refresh_token_replay}
use gosso.Redis.Keys.{key_eq}
use gosso.Redis.Memory.{Memory, fresh}
use gosso.Oauth2.DeviceCode.Service.{unix, of_unix}
use gosso.Token.{RefreshToken, new_refresh_token}
use gosso.Token.Blacklist.{raise, after_text, get_account_revoked_after, set_account_revoked_after}
use gosso.Token.Refresh.{
  TokenRequest, validate_refresh_token, revoke_account_tokens, revoke_all_for_session,
  revoke_session, del_each, delete_token, store_refresh_token, parse_refresh_token_replay,
}
use gosso.Token.Refresh.Rotation.{Links, rotate_refresh_token, renew, rotate_script}
use gosso.Token.Refresh.Others.{Op, acts, stores, deletes, waits, exchange_once}
use gosso.Token.Refresh.Validation.{Accepted, validate_refresh_token_iff}
use gosso.Token.Refresh.Revocation.{Revocation, revokes, revoke_account_tokens-refuses}
use gosso.Token.Refresh.Ended.{IsIndexed}
use gosso.Token.Refresh.Logout.{revoke_all_for_session-ends}
use gosso.Tests.Fixtures.{Payload, refresh, server, tokens}

-- A second of 2024, in nanoseconds.
abbrev noon : ℕ
noon = 63840000000000000000

abbrev asked : TokenRequest
asked = record {
  account_id = "ann";
  client_id = "app";
  session_id = "s1";
  scope = "openid";
  ip = "";
  user_agent = "";
}

abbrev first : RefreshToken
first = record {
  token = "";
  account_id = "ann";
  client_id = "app";
  session_id = "s1";
  scope = "openid";
  ip = "";
  user_agent = "";
  expires_at = noon + 86400000000000;
  created_at = noon;
}

abbrev holding : Memory Payload
holding = server.set fresh (refresh_token "old") (refresh first) 86400000

abbrev quick : Links
quick = record { load = up; rotate = up; replay = up; validate = up; revocation = up }

abbrev flaky : Links
flaky = record { load = up; rotate = lost_reply; replay = up; validate = up; revocation = up }

abbrev second : RefreshToken
second = record first { token = "new"; expires_at = noon + 86400000000005; created_at = noon + 5 }

rotated_first :
    (rotate_refresh_token server tokens flaky
      (acts server tokens [])
      (some "new")
      (noon + 5)
      "old"
      holding).0
    ≡ ok second
unfolding rotate_refresh_token acts key_eq renew new_refresh_token rotate_script
    parse_refresh_token_replay validate_refresh_token get_account_revoked_after after_text
rotated_first = refl

rotated_again :
    (rotate_refresh_token server tokens quick
      (acts server tokens [])
      (some "third")
      (noon + 9)
      "old"
      (acts server tokens
        (waits 3 ∷ [])
        (rotate_refresh_token server tokens flaky
          (acts server tokens [])
          (some "new")
          (noon + 5)
          "old"
          holding).1)).0
    ≡ ok second
unfolding rotate_refresh_token acts key_eq renew new_refresh_token rotate_script
    parse_refresh_token_replay validate_refresh_token get_account_revoked_after after_text
rotated_again = refl

none_yet : server.get holding (refresh_token_replay "old") ≡ none
unfolding key_eq
none_yet = refl

exchange_once_example : second ≡ second
exchange_once_example =
    exchange_once server tokens flaky quick [] (waits 3 ∷ []) [] "new" "third" (noon + 5) (noon + 9)
      "old" holding second second tt (tt, tt) tt (λ p. ground (arith, eq_iff "new" "old"))
      (λ p. ground (arith, eq_iff "third" "old")) (inr none_yet) rotated_first rotated_again

validate_refresh_token_iff_example :
    (validate_refresh_token server tokens up up (noon + 7) "old" holding ≡ ok first)
    ↔ Accepted server tokens up (noon + 7) "old" holding first
validate_refresh_token_iff_example =
    validate_refresh_token_iff server tokens up (noon + 7) "old" holding first

abbrev later : ℕ
later = noon + 5000000000

before_revocation : first.created_at < of_unix (unix later)
unfolding of_unix unix
before_revocation = omega arith

revoked : (revoke_account_tokens server tokens up later "ann" holding).0 ≡ ok tt
unfolding revoke_account_tokens set_account_revoked_after raise key_eq
revoked = refl

abbrev earlier_call : Revocation server tokens
earlier_call = record { link = up; at = noon; account = "ann" }

revoke_account_tokens-refuses_example :
    validate_refresh_token server tokens up up later "old" (
      revokes server tokens
        (earlier_call ∷ [])
        (revoke_account_tokens server tokens up later "ann" holding).1)
    ≢ ok first
revoke_account_tokens-refuses_example =
    revoke_account_tokens-refuses server tokens up up up later later "ann" "old" (earlier_call ∷ [])
      holding first (λ p. ground (arith, eq_iff "ann" "")) refl before_revocation revoked

abbrev other : RefreshToken
other = record first { session_id = "s2" }

abbrev two : List (Op server tokens)
two =
    stores "t1" "s1" (refresh first) 86400
    ∷ stores "t2" "s2" (refresh other) 86400
    ∷ deletes "t3"
    ∷ []

indexed : IsIndexed server tokens fresh
indexed = record { listed = λ h t g f. absurd (ground arith); sets = λ x. refl }

ended_s1 : (revoke_all_for_session server tokens up "s1" (acts server tokens two fresh)).0 ≡ ok tt
unfolding revoke_all_for_session
ended_s1 = refl

left_t2 :
    server.get
      (revoke_all_for_session server tokens up "s1" (acts server tokens two fresh)).1
      (refresh_token "t2")
    ≡ some (refresh other)
unfolding revoke_all_for_session revoke_session del_each acts store_refresh_token delete_token
    key_eq
left_t2 = refl

revoke_all_for_session-ends_example : tokens.session_in (refresh other) ≢ "s1"
revoke_all_for_session-ends_example =
    revoke_all_for_session-ends server tokens up two "s1" "t2" (refresh other) fresh indexed
      (refl, (refl, (tt, tt))) refl ended_s1 left_t2
