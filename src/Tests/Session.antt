-- ===== src/Tests/Session.antt =====
-- Tests of sessions.
use gosso.Prelude.{
  ℕ, ◌+◌, ◌*◌, ◌≡◌, ◌≢◌, refl, false, none, some, List, [], ◌∷◌, String, arith, eq_iff, lookup,
  insert, delete, ok, err,
}
use gosso.Redis.{up, lost_request, session, refresh_token}
use gosso.Redis.Keys.{key_eq}
use gosso.Redis.Memory.{Memory, fresh}
use gosso.Session.{
  Session, Local, redis_failed, session_not_found, cache_store, cache_evict, cache_write,
}
use gosso.Session.Limit.{enforce_session_limit}
use gosso.Session.Service.{
  Links, create_session, create_script, validate_session, get_session, parse_session,
}
use gosso.Session.Change.{delete_session, refresh_session}
use gosso.Session.Agreement.{
  Call, creates, validates, deletes, refreshes, lists, serve, serve_all, serve_all-off, AllFit,
}
use gosso.Session.Cache.{off, IsCoherent}
use gosso.Session.Capped.{IsCapped}
use gosso.Session.Enforced.{create_session-IsCapped}
use gosso.Session.Created.{stamped}
use gosso.Session.Gone.{run}
use gosso.Session.Ended.{deleted, session-ended}
use gosso.Session.Logout.{revoke_session-tokens}
use gosso.Session.Manage.{revoke_session}
use gosso.Token.{RefreshToken}
use gosso.Token.Refresh.{store_refresh_token, revoke_all_for_session}
use gosso.Token.Refresh.Others.{Op, acts, stores}
use gosso.Token.Refresh.Ended.{IsIndexed}
use gosso.Token.Refresh.Logout.{acts-IsIndexed}
use gosso.Tests.Fixtures.{Payload, refresh, session_text, server, sessions, tokens}

-- Times in seconds, over a time on which all count.
abbrev second : ℕ → ℕ
second n = 63840000000000000000 + n * 1000000000

abbrev given : String → String → Session
given sid at = record {
  id = sid;
  account_id = "ann";
  username = at;
  ip = "";
  user_agent = "";
  mfa_verified = false;
  created_at = 0;
  last_active_at = 0;
  metadata = none;
}

abbrev all_up : Links
all_up = record { load = up; write = up; index = up }

abbrev write_lost : Links
write_lost = record { load = up; write = lost_request; index = up }

abbrev empty : Local server
empty = record { entries = []; cache_size = 0 }

abbrev first_created : Memory Payload
first_created = (create_session server sessions all_up "r" (second 1) (given "a" "1") empty fresh).3

first_answer :
    (create_session server sessions all_up "r" (second 1) (given "a" "1") empty fresh).0 ≡ ok tt
unfolding create_session create_script enforce_session_limit key_eq
first_answer = refl

abbrev two_created : Memory Payload
two_created =
    (create_session server sessions all_up "r" (second 3) (given "b" "3") empty first_created).3

third_answer :
    (create_session server sessions all_up "r" (second 4) (given "c" "4") empty two_created).0
    ≡ ok tt
unfolding create_session create_script enforce_session_limit key_eq
third_answer = refl

a_deleted : (delete_session server sessions all_up (second 5) "a" empty two_created).0 ≡ ok tt
unfolding delete_session
a_deleted = refl

abbrev held : RefreshToken
held = record {
  token = "";
  account_id = "ann";
  client_id = "app";
  session_id = "a";
  scope = "openid";
  ip = "";
  user_agent = "";
  expires_at = second 86400;
  created_at = second 1;
}

abbrev calls : List (Call server sessions)
calls =
    creates all_up "r" (second 1) (given "a" "1")
    ∷ refreshes all_up (λ d. d) (second 2) "a"
    ∷ validates all_up (second 3) "a"
    ∷ deletes write_lost (second 4) "a"
    ∷ deletes all_up (second 5) "a"
    ∷ validates all_up (second 6) "a"
    ∷ []

answers :
    (serve_all server sessions calls empty fresh).0
    ≡ ok []
      ∷ ok []
      ∷ ok (record (given "a" "1") { created_at = second 1; last_active_at = second 2 } ∷ [])
      ∷ err redis_failed
      ∷ ok []
      ∷ err session_not_found
      ∷ []
unfolding serve_all serve delete_session get_session refresh_session validate_session create_session
    create_script enforce_session_limit key_eq parse_session lookup cache_store cache_evict insert
    delete cache_write
answers = refl

fits : AllFit server sessions calls empty fresh
unfolding serve_all serve delete_session get_session refresh_session validate_session create_session
    create_script enforce_session_limit key_eq parse_session lookup cache_store cache_evict insert
    delete
fits = (tt, ((λ p. ground arith, λ p. ground arith), (tt, (tt, (tt, (tt, tt))))))

empty-IsCoherent : IsCoherent server sessions empty
unfolding lookup
empty-IsCoherent sid cs h = absurd (ground arith)

serve_all-off_example :
    serve_all server sessions calls empty fresh ≡ serve_all server sessions calls (off server) fresh
serve_all-off_example = serve_all-off server sessions calls empty fresh empty-IsCoherent fits

create_session-IsCapped_example :
    IsCapped server sessions "ann" 2
      (create_session server sessions all_up "r" (second 4) (given "c" "4") empty two_created).3
create_session-IsCapped_example =
    create_session-IsCapped server sessions all_up "r" (second 4) (given "c" "4") empty two_created
      (omega arith) refl third_answer

session-ended_example :
    (validate_session server sessions all_up
      (second 9)
      "a"
      empty
      (run server sessions
        (creates all_up "r" (second 7) (given "d" "7") ∷ lists all_up up (second 8) "ann" ∷ [])
        empty
        (delete_session server sessions all_up (second 5) "a" empty two_created).2).1).0
    ≢ ok (stamped "r" (second 1) (given "a" "1"))
session-ended_example =
    session-ended server sessions "a" empty empty two_created
      (delete_session server sessions all_up (second 5) "a" empty two_created).2
      (creates all_up "r" (second 7) (given "d" "7") ∷ lists all_up up (second 8) "ann" ∷ []) all_up
      (second 9) empty (stamped "r" (second 1) (given "a" "1"))
      (deleted all_up (second 5) a_deleted refl) ((λ p. ground (arith, eq_iff "d" "a")), (tt, tt))

-- RefreshSession changes the session that it shares with the local cache before it writes it to
-- Redis: where the write fails, ValidateSession on this machine gives a time of activity that no
-- other machine sees.
abbrev one_cached : Local server
one_cached = (create_session server sessions all_up "r" (second 1) (given "a" "1") empty fresh).2

abbrev after_refresh : Local server
after_refresh =
    (refresh_session server sessions write_lost (λ d. d) (second 2) "a" one_cached first_created).1

refreshed_here :
    (validate_session server sessions all_up (second 3) "a" after_refresh first_created).0
    ≡ ok (record (given "a" "1") { created_at = second 1; last_active_at = second 2 })
unfolding create_session create_script enforce_session_limit key_eq refresh_session parse_session
    lookup insert cache_store cache_write validate_session
refreshed_here = refl

refreshed_elsewhere :
    (validate_session server sessions all_up (second 3) "a" empty first_created).0
    ≡ ok (record (given "a" "1") { created_at = second 1; last_active_at = second 1 })
unfolding create_session create_script enforce_session_limit key_eq parse_session lookup
    validate_session
refreshed_elsewhere = refl

-- RefreshSession drops the entry and leaves the counter, so that the counter counts what is gone.
abbrev refreshed_well : Local server
refreshed_well =
    (refresh_session server sessions all_up (λ d. d) (second 2) "a" one_cached first_created).1

counted : (refreshed_well.entries ≡ []) × (refreshed_well.cache_size ≡ 1)
unfolding create_session create_script enforce_session_limit key_eq refresh_session parse_session
    lookup insert delete cache_store cache_write
counted = (refl, refl)

-- Two sessions with a refresh token each.
abbrev both : List (Op server tokens)
both =
    stores "h" "a" (refresh held) 86400
    ∷ stores "k" "b" (refresh (record held { session_id = "b" })) 86400
    ∷ []

abbrev signed_in : Memory Payload
signed_in = acts server tokens both (
    server.set fresh (session "a") (session_text (stamped "r" (second 1) (given "a" "1"))) 86400000)

only_session : IsIndexed server tokens (
    server.set fresh (session "a") (session_text (stamped "r" (second 1) (given "a" "1"))) 86400000)
unfolding key_eq
only_session = record { listed = λ h t g n. absurd (ground arith); sets = λ sid. refl }

a_revoked : (revoke_session server sessions all_up (second 5) "ann" "a" empty signed_in).0 ≡ ok tt
unfolding revoke_session get_session acts store_refresh_token key_eq parse_session lookup
    revoke_all_for_session
a_revoked = refl

left_over :
    server.get
      (revoke_session server sessions all_up (second 5) "ann" "a" empty signed_in).2
      (refresh_token "k")
    ≡ some (refresh (record held { session_id = "b" }))
unfolding revoke_session get_session acts store_refresh_token key_eq parse_session lookup
    revoke_all_for_session
left_over = refl

revoke_session-tokens_example : tokens.session_in (refresh (record held { session_id = "b" })) ≢ "a"
revoke_session-tokens_example =
    revoke_session-tokens server sessions tokens all_up up (second 5) "ann" "a" "k"
      (refresh (record held { session_id = "b" })) empty signed_in refl
      (acts-IsIndexed server tokens both _ (refl, (refl, tt)) only_session) refl a_revoked left_over
