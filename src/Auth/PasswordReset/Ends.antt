-- ===== src/Auth/PasswordReset/Ends.antt =====
-- VerifyAndReset of internal/auth/service/password_reset_service.go ends the sessions of the account.
use gosso.Prelude.{
  ◌*◌, ◌/◌, ◌≡◌, ◌≢◌, refl, ap, ◌∙◌, inl, inr, Bool, true, Option, none, some, List, String, arith,
  leb, contains, trim_space, Bool-cases, Option-cases, Result, ok,
}
use gosso.Redis.{Redis, reset_token, account_sessions, Link, up, lost_request, lost_reply, exec}
use gosso.Oauth2.Client.{Time}
use gosso.Account.{is_active}
use gosso.Account.Credential.{Credential}
use gosso.Session.{Session, Local}
use gosso.Session.Service
use gosso.Session.Service.{validate_session}
use gosso.Session.Agreement.{Call}
use gosso.Session.Gone.{AllAllowed, IsGone, run}
use gosso.Session.Ended.{session-ended, revoked_all}
use gosso.Auth.PasswordReset.{ResetError, PasswordResetData, Config}
use gosso.Auth.PasswordReset.Verify.{
  ResetLinks, take_attempt, changed, cleared, barred, finish, removed, replaced, reset_account,
  taken, verify_and_reset,
}
use gosso.Auth.PasswordReset.Index.{SameIndex, revoke_all-ok, barred-index, cleared-index}

module _ (r : Redis) where
  open r use {Db, Text, get, set, del, smembers, smembers-set_ne, smembers-del_ne}

  module _ (c : Config r) where
    -- The call came to its end, from a Redis with the same indexes.
    data Finished (links : ResetLinks) (now : Time) (held : PasswordResetData) (d e : Db)
        : Type 0 where
      finished :
          (d' : Db)
          → SameIndex r d d'
          → e ≡ finish r c links now held d'
          → Finished links now held d e

    abbrev Ends :
        ResetLinks
        → Time
        → PasswordResetData
        → Db
        → Result ResetError (Unit {0}) × Db × List Credential
        → Type 0
    Ends links now held d out = out.0 ≡ ok tt → Finished links now held d out.1

    removed-Ends :
        (links : ResetLinks) (now : Time) (x : String) (held : PasswordResetData)
        (rows : List Credential) (d : Db)
        → Ends links now held d (removed r c links now (reset_token x) held rows d)
    unfolding finish
    removed-Ends links now x held rows d h =
        elim links.remove
            as (λ w.
              Ends links now held d
                (removed r c (record links { remove = w }) now (reset_token x) held rows d)) [
                  | up ↦ λ h.
                      finished (del d (reset_token x)) (λ a. smembers-del_ne d _ _ (λ p. cc)) refl
                  | lost_request ↦ λ h. absurd (ground arith)
                  | lost_reply ↦ λ h. absurd (ground arith)
                ]
          h

    replaced-Ends :
        (links : ResetLinks) (now : Time) (x : String) (held : PasswordResetData)
        (after : Option (List Credential)) (rows : List Credential) (d : Db)
        → Ends links now held d (replaced r c links now (reset_token x) held after rows d)
    replaced-Ends links now x held none rows d h = absurd (ground arith)
    replaced-Ends links now x held (some after) rows d h = removed-Ends links now x held after d h

    account-Ends :
        (links : ResetLinks) (commits : Bool) (now : Time) (x new_password : String)
        (held : PasswordResetData) (rows : List Credential) (d : Db)
        → Ends links now held d
            (reset_account r c links commits now (reset_token x) new_password held rows d)
    account-Ends links commits now x new_password held rows d h =
        elim (Option-cases (c.find_account held.account_id)) [
          | inl missing ↦ absurd (let h' = rw (missing, reset_account) at h in ground arith)
          | inr (a, there) ↦ elim (Bool-cases (is_active (some a))) [
            | inr idle ↦ absurd (let h' = rw (there, idle, reset_account) at h in ground arith)
            | inl active ↦ elim (Option-cases (c.hash_password new_password)) [
              | inl bad ↦
                  absurd (let h' = rw (there, active, bad, reset_account) at h in ground arith)
              | inr (hash, good) ↦
                  rw (there, active, good, reset_account)
                    (replaced-Ends links now x held
                      (changed r c commits now held.account_id hash rows) rows d
                      (rw (there, active, good, reset_account) at h))
            ]
          ]
        ]

    moved-Finished :
        (links : ResetLinks) (now : Time) (held : PasswordResetData) (d d' e : Db)
        → SameIndex r d d'
        → Finished links now held d' e
        → Finished links now held d e
    moved-Finished links now held d d' e same (finished x same' out) =
        finished x (λ a. same' a ∙ same a) out

    taken-Ends :
        (link : Link) (links : ResetLinks) (commits : Bool) (now : Time) (x new_password : String)
        (t : Text) (held : PasswordResetData) (rows : List Credential) (d : Db)
        → get d (reset_token x) ≡ some t
        → c.json.decode (c.bump t) ≡ some held
        → (let out =
              exec link
                (take_attempt r c (reset_token x) c.max_attempts (c.token_ttl / 1000000000))
                d in
            Ends links now held d
              (taken r c links commits now (reset_token x) new_password out.0 rows out.1))
    unfolding take_attempt
    taken-Ends up links commits now x new_password t held rows d stored good h =
        let k = reset_token x in
        let d' = set d k (c.bump t) (1000 * (c.token_ttl / 1000000000)) in
        elim (Bool-cases (leb c.max_attempts (c.attempts_in t))) [
          | inl full ↦ absurd (let h' = rw (stored, full, take_attempt) at h in ground arith)
          | inr room ↦
              rw (stored, room, good, take_attempt, taken)
                (moved-Finished links now held d d' _ (λ a. smembers-set_ne d _ _ _ _ (λ p. cc))
                  (account-Ends links commits now x new_password held rows d'
                    (rw (stored, room, good, take_attempt, taken) at h)))
        ]
    taken-Ends lost_request links commits now x new_password t held rows d stored good h =
        absurd (ground arith)
    taken-Ends lost_reply links commits now x new_password t held rows d stored good h =
        absurd (ground arith)

    verify-Ends :
        (links : ResetLinks) (commits : Bool) (now : Time) (token new_password : String) (t : Text)
        (held : PasswordResetData) (rows : List Credential) (d : Db)
        → get d (reset_token (c.hash_token (trim_space token))) ≡ some t
        → c.json.decode (c.bump t) ≡ some held
        → Ends links now held d (verify_and_reset r c links commits now token new_password rows d)
    unfolding verify_and_reset
    verify-Ends links commits now token new_password t held rows d stored good h =
        elim (Bool-cases (c.strong new_password)) [
          | inr weak ↦ absurd (let h' = rw (weak, verify_and_reset) at h in ground arith)
          | inl fine ↦
              rw (fine, verify_and_reset)
                (taken-Ends links.take links commits now (c.hash_token (trim_space token))
                  new_password t held rows d stored good (rw (fine, verify_and_reset) at h))
        ]

    Finished-ends :
        (links : ResetLinks) (now later : Time) (sid : String) (held : PasswordResetData)
        (l l' cache : Local r) (d e : Db) (calls : List (Call r c.sessions))
        (vlinks : Service.Links) (s : Session)
        → links.sessions.index ≡ up
        → links.sessions.write ≡ up
        → contains (smembers d (account_sessions held.account_id)) sid ≡ true
        → AllAllowed r c.sessions (λ x. x ≢ sid) (IsGone r c.sessions sid) calls
        → Finished links now held d e
        → (validate_session r c.sessions vlinks later sid cache (run r c.sessions calls l' e).1).0
          ≢ ok s
    unfolding finish
    Finished-ends links now later sid held l l' cache d e calls vlinks s i w m allowed
          (finished d' same out) =
        let account = held.account_id in
        let d2 = barred r c links.revoke now account (cleared r c held d') in
        let index =
          barred-index r c links.revoke now account (cleared r c held d') account
          ∙ cleared-index r c held d' account
          ∙ same account in
        session-ended r c.sessions sid l l' d2 e calls vlinks later cache s
          (revoked_all links.sessions account (ap (λ ms. contains ms sid) index ∙ m)
            (revoke_all-ok r c.sessions links.sessions account d2 i w) out)
          allowed

    -- Once VerifyAndReset has succeeded with a token, and the sessions of the account that the token
    -- is for were revoked over a network that held, no session that was in the account's index
    -- before is given by ValidateSession again, whatever calls of the session service follow, with
    -- whatever local cache. The calls that follow create no session of the same identifier, and
    -- what goes on beside a refresh does not store the session anew.
    pub verify_and_reset-ends :
        (links : ResetLinks) (commits : Bool) (now later : Time) (token new_password sid : String)
        (t : Text) (held : PasswordResetData) (rows : List Credential) (l cache : Local r) (d : Db)
        (calls : List (Call r c.sessions)) (vlinks : Service.Links) (s : Session)
        → get d (reset_token (c.hash_token (trim_space token))) ≡ some t
        → c.json.decode (c.bump t) ≡ some held
        → links.sessions.index ≡ up
        → links.sessions.write ≡ up
        → contains (smembers d (account_sessions held.account_id)) sid ≡ true
        → AllAllowed r c.sessions (λ x. x ≢ sid) (IsGone r c.sessions sid) calls
        → (verify_and_reset r c links commits now token new_password rows d).0 ≡ ok tt
        → (validate_session r c.sessions vlinks later sid cache
            (run r c.sessions calls l
              (verify_and_reset r c links commits now token new_password rows d).1).1).0
          ≢ ok s
    verify_and_reset-ends links commits now later token new_password sid t held rows l cache d calls
          vlinks s stored good i w m allowed h =
        Finished-ends links now later sid held l l cache d _ calls vlinks s i w m allowed
          (verify-Ends links commits now token new_password t held rows d stored good h)
