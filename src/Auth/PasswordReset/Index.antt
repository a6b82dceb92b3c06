-- ===== src/Auth/PasswordReset/Index.antt =====
-- internal/auth/service/password_reset_service.go: what a reset does between its token and the
-- sessions, and the index of an account's sessions.
use gosso.Prelude.{ℕ, ◌≡◌, refl, inl, inr, List, [], ◌∷◌, String, leb, Bool-cases, Option-cases, ok}
use gosso.Redis.{Redis, account_sessions, Link, up, lost_request, lost_reply, account_revoked_after}
use gosso.Oauth2.Client.{Time}
use gosso.Oauth2.DeviceCode.Service.{unix}
use gosso.Token.Blacklist.{raise, set_account_revoked_after}
use gosso.Token.Refresh.{Store, revoke_account_tokens}
use gosso.Session
use gosso.Session.{Session, Local}
use gosso.Session.Service
use gosso.Session.Service.{validate_session}
use gosso.Session.Manage.{revoke_all_for_account, del_all}
use gosso.Auth.PasswordReset.{PasswordResetData, Config}
use gosso.Auth.PasswordReset.Verify.{cleared, barred}

module _ (r : Redis) where
  open r use {Db, Text, get, set, del, smembers, smembers-set_ne, smembers-del_ne}

  -- The indexes of the accounts are the same.
  abbrev pub SameIndex : Db → Db → Type 0
  SameIndex d e = (a : String) → smembers e (account_sessions a) ≡ smembers d (account_sessions a)

  raise-index :
      (s : Store r) (account : String) (at seconds : ℕ) (d : Db)
      → SameIndex d (raise r s.raw s.epoch account at seconds d).1
  unfolding raise
  raise-index s account at seconds d a =
      elim (Option-cases (get d (account_revoked_after account))) [
        | inl missing ↦ rw (missing, raise) (smembers-set_ne d _ _ _ _ (λ p. cc))
        | inr (t, there) ↦ elim (Option-cases (s.epoch.decode t)) [
          | inl bad ↦ rw (there, bad, raise) refl
          | inr (cur, good) ↦ elim (Bool-cases (leb at cur)) [
            | inl later ↦ rw (there, good, later, raise) refl
            | inr earlier ↦ rw (there, good, earlier, raise) (smembers-set_ne d _ _ _ _ (λ p. cc))
          ]
        ]
      ]

  revoke-index :
      (s : Store r) (link : Link) (now : Time) (account : String) (d : Db)
      → SameIndex d (revoke_account_tokens r s link now account d).1
  unfolding revoke_account_tokens set_account_revoked_after
  revoke-index s up now account d a = raise-index s account (unix now) _ d a
  revoke-index s lost_request now account d a = refl
  revoke-index s lost_reply now account d a = raise-index s account (unix now) _ d a

  del_all-ok :
      (c : Session.Config r) (sids : List String) (d : Db) → (del_all r c up sids d).0 ≡ ok tt
  del_all-ok c [] d = refl
  del_all-ok c (sid ∷ rest) d = refl

  pub revoke_all-ok :
      (c : Session.Config r) (links : Service.Links) (account : String) (d : Db)
      → links.index ≡ up
      → links.write ≡ up
      → (revoke_all_for_account r c links account d).0 ≡ ok tt
  unfolding revoke_all_for_account
  revoke_all-ok c links account d e f = rw (e, f, revoke_all_for_account) (del_all-ok c _ _)

  module _ (c : Config r) where
    pub barred-index :
        (link : Link) (now : Time) (account : String) (d : Db)
        → SameIndex d (barred r c link now account d)
    barred-index link now account d a = elim (Option-cases c.token_revoker) [
      | inl missing ↦ rw missing refl
      | inr (s, there) ↦ rw there (revoke-index s link now account d a)
    ]

    pub cleared-index : (held : PasswordResetData) (d : Db) → SameIndex d (cleared r c held d)
    cleared-index held d a = elim (Option-cases c.clearer) [
      | inl missing ↦ rw missing refl
      | inr (f, there) ↦ rw there (f.keeps_index _ a d)
    ]
