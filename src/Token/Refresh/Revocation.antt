-- ===== src/Token/Refresh/Revocation.antt =====
-- token_service_revoke.go, RevokeAccountTokens: the record of a revocation only moves forward, and
-- bars the refresh tokens that were made before it.
use gosso.Prelude.{
  ℕ, ◌≤◌, ◌<◌, ◌≡◌, ◌≢◌, refl, sym, subst, ◌∙◌, inl, inr, some, List, [], ◌∷◌, String, arith,
  eq_iff, ◌==◌, Bool-cases, Option-cases, eq→path, leb, ok,
}
use gosso.Redis.{Redis, failed, Link, up, lost_request, lost_reply, exec, account_revoked_after}
use gosso.Oauth2.Client.{Time}
use gosso.Oauth2.DeviceCode.Service.{unix, of_unix}
use gosso.Token.{RefreshToken}
use gosso.Token.Blacklist.{raise, set_account_revoked_after, after_text, get_account_revoked_after}
use gosso.Token.Refresh.{Store, validate_refresh_token, revoke_account_tokens}
use gosso.Token.Refresh.Quiet.{raise_same}
use gosso.Token.Refresh.Validation.{revoked_after, validate-Accepted}

module _ (r : Redis) (s : Store r) where
  open r use {Db, Text, get, set, get-set, get-set_ne}

  -- The tokens of the account made before the second are revoked.
  pub record Barred (account : String) (second : ℕ) (d : Db) : Type 0 where
    pub text : Text
    pub at : ℕ
    pub stored : get d (account_revoked_after account) ≡ some text
    pub decoded : s.epoch.decode text ≡ some at
    pub no_earlier : second ≤ at

  put-Barred :
      (account : String) (at ms : ℕ) (d : Db)
      → Barred account at (set d (account_revoked_after account) (s.epoch.encode at) ms)
  put-Barred account at ms d = record {
    text = s.epoch.encode at;
    at = at;
    stored = get-set d (account_revoked_after account) (s.epoch.encode at) ms;
    decoded = s.epoch.decode-encode at;
    no_earlier = omega arith;
  }

  less-Barred :
      (account : String) (low high : ℕ) (d : Db)
      → low ≤ high
      → Barred account high d
      → Barred account low d
  less-Barred account low high d l b = record {
    text = b.text;
    at = b.at;
    stored = b.stored;
    decoded = b.decoded;
    no_earlier = omega (arith, l, b.no_earlier);
  }

  -- A revocation takes effect, unless what is stored is no number.
  raise-Barred :
      (account : String) (at seconds : ℕ) (d : Db)
      → (raise r s.raw s.epoch account at seconds d).0 ≢ failed
      → Barred account at (raise r s.raw s.epoch account at seconds d).1
  unfolding raise
  raise-Barred account at seconds d n =
      elim (Option-cases (get d (account_revoked_after account))) [
        | inl missing ↦ rw (missing, raise) (put-Barred account at _ d)
        | inr (t, found) ↦ elim (Option-cases (s.epoch.decode t)) [
          | inl bad ↦ absurd (n (rw (found, raise, bad) refl))
          | inr (cur, good) ↦ elim (Bool-cases (leb at cur)) [
            | inl low ↦
                rw (found, raise, good, low)
                  (record {
                    text = t;
                    at = cur;
                    stored = found;
                    decoded = good;
                    no_earlier = ground arith;
                  })
            | inr high ↦ rw (found, raise, good, high) (put-Barred account at _ d)
          ]
        ]
      ]

  own-Barred :
      (account : String) (at seconds second : ℕ) (d : Db)
      → Barred account second d
      → Barred account second (raise r s.raw s.epoch account at seconds d).1
  unfolding raise
  own-Barred account at seconds second d b = elim (Bool-cases (leb at b.at)) [
    | inl low ↦ rw (b.stored, raise, b.decoded, low) b
    | inr high ↦
        rw (b.stored, raise, b.decoded, high)
          (less-Barred account second at _ (ground (arith, b.no_earlier))
            (put-Barred account at _ d))
  ]

  other-Barred :
      (account other : String) (at seconds second : ℕ) (d : Db)
      → account ≢ other
      → Barred other second d
      → Barred other second (raise r s.raw s.epoch account at seconds d).1
  other-Barred account other at seconds second d n b = record {
    text = b.text;
    at = b.at;
    stored =
        raise_same r s account at seconds d (account_revoked_after other) (λ p. n cc) ∙ b.stored;
    decoded = b.decoded;
    no_earlier = b.no_earlier;
  }

  -- No revocation, of the account or another, takes one back.
  raise-keeps-Barred :
      (account other : String) (at seconds second : ℕ) (d : Db)
      → Barred other second d
      → Barred other second (raise r s.raw s.epoch account at seconds d).1
  raise-keeps-Barred account other at seconds second d b = elim (Bool-cases (account == other)) [
    | inl same ↦
        subst (λ x. Barred other second (raise r s.raw s.epoch x at seconds d).1)
          (sym (eq→path account other same)) (own-Barred other at seconds second d b)
    | inr differ ↦
        other-Barred account other at seconds second d (λ p. ground (arith, eq_iff account other)) b
  ]

  exec-Barred :
      (link : Link) (account other : String) (at seconds second : ℕ) (d : Db)
      → Barred other second d
      → Barred other second (exec link (raise r s.raw s.epoch account at seconds) d).1
  exec-Barred up account other at seconds second d b =
      raise-keeps-Barred account other at seconds second d b
  exec-Barred lost_request account other at seconds second d b = b
  exec-Barred lost_reply account other at seconds second d b =
      raise-keeps-Barred account other at seconds second d b

  -- Further calls of RevokeAccountTokens.
  pub record Revocation : Type 0 where
    pub link : Link
    pub at : Time
    pub account : String

  pub revokes : List Revocation → Db → Db
  revokes [] d = d
  revokes (v ∷ vs) d = revokes vs (revoke_account_tokens r s v.link v.at v.account d).1

  revokes-Barred :
      (vs : List Revocation) (account : String) (second : ℕ) (d : Db)
      → Barred account second d
      → Barred account second (revokes vs d)
  unfolding revokes revoke_account_tokens set_account_revoked_after
  revokes-Barred [] account second d b = b
  revokes-Barred (v ∷ vs) account second d b =
      revokes-Barred vs account second _
        (exec-Barred v.link v.account account (unix v.at) _ second d b)

  revoke-Barred :
      (link : Link) (now : Time) (account : String) (d : Db)
      → (revoke_account_tokens r s link now account d).0 ≡ ok tt
      → Barred account (unix now) (revoke_account_tokens r s link now account d).1
  unfolding revoke_account_tokens set_account_revoked_after
  revoke-Barred up now account d e =
      raise-Barred account (unix now) _ d (λ f. ground (arith, rw f at e))
  revoke-Barred lost_request now account d e = absurd (ground arith)
  revoke-Barred lost_reply now account d e = absurd (ground arith)

  read-Barred :
      (link : Link) (account : String) (second : ℕ) (d : Db) (t : Time)
      → Barred account second d
      → revoked_after r s link account d ≡ ok t
      → of_unix second ≤ t
  unfolding get_account_revoked_after after_text of_unix
  read-Barred up account second d t b e =
      let now_at : of_unix b.at ≡ t = ground (arith, rw (b.stored, after_text, b.decoded) at e) in
      ground (arith, b.no_earlier, now_at)
  read-Barred lost_request account second d t b e = absurd (ground arith)
  read-Barred lost_reply account second d t b e = absurd (ground arith)

  -- After RevokeAccountTokens has succeeded for an account, and after any further calls of it for
  -- any accounts, no refresh token of the account that was made before the second of the call is
  -- accepted. The passing of time, which ends the record, is not among the calls.
  pub revoke_account_tokens-refuses :
      (link link' again : Link) (now later : Time) (account token : String) (vs : List Revocation)
      (d : Db) (rt : RefreshToken)
      → account ≢ ""
      → rt.account_id ≡ account
      → rt.created_at < of_unix (unix now)
      → (revoke_account_tokens r s link now account d).0 ≡ ok tt
      → validate_refresh_token r s link' again later token
          (revokes vs (revoke_account_tokens r s link now account d).1)
        ≢ ok rt
  revoke_account_tokens-refuses link link' again now later account token vs d rt n own early e v =
      let d' = revokes vs (revoke_account_tokens r s link now account d).1 in
      let barred = revokes-Barred vs account (unix now) _ (revoke-Barred link now account d e) in
      elim (validate-Accepted r s link' again later token d' rt v).standing [
        | inl nobody ↦ n (sym own ∙ nobody)
        | inr (t, known, l) ↦
            let bound =
              read-Barred again account (unix now) d' t barred
                (subst (λ a. revoked_after r s again a d' ≡ ok t) own known) in
            omega (arith, early, bound, l)
      ]
