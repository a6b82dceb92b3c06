-- ===== src/Token/Refresh/Validation.antt =====
-- token_service_validate.go, ValidateRefreshToken, and the revocation of an account's tokens.
use gosso.Prelude.{
  ℕ, ◌≤◌, ◌≡◌, ◌≢◌, refl, sym, ap, subst, ◌∙◌, ◌⊎◌, ◌↔◌, inl, inr, Option, none, some, String,
  arith, eq_iff, is_empty, Bool-cases, Result, ok, err,
}
use gosso.Redis.{Redis, Link, up, reading, absent, broken, present, refresh_token, session_tokens}
use gosso.Oauth2.Client.{Time}
use gosso.Token.{RefreshToken, TokenError}
use gosso.Token.Blacklist.{get_account_revoked_after}
use gosso.Token.Refresh.{
  Store, check_revoked, check_token, validate_refresh_token, store_refresh_token,
}

module _ (r : Redis) (s : Store r) where
  open r use {Db, Text, get, get-set, get-sadd, get-expire}

  -- Until when the tokens of the account are revoked, if Redis holds a record of it.
  abbrev pub revoked_after : Link → String → Db → Result TokenError Time
  revoked_after link account d = get_account_revoked_after r s.raw s.epoch link account d

  -- No revocation of the account came after the token was made.
  abbrev pub IsStanding : Link → Db → RefreshToken → Type 0
  IsStanding link d rt =
      (rt.account_id ≡ "")
      ⊎ ((t : Time) × (revoked_after link rt.account_id d ≡ ok t) × (t ≤ rt.created_at))

  -- What a token that is accepted is: stored under its hash, alive, and not revoked.
  pub record Accepted (link : Link) (now : Time) (token : String) (d : Db) (rt : RefreshToken)
      : Type 0 where
    pub text : Text
    pub stored : get d (refresh_token (s.hash_token token)) ≡ some text
    pub decoded : s.token_json.decode text ≡ some rt
    pub alive : now ≤ rt.expires_at
    pub dated : rt.expires_at ≢ 0
    pub standing : IsStanding link d rt

  check_revoked-ok :
      (rt out : RefreshToken) (a : Result TokenError Time)
      → check_revoked r s rt a ≡ ok out
      → (rt ≡ out) × ((t : Time) × (a ≡ ok t) × (t ≤ rt.created_at))
  unfolding check_revoked
  check_revoked-ok rt out (ok t) e = (ground arith, (t, refl, ground arith))
  check_revoked-ok rt out (err x) e = absurd (ground arith)

  check_token-ok :
      (link : Link) (now : Time) (d : Db) (rt out : RefreshToken)
      → check_token r s link now d (some rt) ≡ ok out
      → (rt ≡ out) × (now ≤ rt.expires_at) × (rt.expires_at ≢ 0) × IsStanding link d rt
  unfolding check_token
  check_token-ok link now d rt out e = elim (Bool-cases (is_empty rt.account_id)) [
    | inl nobody ↦ (
      ground (arith, nobody),
      ground (arith, nobody),
      ground (arith, nobody),
      inl (ground (arith, eq_iff rt.account_id "")),
    )
    | inr somebody ↦
        let c : check_revoked r s rt (revoked_after link rt.account_id d) ≡ ok out =
          ground (arith, somebody) in
        let (same, after) = check_revoked-ok rt out _ c in
        (same, ground (arith, somebody), ground (arith, somebody), inr after)
  ]

  check_text-ok :
      (link : Link) (now : Time) (d : Db) (o : Option RefreshToken) (out : RefreshToken)
      → check_token r s link now d o ≡ ok out
      → (o ≡ some out) × (now ≤ out.expires_at) × (out.expires_at ≢ 0) × IsStanding link d out
  unfolding check_token
  check_text-ok link now d none out e = absurd (ground arith)
  check_text-ok link now d (some rt) out e =
      let (same, alive, dated, standing) = check_token-ok link now d rt out e in
      let (alive', dated', standing') =
        subst (λ x. (now ≤ x.expires_at) × (x.expires_at ≢ 0) × IsStanding link d x) same
          (alive, dated, standing) in
      (ap some same, alive', dated', standing')

  pub validate-Accepted :
      (link again : Link) (now : Time) (token : String) (d : Db) (rt : RefreshToken)
      → validate_refresh_token r s link again now token d ≡ ok rt
      → Accepted again now token d rt
  unfolding validate_refresh_token
  validate-Accepted link again now token d rt e =
      elim (reading r link d (refresh_token (s.hash_token token))) [
        | absent a g ↦ absurd (ground (arith, rw (a, validate_refresh_token) at e))
        | broken a ↦ absurd (ground (arith, rw (a, validate_refresh_token) at e))
        | present t a g ↦
            let (decoded, alive, dated, standing) =
              check_text-ok again now d (s.token_json.decode t) rt
                (rw (a, validate_refresh_token) at e) in
            record {
              text = t;
              stored = g;
              decoded = decoded;
              alive = alive;
              dated = dated;
              standing = standing;
            }
      ]

  standing-ok :
      (rt : RefreshToken) (t : Time) → t ≤ rt.created_at → check_revoked r s rt (ok t) ≡ ok rt
  unfolding check_revoked
  standing-ok rt t l = ground arith

  Accepted-check :
      (link : Link) (now : Time) (d : Db) (rt : RefreshToken)
      → now ≤ rt.expires_at
      → rt.expires_at ≢ 0
      → IsStanding link d rt
      → check_token r s link now d (some rt) ≡ ok rt
  unfolding check_token
  Accepted-check link now d rt alive dated (inl nobody) =
      ground (arith, alive, dated, eq_iff rt.account_id "")
  Accepted-check link now d rt alive dated (inr (t, e, l)) = ground (
    arith,
    alive,
    dated,
    subst (λ x. check_revoked r s rt x ≡ ok rt) (sym e) (standing-ok rt t l),
  )

  Accepted-validate :
      (again : Link) (now : Time) (token : String) (d : Db) (rt : RefreshToken)
      → Accepted again now token d rt
      → validate_refresh_token r s up again now token d ≡ ok rt
  unfolding validate_refresh_token
  Accepted-validate again now token d rt a =
      rw (a.stored, validate_refresh_token)
        (rw a.decoded (Accepted-check again now d rt a.alive a.dated a.standing))

  -- When the read of the token goes through, a token is accepted exactly when it stands in Redis
  -- under its hash, has an expiry that has not passed, and, if it names an account, the account's
  -- revocation can be read and is not later than the token's creation.
  pub validate_refresh_token_iff :
      (again : Link) (now : Time) (token : String) (d : Db) (rt : RefreshToken)
      → (validate_refresh_token r s up again now token d ≡ ok rt) ↔ Accepted again now token d rt
  validate_refresh_token_iff again now token d rt =
      (validate-Accepted up again now token d rt, Accepted-validate again now token d rt)

  pub store_get :
      (hash session : String) (text : Text) (seconds : ℕ) (d : Db)
      → get (store_refresh_token r s hash session text seconds d).1 (refresh_token hash) ≡ some text
  unfolding store_refresh_token
  store_get hash session text seconds d = elim (Bool-cases (is_empty session)) [
    | inl e ↦ rw (e, store_refresh_token) (get-set d (refresh_token hash) text _)
    | inr e ↦
        rw (e, store_refresh_token)
          (get-expire _ (session_tokens session) (refresh_token hash) _
            ∙ get-sadd _ (session_tokens session) (refresh_token hash) hash
            ∙ get-set d (refresh_token hash) text _)
  ]
