-- ===== src/Token/Refresh/Logout.antt =====
-- token_service_revoke.go, RevokeAllForSession, after any calls of the token service.
use gosso.Prelude.{
  ℕ, ◌≡◌, ◌≢◌, sym, subst, ◌∙◌, inl, inr, none, some, List, [], ◌∷◌, String, arith, eq_iff, eq→path,
  true, false, is_empty, ◌==◌, contains, Bool-cases, Option-cases, leb, ok,
}
use gosso.Redis.{
  Redis, Link, up, lost_request, lost_reply, refresh_token, session_tokens, account_revoked_after,
}
use gosso.Token.Blacklist.{raise}
use gosso.Token.Refresh.{Store, del_each, revoke_session, revoke_all_for_session}
use gosso.Token.Refresh.Others.{Op, stores, exchanges, deletes, ends, raises, waits, act, acts}
use gosso.Token.Refresh.Ended.{
  IsIndexed, store-IsIndexed, rotate-IsIndexed, delete-IsIndexed, each-IsIndexed, each_same,
  each_gone,
}

module _ (r : Redis) (s : Store r) where
  open r use {
    Db, Text, get, set, del, smembers, get-set_ne, get-del_ne, smembers-set_ne, smembers-del_ne,
    get-del,
  }

  account-IsIndexed :
      (account : String) (text : Text) (ms : ℕ) (d : Db)
      → IsIndexed r s d
      → IsIndexed r s (set d (account_revoked_after account) text ms)
  account-IsIndexed account text ms d i = record {
    listed = λ h t g f.
        rw
          (smembers-set_ne d (account_revoked_after account) (session_tokens (s.session_in t)) text
            ms (λ p. cc))
          (i.listed h t
            (sym (get-set_ne d (account_revoked_after account) (refresh_token h) text ms (λ p. cc))
              ∙ g)
            f);
    sets = λ y.
        get-set_ne d (account_revoked_after account) (session_tokens y) text ms (λ p. cc)
        ∙ i.sets y;
  }

  raise-IsIndexed :
      (account : String) (at seconds : ℕ) (d : Db)
      → IsIndexed r s d
      → IsIndexed r s (raise r s.raw s.epoch account at seconds d).1
  unfolding raise
  raise-IsIndexed account at seconds d i =
      elim (Option-cases (get d (account_revoked_after account))) [
        | inl missing ↦ rw (missing, raise) (account-IsIndexed account _ _ d i)
        | inr (t, found) ↦ elim (Option-cases (s.epoch.decode t)) [
          | inl bad ↦ rw (found, raise, bad) i
          | inr (cur, good) ↦ elim (Bool-cases (leb at cur)) [
            | inl low ↦ rw (found, raise, good, low) i
            | inr high ↦ rw (found, raise, good, high) (account-IsIndexed account _ _ d i)
          ]
        ]
      ]

  -- What is left once the session's set was gone through is of other sessions.
  left_over :
      (session h : String) (t : Text) (d : Db)
      → IsIndexed r s d
      → is_empty session ≡ false
      → get (revoke_session r s session d).1 (refresh_token h) ≡ some t
      → s.session_in t ≢ session
  unfolding revoke_session
  left_over session h t d i f g same =
      let members = smembers d (session_tokens session) in
      let before = del_each r s members d in
      let here = sym (get-del_ne before (session_tokens session) (refresh_token h) (λ p. cc)) ∙ g in
      let listed =
        (each-IsIndexed r s members d i).listed h t here
          (subst (λ x. is_empty x ≡ false) (sym same) f) in
      let in_set : contains members h ≡ true =
        rw (each_same r s members d session) at (rw same at listed) in
      let gone = each_gone r s members d h in_set in ground (arith, gone, here)

  session-IsIndexed :
      (session : String) (d : Db)
      → is_empty session ≡ false
      → IsIndexed r s d
      → IsIndexed r s (revoke_session r s session d).1
  unfolding revoke_session
  session-IsIndexed session d f i =
      let before = del_each r s (smembers d (session_tokens session)) d in
      let b = each-IsIndexed r s (smembers d (session_tokens session)) d i in
      let key = session_tokens session in
      record {
        listed = λ h t g e.
            let other = left_over session h t d i f g in
            rw (smembers-del_ne before key (session_tokens (s.session_in t)) (λ p. other cc))
              (b.listed h t (sym (get-del_ne before key (refresh_token h) (λ p. cc)) ∙ g) e);
        sets = λ y. elim (Bool-cases (session == y)) [
          | inl same ↦
              subst (λ x. get (del before key) (session_tokens x) ≡ none) (eq→path session y same)
                (get-del before key)
          | inr differ ↦
              let other : session ≢ y = λ p. ground (arith, eq_iff session y) in
              get-del_ne before key (session_tokens y) (λ p. other cc) ∙ b.sets y
        ];
      }

  -- What the service sees to: a new token's text names the session that it is stored for, or that
  -- of the token that it replaces, and tokens are not made twice. Time is not among the calls.
  abbrev pub Fits : Op r s → Db → Type 0
  Fits (stores new session text seconds) d = s.session_in text ≡ session
  Fits (exchanges old new seconds text replay) d =
      (new ≢ old)
      × ((t : Text) → get d (refresh_token old) ≡ some t → s.session_in text ≡ s.session_in t)
  Fits (deletes hash) d = Unit {0}
  Fits (ends session) d = is_empty session ≡ false
  Fits (raises account at seconds) d = Unit {0}
  Fits (waits ms) d = false ≡ true

  act-IsIndexed : (o : Op r s) (d : Db) → Fits o d → IsIndexed r s d → IsIndexed r s (act r s o d)
  act-IsIndexed (stores new session text seconds) d e i =
      store-IsIndexed r s new session text seconds d e i
  act-IsIndexed (exchanges old new seconds text replay) d (n, e) i =
      rotate-IsIndexed r s old new seconds text replay d n e i
  act-IsIndexed (deletes hash) d e i = delete-IsIndexed r s hash d i
  act-IsIndexed (ends session) d e i = session-IsIndexed session d e i
  act-IsIndexed (raises account at seconds) d e i = raise-IsIndexed account at seconds d i
  act-IsIndexed (waits ms) d e i = absurd (ground arith)

  abbrev pub AllFit : List (Op r s) → Db → Type 0
  AllFit [] d = Unit {0}
  AllFit (o ∷ os) d = Fits o d × AllFit os (act r s o d)

  pub acts-IsIndexed :
      (os : List (Op r s)) (d : Db) → AllFit os d → IsIndexed r s d → IsIndexed r s (acts r s os d)
  unfolding acts
  acts-IsIndexed [] d a i = i
  acts-IsIndexed (o ∷ os) d (a, rest) i = acts-IsIndexed os _ rest (act-IsIndexed o d a i)

  -- After any scripts of the token service, when RevokeAllForSession succeeds, no refresh token
  -- that is left in Redis is of the session. At first the index holds, as it does where nothing is
  -- stored, and no time passes, which may end a session's set before its tokens.
  pub revoke_all_for_session-ends :
      (link : Link) (os : List (Op r s)) (session h : String) (t : Text) (d : Db)
      → IsIndexed r s d
      → AllFit os d
      → is_empty session ≡ false
      → (revoke_all_for_session r s link session (acts r s os d)).0 ≡ ok tt
      → get (revoke_all_for_session r s link session (acts r s os d)).1 (refresh_token h) ≡ some t
      → s.session_in t ≢ session
  unfolding revoke_all_for_session
  revoke_all_for_session-ends up os session h t d i a f e g =
      left_over session h t (acts r s os d) (acts-IsIndexed os d a i) f g
  revoke_all_for_session-ends lost_request os session h t d i a f e g = absurd (ground arith)
  revoke_all_for_session-ends lost_reply os session h t d i a f e g = absurd (ground arith)
