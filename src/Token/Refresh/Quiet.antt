-- ===== src/Token/Refresh/Quiet.antt =====
-- token_service.go, token_service_validate.go, token_service_revoke.go: the scripts of other calls
-- leave an exchange that is under way alone.
use gosso.Prelude.{
  ℕ, ◌≡◌, ◌≢◌, refl, sym, subst, ◌∙◌, ◌⊎◌, inl, inr, none, List, [], ◌∷◌, String, arith, eq_iff,
  eq→path, is_empty, ◌==◌, Bool-cases, Option-cases, leb,
}
use gosso.Redis.{
  Redis, Key, refresh_token, refresh_token_replay, session_tokens, account_revoked_after,
}
use gosso.Redis.Keys.{Key-cases}
use gosso.Token.Blacklist.{raise}
use gosso.Token.Refresh.{Store, store_refresh_token, delete_token, del_each, revoke_session}
use gosso.Token.Refresh.Rotation.{rotate_script}
use gosso.Token.Refresh.Script.{get-reindex, outcome, fresh, again}
use gosso.Token.Refresh.Rotated.{Quiet}

module _ (r : Redis) (s : Store r) where
  open r use {
    Db, Text, get, set, del, sadd, srem, expire, smembers, elapse, get-set_ne, get-del, get-del_ne,
    get-sadd, get-srem, get-expire,
  }

  -- A key keeps its value or loses it.
  abbrev pub Drops : Key → Db → Db → Type 0
  Drops k d d' = (get d' k ≡ get d k) ⊎ (get d' k ≡ none)

  pub Drops-Quiet :
      (h : String) (f : Db → Db)
      → ((d : Db) → Drops (refresh_token h) d (f d))
      → ((d : Db) → Drops (refresh_token_replay h) d (f d))
      → Quiet r s h f
  Drops-Quiet h f a b = record {
    keeps_not_both = λ d o. ground (arith, a d, b d);
    stays_gone = λ d g. ground (arith, a d);
    keeps_replay = λ d g. b d;
  }

  pub get-store :
      (hash session : String) (text : Text) (seconds : ℕ) (d : Db) (k : Key)
      → refresh_token hash ≢ k
      → get (store_refresh_token r s hash session text seconds d).1 k ≡ get d k
  unfolding store_refresh_token
  get-store hash session text seconds d k n = elim (Bool-cases (is_empty session)) [
    | inl e ↦ rw (e, store_refresh_token) (get-set_ne d (refresh_token hash) k text _ n)
    | inr e ↦
        rw (e, store_refresh_token)
          (get-expire _ (session_tokens session) k _
            ∙ get-sadd _ (session_tokens session) k hash
            ∙ get-set_ne d (refresh_token hash) k text _ n)
  ]

  -- Storing another token.
  pub store-Quiet :
      (h hash session : String) (text : Text) (seconds : ℕ)
      → hash ≢ h
      → Quiet r s h (λ d. (store_refresh_token r s hash session text seconds d).1)
  store-Quiet h hash session text seconds n =
      Drops-Quiet h _
        (λ d. inl (get-store hash session text seconds d (refresh_token h) (λ p. n cc)))
        (λ d. inl (get-store hash session text seconds d (refresh_token_replay h) (λ p. cc)))

  del-Drops : (d : Db) (k j : Key) → Drops j d (del d k)
  del-Drops d k j = elim (Key-cases k j) [
    | inl same ↦ inr (subst (λ x. get (del d k) x ≡ none) same (get-del d k))
    | inr differ ↦ inl (get-del_ne d k j differ)
  ]

  pub delete-Drops : (hash : String) (d : Db) (k : Key) → Drops k d (delete_token r s hash d).1
  unfolding delete_token
  delete-Drops hash d k = elim (Option-cases (get d (refresh_token hash))) [
    | inl missing ↦ rw (missing, delete_token) (inl refl)
    | inr (t, found) ↦ elim (Bool-cases (is_empty (s.session_in t))) [
      | inl e ↦ rw (found, delete_token, e) (del-Drops d (refresh_token hash) k)
      | inr e ↦
          rw (found, delete_token, e)
            (rw (get-srem (del d (refresh_token hash)) (session_tokens (s.session_in t)) k hash)
              (del-Drops d (refresh_token hash) k))
    ]
  ]

  Drops-Drops : (k : Key) (d e f : Db) → Drops k d e → Drops k e f → Drops k d f
  Drops-Drops k d e f a b = ground (arith, a, b)

  pub each-Drops : (hashes : List String) (d : Db) (k : Key) → Drops k d (del_each r s hashes d)
  unfolding del_each
  each-Drops [] d k = inl refl
  each-Drops (hash ∷ rest) d k =
      Drops-Drops k d (del d (refresh_token hash)) _ (del-Drops d (refresh_token hash) k)
        (each-Drops rest (del d (refresh_token hash)) k)

  pub session-Drops :
      (session : String) (d : Db) (k : Key) → Drops k d (revoke_session r s session d).1
  unfolding revoke_session
  session-Drops session d k =
      let deleted = del_each r s (smembers d (session_tokens session)) d in
      Drops-Drops k d deleted _ (each-Drops (smembers d (session_tokens session)) d k)
        (del-Drops deleted (session_tokens session) k)

  pub raise_same :
      (account : String) (at seconds : ℕ) (d : Db) (k : Key)
      → account_revoked_after account ≢ k
      → get (raise r s.raw s.epoch account at seconds d).1 k ≡ get d k
  unfolding raise
  raise_same account at seconds d k n =
      elim (Option-cases (get d (account_revoked_after account))) [
        | inl missing ↦ rw (missing, raise) (get-set_ne d (account_revoked_after account) k _ _ n)
        | inr (t, found) ↦ elim (Option-cases (s.epoch.decode t)) [
          | inl bad ↦ rw (found, raise, bad) refl
          | inr (cur, good) ↦ elim (Bool-cases (leb at cur)) [
            | inl low ↦ rw (found, raise, good, low) refl
            | inr high ↦
                rw (found, raise, good, high) (get-set_ne d (account_revoked_after account) k _ _ n)
          ]
        ]
      ]

  rotate_same :
      (old new : String) (seconds : ℕ) (text replay : Text) (d : Db) (k : Key)
      → refresh_token old ≢ k
      → refresh_token new ≢ k
      → refresh_token_replay old ≢ k
      → get (rotate_script r s old new seconds text replay d).1 k ≡ get d k
  unfolding rotate_script
  rotate_same old new seconds text replay d k a b c =
      elim (Option-cases (get d (refresh_token old))) [
        | inl missing ↦ rw (missing, rotate_script) refl
        | inr (t, found) ↦
            rw (found, rotate_script)
              (get-reindex r s (s.session_in t) old new seconds _ k
                ∙ get-set_ne _ (refresh_token_replay old) k replay _ c
                ∙ get-set_ne _ (refresh_token new) k text _ b
                ∙ get-del_ne d (refresh_token old) k a)
      ]

  own-Quiet :
      (h new : String) (seconds : ℕ) (text replay : Text)
      → new ≢ h
      → Quiet r s h (λ d. (rotate_script r s h new seconds text replay d).1)
  own-Quiet h new seconds text replay n = record {
    keeps_not_both = λ d o. elim (outcome r s h new seconds text replay d n) [
      | fresh t g v gone kept ↦ inl gone
      | again g eq ↦ rw eq (inl g)
    ];
    stays_gone = λ d g. elim (outcome r s h new seconds text replay d n) [
      | fresh t g' v gone kept ↦ gone
      | again g' eq ↦ rw eq g
    ];
    keeps_replay = λ d g. elim (outcome r s h new seconds text replay d n) [
      | fresh t g' v gone kept ↦ absurd (ground (arith, g, g'))
      | again g' eq ↦ rw eq (inl refl)
    ];
  }

  -- Another exchange, of the same token or another.
  pub rotate-Quiet :
      (h old new : String) (seconds : ℕ) (text replay : Text)
      → new ≢ h
      → Quiet r s h (λ d. (rotate_script r s old new seconds text replay d).1)
  rotate-Quiet h old new seconds text replay n = elim (Bool-cases (old == h)) [
    | inl same ↦
        subst (λ o. Quiet r s h (λ d. (rotate_script r s o new seconds text replay d).1))
          (sym (eq→path old h same)) (own-Quiet h new seconds text replay n)
    | inr differ ↦
        let other : old ≢ h = λ p. ground (arith, eq_iff old h) in
        Drops-Quiet h _
          (λ d. inl (
            rotate_same old new seconds text replay d (refresh_token h) (λ p. other cc) (λ p. n cc)
              (λ p. cc)))
          (λ d. inl (
            rotate_same old new seconds text replay d (refresh_token_replay h) (λ p. cc) (λ p. cc)
              (λ p. other cc)))
  ]
