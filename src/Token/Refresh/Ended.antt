-- ===== src/Token/Refresh/Ended.antt =====
-- The scripts of the token service keep the index of the sessions, and with it RevokeAllForSession
-- ends a session: no refresh token of it is left.
use gosso.Prelude.{
  ℕ, ◌*◌, ◌≡◌, ◌≢◌, refl, sym, ap, subst, ◌∙◌, inl, inr, none, some, List, [], ◌∷◌, String, arith,
  eq_iff, eq→path, eq_self, true, false, is_empty, ◌==◌, contains, Bool-cases, Option-cases,
}
use gosso.Redis.{Redis, refresh_token, refresh_token_replay, session_tokens}
use gosso.Token.Refresh.{
  Store, store_refresh_token, delete_token, del_each, refresh_token_replay_seconds,
}
use gosso.Token.Refresh.Rotation.{reindex, rotate_script}
use gosso.Token.Refresh.Script.{get-reindex}
use gosso.Token.Refresh.Validation.{store_get}
use gosso.Token.Refresh.Quiet.{each-Drops}
use gosso.Token.Refresh.Sessions.{But, set-But, replay-But, del-But, srem-But, sadd-But, expire-But}

module _ (r : Redis) (s : Store r) where
  open r use {
    Db, Text, get, set, del, sadd, srem, expire, smembers, get-set, get-set_ne, get-del, get-del_ne,
    smembers-del_ne, smembers-sadd, smembers-expire, get-srem,
  }

  -- Every token of a session is in the session's set.
  pub record IsIndexed (d : Db) : Type 0 where
    pub listed :
        (h : String) (t : Text)
        → get d (refresh_token h) ≡ some t
        → is_empty (s.session_in t) ≡ false
        → contains (smembers d (session_tokens (s.session_in t))) h ≡ true
    pub sets : (session : String) → get d (session_tokens session) ≡ none

  abbrev HasListed : String → Db → Type 0
  HasListed e d =
      (t : Text)
      → get d (refresh_token e) ≡ some t
      → is_empty (s.session_in t) ≡ false
      → contains (smembers d (session_tokens (s.session_in t))) e ≡ true

  close : (e : String) (d : Db) → But r s e d → HasListed e d → IsIndexed d
  close e d b own = record {
    listed = λ h t g f. elim (Bool-cases (h == e)) [
      | inl same ↦ subst (λ x. HasListed x d) (sym (eq→path h e same)) own t g f
      | inr differ ↦ b.listed h t (λ p. ground (arith, eq_iff h e)) g f
    ];
    sets = b.sets;
  }

  but : (e : String) (d : Db) → IsIndexed d → But r s e d
  but e d i = record { listed = λ h t n g f. i.listed h t g f; sets = i.sets }

  del-IsIndexed : (x : String) (d : Db) → IsIndexed d → IsIndexed (del d (refresh_token x))
  del-IsIndexed x d i =
      close x _ (del-But r s x x d (but x d i))
        (λ t g f. absurd (ground (arith, g, get-del d (refresh_token x))))

  -- A token that was put in its session's set is listed.
  added :
      (d : Db) (new session : String) (text : Text) (ms : ℕ)
      → s.session_in text ≡ session
      → get d (session_tokens session) ≡ none
      → get
          (expire (sadd d (session_tokens session) new) (session_tokens session) ms)
          (refresh_token new)
        ≡ some text
      → HasListed new (expire (sadd d (session_tokens session) new) (session_tokens session) ms)
  added d new session text ms e n stored t g f =
      let same : t ≡ text = ground (arith, g, stored) in
      let at : s.session_in t ≡ session = ap s.session_in same ∙ e in
      rw at (
        rw
          (smembers-expire (sadd d (session_tokens session) new) (session_tokens session)
            (session_tokens session) ms)
          (ground (arith, smembers-sadd d (session_tokens session) new new n, eq_self new)))

  pub store-IsIndexed :
      (new session : String) (text : Text) (seconds : ℕ) (d : Db)
      → s.session_in text ≡ session
      → IsIndexed d
      → IsIndexed (store_refresh_token r s new session text seconds d).1
  unfolding store_refresh_token
  store-IsIndexed new session text seconds d e i =
      let key = session_tokens session in
      let ms = 1000 * seconds in
      let kept = set-But r s new text ms d (but new d i) in
      let stored = store_get r s new session text seconds d in
      elim (Bool-cases (is_empty session)) [
        | inl none_given ↦
            rw (none_given, store_refresh_token)
              (close new _ kept (λ t g f.
                let same : t ≡ text = ground (arith, g, get-set d (refresh_token new) text ms) in
                absurd (ground (arith, ap s.session_in same, e, f, none_given))))
        | inr given ↦
            rw (given, store_refresh_token)
              (close new _ (expire-But r s new key ms _ (sadd-But r s new new session _ kept)) (
                added (set d (refresh_token new) text ms) new session text ms e (kept.sets session)
                  (rw (given, store_refresh_token) at stored)))
      ]

  -- The state after the exchange but for the index.
  exchanged-But :
      (old new : String) (text replay : Text) (ms ms' : ℕ) (d : Db)
      → IsIndexed d
      → But r s new (
          set
            (set (del d (refresh_token old)) (refresh_token new) text ms)
            (refresh_token_replay old)
            replay
            ms')
  exchanged-But old new text replay ms ms' d i =
      replay-But r s new old replay ms' _
        (set-But r s new text ms _ (but new _ (del-IsIndexed old d i)))

  exchanged_new :
      (old new : String) (text replay : Text) (ms ms' : ℕ) (d : Db)
      → get
          (set
            (set (del d (refresh_token old)) (refresh_token new) text ms)
            (refresh_token_replay old)
            replay
            ms')
          (refresh_token new)
        ≡ some text
  exchanged_new old new text replay ms ms' d =
      get-set_ne _ (refresh_token_replay old) (refresh_token new) replay ms' (λ p. cc)
      ∙ get-set _ (refresh_token new) text ms

  exchanged_old :
      (old new : String) (text replay : Text) (ms ms' : ℕ) (d : Db)
      → new ≢ old
      → get
          (set
            (set (del d (refresh_token old)) (refresh_token new) text ms)
            (refresh_token_replay old)
            replay
            ms')
          (refresh_token old)
        ≡ none
  exchanged_old old new text replay ms ms' d n =
      get-set_ne _ (refresh_token_replay old) (refresh_token old) replay ms' (λ p. cc)
      ∙ get-set_ne _ (refresh_token new) (refresh_token old) text ms (λ p. n cc)
      ∙ get-del d (refresh_token old)

  reindex-IsIndexed :
      (session old new : String) (seconds : ℕ) (text : Text) (d : Db)
      → s.session_in text ≡ session
      → get d (refresh_token old) ≡ none
      → get d (refresh_token new) ≡ some text
      → But r s new d
      → IsIndexed (reindex r s session old new seconds d)
  reindex-IsIndexed session old new seconds text d e gone there b =
      let key = session_tokens session in
      let ms = 1000 * seconds in
      let off = srem-But r s new old session d gone b in
      let stands = get-reindex r s session old new seconds d (refresh_token new) ∙ there in
      elim (Bool-cases (is_empty session)) [
        | inl nowhere ↦ rw nowhere (
            close new d b (λ t g f.
              let same : t ≡ text = ground (arith, g, there) in
              absurd (ground (arith, ap s.session_in same, e, f, nowhere))))
        | inr somewhere ↦ rw somewhere (
            close new _ (expire-But r s new key ms _ (sadd-But r s new new session _ off)) (
              added (srem d key old) new session text ms e (off.sets session)
                (rw somewhere at stands)))
      ]

  pub rotate-IsIndexed :
      (old new : String) (seconds : ℕ) (text replay : Text) (d : Db)
      → new ≢ old
      → ((t : Text) → get d (refresh_token old) ≡ some t → s.session_in text ≡ s.session_in t)
      → IsIndexed d
      → IsIndexed (rotate_script r s old new seconds text replay d).1
  unfolding rotate_script
  rotate-IsIndexed old new seconds text replay d n e i =
      elim (Option-cases (get d (refresh_token old))) [
        | inl missing ↦ rw (missing, rotate_script) i
        | inr (t, found) ↦
            let ms = 1000 * seconds in
            let ms' = 1000 * refresh_token_replay_seconds in
            rw (found, rotate_script)
              (reindex-IsIndexed (s.session_in t) old new seconds text _ (e t found)
                (exchanged_old old new text replay ms ms' d n)
                (exchanged_new old new text replay ms ms' d)
                (exchanged-But old new text replay ms ms' d i))
      ]

  srem-IsIndexed :
      (x session : String) (d : Db)
      → get d (refresh_token x) ≡ none
      → IsIndexed d
      → IsIndexed (srem d (session_tokens session) x)
  srem-IsIndexed x session d gone i =
      close x _ (srem-But r s x x session d gone (but x d i)) (λ t g f.
        absurd (ground (arith, g, gone, get-srem d (session_tokens session) (refresh_token x) x)))

  pub delete-IsIndexed : (x : String) (d : Db) → IsIndexed d → IsIndexed (delete_token r s x d).1
  unfolding delete_token
  delete-IsIndexed x d i =
      let gone = del-IsIndexed x d i in
      elim (Option-cases (get d (refresh_token x))) [
        | inl missing ↦ rw (missing, delete_token) i
        | inr (t, found) ↦ elim (Bool-cases (is_empty (s.session_in t))) [
          | inl e ↦ rw (found, delete_token, e) gone
          | inr e ↦
              rw (found, delete_token, e)
                (srem-IsIndexed x (s.session_in t) _ (get-del d (refresh_token x)) gone)
        ]
      ]

  pub each-IsIndexed :
      (hashes : List String) (d : Db) → IsIndexed d → IsIndexed (del_each r s hashes d)
  unfolding del_each
  each-IsIndexed [] d i = i
  each-IsIndexed (x ∷ rest) d i = each-IsIndexed rest _ (del-IsIndexed x d i)

  pub each_same :
      (hashes : List String) (d : Db) (session : String)
      → smembers (del_each r s hashes d) (session_tokens session)
        ≡ smembers d (session_tokens session)
  unfolding del_each
  each_same [] d session = refl
  each_same (x ∷ rest) d session =
      each_same rest (del d (refresh_token x)) session
      ∙ smembers-del_ne d (refresh_token x) (session_tokens session) (λ p. cc)

  pub each_gone :
      (hashes : List String) (d : Db) (h : String)
      → contains hashes h ≡ true
      → get (del_each r s hashes d) (refresh_token h) ≡ none
  unfolding del_each contains
  each_gone [] d h c = absurd (ground arith)
  each_gone (x ∷ rest) d h c = elim (Bool-cases (x == h)) [
    | inl same ↦
        let gone =
          subst (λ y. get (del d (refresh_token x)) (refresh_token y) ≡ none) (eq→path x h same)
            (get-del d (refresh_token x)) in
        ground (arith, gone, each-Drops r s rest (del d (refresh_token x)) (refresh_token h))
    | inr differ ↦ each_gone rest (del d (refresh_token x)) h (ground (arith, differ))
  ]
