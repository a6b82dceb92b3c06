-- ===== src/Token/Refresh/Sessions.antt =====
-- The index of a session's refresh tokens, and RevokeAllForSession: token_service_revoke.go.
use gosso.Prelude.{
  ℕ, ◌≡◌, ◌≢◌, refl, sym, subst, ◌∙◌, inl, inr, none, some, String, arith, true, false, is_empty,
  contains,
}
use gosso.Redis.{Redis, Key, refresh_token, refresh_token_replay, session_tokens}
use gosso.Redis.Keys.{Key-cases}
use gosso.Token.Refresh.{Store}

module _ (r : Redis) (s : Store r) where
  open r use {
    Db, Text, get, set, del, sadd, srem, expire, smembers, get-set, get-set_ne, get-del, get-del_ne,
    get-sadd, get-srem, get-expire, smembers-set_ne, smembers-del_ne, smembers-sadd,
    smembers-sadd_ne, smembers-srem_other, smembers-srem_ne, smembers-expire,
  }

  -- Every token of a session is in the session's set, but for those of one hash; and a session's
  -- key holds no string.
  pub record But (e : String) (d : Db) : Type 0 where
    pub listed :
        (h : String) (t : Text)
        → h ≢ e
        → get d (refresh_token h) ≡ some t
        → is_empty (s.session_in t) ≡ false
        → contains (smembers d (session_tokens (s.session_in t))) h ≡ true
    pub sets : (session : String) → get d (session_tokens session) ≡ none

  pub set-But :
      (e : String) (text : Text) (ms : ℕ) (d : Db)
      → But e d
      → But e (set d (refresh_token e) text ms)
  set-But e text ms d b = record {
    listed = λ h t n g f.
        rw (smembers-set_ne d (refresh_token e) (session_tokens (s.session_in t)) text ms (λ p. cc))
          (b.listed h t n
            (sym (get-set_ne d (refresh_token e) (refresh_token h) text ms (λ p. n cc)) ∙ g) f);
    sets = λ x. get-set_ne d (refresh_token e) (session_tokens x) text ms (λ p. cc) ∙ b.sets x;
  }

  pub replay-But :
      (e x : String) (text : Text) (ms : ℕ) (d : Db)
      → But e d
      → But e (set d (refresh_token_replay x) text ms)
  replay-But e x text ms d b = record {
    listed = λ h t n g f.
        rw
          (smembers-set_ne d (refresh_token_replay x) (session_tokens (s.session_in t)) text ms
            (λ p. cc))
          (b.listed h t n
            (sym (get-set_ne d (refresh_token_replay x) (refresh_token h) text ms (λ p. cc)) ∙ g)
            f);
    sets =
        λ y. get-set_ne d (refresh_token_replay x) (session_tokens y) text ms (λ p. cc) ∙ b.sets y;
  }

  get-del_some : (d : Db) (k j : Key) (t : Text) → get (del d k) j ≡ some t → get d j ≡ some t
  get-del_some d k j t g = elim (Key-cases k j) [
    | inl same ↦
        let gone = subst (λ x. get (del d k) x ≡ none) same (get-del d k) in
        absurd (ground (arith, gone, g))
    | inr differ ↦ sym (get-del_ne d k j differ) ∙ g
  ]

  pub del-But : (e x : String) (d : Db) → But e d → But e (del d (refresh_token x))
  del-But e x d b = record {
    listed = λ h t n g f.
        rw (smembers-del_ne d (refresh_token x) (session_tokens (s.session_in t)) (λ p. cc))
          (b.listed h t n (get-del_some d (refresh_token x) (refresh_token h) t g) f);
    sets = λ y. get-del_ne d (refresh_token x) (session_tokens y) (λ p. cc) ∙ b.sets y;
  }

  srem-contains :
      (d : Db) (k j : Key) (m h : String)
      → m ≢ h
      → contains (smembers (srem d k m) j) h ≡ contains (smembers d j) h
  srem-contains d k j m h n = elim (Key-cases k j) [
    | inl same ↦
        subst (λ x. contains (smembers (srem d k m) x) h ≡ contains (smembers d x) h) same
          (smembers-srem_other d k m h n)
    | inr differ ↦ rw (smembers-srem_ne d k j m differ) refl
  ]

  -- To take a hash off a set whose token is gone.
  pub srem-But :
      (e x session : String) (d : Db)
      → get d (refresh_token x) ≡ none
      → But e d
      → But e (srem d (session_tokens session) x)
  srem-But e x session d gone b = record {
    listed = λ h t n g f.
        let g' = sym (get-srem d (session_tokens session) (refresh_token h) x) ∙ g in
        let other : x ≢ h = λ p.
          (let none_here = subst (λ y. get d (refresh_token y) ≡ none) p gone in
            ground (arith, none_here, g')) in
        srem-contains d (session_tokens session) (session_tokens (s.session_in t)) x h other
        ∙ b.listed h t n g' f;
    sets = λ y. get-srem d (session_tokens session) (session_tokens y) x ∙ b.sets y;
  }

  sadd-contains :
      (d : Db) (k j : Key) (m h : String)
      → get d k ≡ none
      → contains (smembers d j) h ≡ true
      → contains (smembers (sadd d k m) j) h ≡ true
  sadd-contains d k j m h n c = elim (Key-cases k j) [
    | inl same ↦
        subst (λ x. contains (smembers d x) h ≡ true → contains (smembers (sadd d k m) x) h ≡ true)
          same (λ c'. ground (arith, smembers-sadd d k m h n, c')) c
    | inr differ ↦ rw (smembers-sadd_ne d k j m differ) c
  ]

  pub sadd-But :
      (e x session : String) (d : Db) → But e d → But e (sadd d (session_tokens session) x)
  sadd-But e x session d b = record {
    listed = λ h t n g f.
        sadd-contains d (session_tokens session) (session_tokens (s.session_in t)) x h
          (b.sets session)
          (b.listed h t n (sym (get-sadd d (session_tokens session) (refresh_token h) x) ∙ g) f);
    sets = λ y. get-sadd d (session_tokens session) (session_tokens y) x ∙ b.sets y;
  }

  pub expire-But : (e : String) (k : Key) (ms : ℕ) (d : Db) → But e d → But e (expire d k ms)
  expire-But e k ms d b = record {
    listed = λ h t n g f.
        rw (smembers-expire d k (session_tokens (s.session_in t)) ms)
          (b.listed h t n (sym (get-expire d k (refresh_token h) ms) ∙ g) f);
    sets = λ y. get-expire d k (session_tokens y) ms ∙ b.sets y;
  }
