-- ===== src/Token/Refresh/Script.antt =====
-- What rotateTokenScript of token_service_revoke.go leaves in Redis.
use gosso.Prelude.{
  ℕ, ◌*◌, ◌≡◌, ◌≢◌, refl, ◌∙◌, inl, inr, none, some, String, is_empty, Bool-cases, Option-cases,
}
use gosso.Redis.{
  Redis, Key, Reply, value, of_option, refresh_token, refresh_token_replay, session_tokens,
}
use gosso.Token.Refresh.{Store}
use gosso.Token.Refresh.Rotation.{reindex, rotate_script}

module _ (r : Redis) (s : Store r) where
  open r use {
    Db, Text, get, set, del, elapse, get-set, get-set_ne, get-del, get-del_ne, get-sadd, get-srem,
    get-expire, get-elapse,
  }

  pub get-reindex :
      (session old new : String) (seconds : ℕ) (d : Db) (k : Key)
      → get (reindex r s session old new seconds d) k ≡ get d k
  get-reindex session old new seconds d k = elim (Bool-cases (is_empty session)) [
    | inl e ↦ rw e refl
    | inr e ↦ rw e (
        get-expire _ (session_tokens session) k (1000 * seconds)
        ∙ get-sadd _ (session_tokens session) k new
        ∙ get-srem d (session_tokens session) k old)
  ]

  -- What the script comes to: it exchanges a token that is there, and else finds the replay.
  pub data Outcome (old : String) (replay : Text) (d : Db) (result : Reply Text × Db) : Type 0 where
    fresh :
        (t : Text)
        → get d (refresh_token old) ≡ some t
        → result.0 ≡ value replay
        → get result.1 (refresh_token old) ≡ none
        → get result.1 (refresh_token_replay old) ≡ some replay
        → Outcome old replay d result
    again :
        get d (refresh_token old) ≡ none
        → result ≡ (of_option (get d (refresh_token_replay old)), d)
        → Outcome old replay d result

  pub outcome :
      (old new : String) (seconds : ℕ) (text replay : Text) (d : Db)
      → new ≢ old
      → Outcome old replay d (rotate_script r s old new seconds text replay d)
  unfolding rotate_script
  outcome old new seconds text replay d n = elim (Option-cases (get d (refresh_token old))) [
    | inl e ↦ again e (rw (e, rotate_script) refl)
    | inr (t, e) ↦
        rw (e, rotate_script)
          (fresh t e refl
            (get-reindex (s.session_in t) old new seconds _ (refresh_token old)
              ∙ get-set_ne _ (refresh_token_replay old) (refresh_token old) replay _ (λ p. cc)
              ∙ get-set_ne _ (refresh_token new) (refresh_token old) text _ (λ p. n cc)
              ∙ get-del d (refresh_token old))
            (get-reindex (s.session_in t) old new seconds _ (refresh_token_replay old)
              ∙ get-set _ (refresh_token_replay old) replay _))
  ]
