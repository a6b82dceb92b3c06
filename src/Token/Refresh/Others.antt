-- ===== src/Token/Refresh/Others.antt =====
-- token_service.go, token_service_validate.go, token_service_revoke.go: an exchange among any
-- other calls of the token service.
use gosso.Prelude.{ℕ, ◌≡◌, ◌≢◌, refl, inl, some, List, [], ◌∷◌, String, arith, All, ok}
use gosso.Redis.{Redis, refresh_token, refresh_token_replay}
use gosso.Token.Blacklist.{raise}
use gosso.Token.Refresh.{Store, store_refresh_token, delete_token, revoke_session}
use gosso.Oauth2.Client.{Time}
use gosso.Token.{RefreshToken}
use gosso.Token.Refresh.Rotation.{Links, rotate_script, rotate_refresh_token}
use gosso.Token.Refresh.Rotated.{NotBoth, Quiet, elapse-Quiet}
use gosso.Token.Refresh.Once.{rotate_once}
use gosso.Token.Refresh.Quiet.{
  Drops-Quiet, store-Quiet, delete-Drops, session-Drops, raise_same, rotate-Quiet,
}

module _ (r : Redis) (s : Store r) where
  open r use {
    Db, Text, get, set, del, sadd, srem, expire, smembers, elapse, get-set_ne, get-del, get-del_ne,
    get-sadd, get-srem, get-expire,
  }

  -- The scripts of the token service, and time. The hash of a token that is made is `new`.
  pub data Op : Type 0 where
    stores : (new session : String) → Text → ℕ → Op
    exchanges : (old new : String) → ℕ → Text → Text → Op
    deletes : String → Op
    ends : (session : String) → Op
    raises : (account : String) → ℕ → ℕ → Op
    waits : ℕ → Op

  abbrev pub act : Op → Db → Db
  act (stores new session text seconds) d = (store_refresh_token r s new session text seconds d).1
  act (exchanges old new seconds text replay) d =
      (rotate_script r s old new seconds text replay d).1
  act (deletes hash) d = (delete_token r s hash d).1
  act (ends session) d = (revoke_session r s session d).1
  act (raises account at seconds) d = (raise r s.raw s.epoch account at seconds d).1
  act (waits ms) d = elapse d ms

  unfoldable pub acts : List Op → Db → Db
  acts [] d = d
  acts (o ∷ os) d = acts os (act o d)

  -- The token of the hash is not made again.
  abbrev pub Avoids : String → Op → Type 0
  Avoids h (stores new session text seconds) = new ≢ h
  Avoids h (exchanges old new seconds text replay) = new ≢ h
  Avoids h _ = Unit {0}

  act-Quiet : (h : String) (o : Op) → Avoids h o → Quiet r s h (act o)
  act-Quiet h (stores new session text seconds) n = store-Quiet r s h new session text seconds n
  act-Quiet h (exchanges old new seconds text replay) n =
      rotate-Quiet r s h old new seconds text replay n
  act-Quiet h (deletes hash) n =
      Drops-Quiet r s h _ (λ d. delete-Drops r s hash d (refresh_token h))
        (λ d. delete-Drops r s hash d (refresh_token_replay h))
  act-Quiet h (ends session) n =
      Drops-Quiet r s h _ (λ d. session-Drops r s session d (refresh_token h))
        (λ d. session-Drops r s session d (refresh_token_replay h))
  act-Quiet h (raises account at seconds) n =
      Drops-Quiet r s h _
        (λ d. inl (raise_same r s account at seconds d (refresh_token h) (λ p. cc)))
        (λ d. inl (raise_same r s account at seconds d (refresh_token_replay h) (λ p. cc)))
  act-Quiet h (waits ms) n = elapse-Quiet r s h ms

  then-Quiet :
      (h : String) (f g : Db → Db) → Quiet r s h f → Quiet r s h g → Quiet r s h (λ d. g (f d))
  then-Quiet h f g a b = record {
    keeps_not_both = λ d o. b.keeps_not_both (f d) (a.keeps_not_both d o);
    stays_gone = λ d n. b.stays_gone (f d) (a.stays_gone d n);
    keeps_replay =
        λ d n. ground (arith, a.keeps_replay d n, b.keeps_replay (f d) (a.stays_gone d n));
  }

  -- Any calls of the token service, of any clients, none of which makes the token of the hash
  -- again, are quiet on it.
  acts-Quiet : (h : String) (os : List Op) → All (Avoids h) os → Quiet r s h (acts os)
  unfolding acts
  acts-Quiet h [] n = Drops-Quiet r s h _ (λ d. inl refl) (λ d. inl refl)
  acts-Quiet h (o ∷ os) (n, ns) =
      then-Quiet h (act o) (acts os) (act-Quiet h o n) (acts-Quiet h os ns)

  -- Two exchanges of one token that both give out a token give out the same one, whatever scripts
  -- of the token service run and whatever time passes between their calls and between the two, as
  -- long as no one makes the old token again, and whatever the network does. At first the token and
  -- its replay are not both in Redis.
  pub exchange_once :
      (links links' : Links) (others between others' : List Op) (token token' : String)
      (now later : Time) (old : String) (d : Db) (rt rt' : RefreshToken)
      → let h = s.hash_token old in
        All (Avoids h) others
        → All (Avoids h) between
        → All (Avoids h) others'
        → s.hash_token token ≢ h
        → s.hash_token token' ≢ h
        → NotBoth r s h d
        → (rotate_refresh_token r s links (acts others) (some token) now old d).0 ≡ ok rt
        → let d' =
            acts between (rotate_refresh_token r s links (acts others) (some token) now old d).1 in
          (rotate_refresh_token r s links' (acts others') (some token') later old d').0 ≡ ok rt'
          → rt' ≡ rt
  exchange_once links links' others between others' token token' now later old d rt rt' a b a' =
      let h = s.hash_token old in
      rotate_once r s links links' (acts others) (acts between) (acts others') token token' now
        later old d rt rt' (acts-Quiet h others a) (acts-Quiet h between b)
        (acts-Quiet h others' a')
