-- ===== src/Token/Refresh/Once.antt =====
-- One refresh token is exchanged for one new token, whatever happens at the same time and whatever
-- the network does: token_service_revoke.go, RotateRefreshToken.
use gosso.Prelude.{
  ◌≡◌, ◌≢◌, refl, sym, subst, ◌⊎◌, inl, Option, none, some, String, arith, Result, ok, err,
}
use gosso.Redis.{reading, absent, broken, present, Redis, refresh_token, refresh_token_replay}
use gosso.Oauth2.Client.{Time}
use gosso.Token.{RefreshToken, TokenError, new_refresh_token}
use gosso.Token.Refresh.{Store}
use gosso.Token.Refresh.Rotation.{Links, write_rotation, renewed, rotate_refresh_token, renew}
use gosso.Token.Refresh.Rotated.{NotBoth, Quiet, Rotated, write-Rotated, replay-Rotated}

module _ (r : Redis) (s : Store r) where
  open r use {
    Db, Text, get, set, del, elapse, get-set, get-set_ne, get-del, get-del_ne, get-sadd, get-srem,
    get-expire, get-elapse,
  }

  renew_token :
      (now : Time) (token : String) (old : Option RefreshToken) (new : RefreshToken)
      → renewed r s now token old ≡ ok new
      → new.token ≡ token
  unfolding renew new_refresh_token
  renew_token now token none new e = absurd (ground arith)
  renew_token now token (some old) new e = ground arith

  written-Rotated :
      (links : Links) (now : Time) (h token : String) (new : Result TokenError RefreshToken)
      (rt : RefreshToken) (d : Db)
      → ((n : RefreshToken) → new ≡ ok n → n.token ≡ token)
      → s.hash_token token ≢ h
      → NotBoth r s h d
      → (write_rotation r s links now h new d).0 ≡ ok rt
      → Rotated r s h (write_rotation r s links now h new d).1 rt
  unfolding write_rotation
  written-Rotated links now h token (ok new) rt d k n o e =
      write-Rotated r s links links.rotate now h new rt d refl
        (subst (λ t. s.hash_token t ≢ h) (sym (k new refl)) n) o e
  written-Rotated links now h token (err x) rt d k n o e = absurd (ground arith)

  -- What a rotation has done when it gives out a token: the old token is gone, and its replay gives
  -- the same token. It may be taken up by others between its calls.
  pub rotate-Rotated :
      (links : Links) (others : Db → Db) (token : String) (now : Time) (old : String) (d : Db)
      (rt : RefreshToken)
      → Quiet r s (s.hash_token old) others
      → s.hash_token token ≢ s.hash_token old
      → NotBoth r s (s.hash_token old) d
      → (rotate_refresh_token r s links others (some token) now old d).0 ≡ ok rt
      → Rotated r s
          (s.hash_token old)
          (rotate_refresh_token r s links others (some token) now old d).1
          rt
  unfolding rotate_refresh_token
  rotate-Rotated links others token now old d rt q n o e =
      elim (reading r links.load d (refresh_token (s.hash_token old))) [
        | absent a g ↦
            rw (a, rotate_refresh_token)
              (replay-Rotated r s links now (s.hash_token old) (others d) rt (q.keeps_not_both d o)
                (rw (a, rotate_refresh_token) at e))
        | broken a ↦ absurd (ground (arith, rw (a, rotate_refresh_token) at e))
        | present t a g ↦
            rw (a, rotate_refresh_token)
              (written-Rotated links now (s.hash_token old) token _ rt (others d)
                (renew_token now token (s.token_json.decode t)) n (q.keeps_not_both d o)
                (rw (a, rotate_refresh_token) at e))
      ]

  rotate_gone :
      (links : Links) (others : Db → Db) (token : String) (now : Time) (old : String) (d : Db)
      (rt : RefreshToken)
      → get d (refresh_token (s.hash_token old)) ≡ none
      → (rotate_refresh_token r s links others (some token) now old d).0 ≡ ok rt
      → (rotate_refresh_token r s links others (some token) now old d).1 ≡ others d
  unfolding rotate_refresh_token
  rotate_gone links others token now old d rt g e =
      elim (reading r links.load d (refresh_token (s.hash_token old))) [
        | absent a g ↦ rw (a, rotate_refresh_token) refl
        | broken a ↦ absurd (ground (arith, rw (a, rotate_refresh_token) at e))
        | present t a g' ↦ absurd (ground (arith, g'))
      ]

  same_token :
      (h : String) (d d' : Db) (rt rt' : RefreshToken)
      → Rotated r s h d rt
      → Rotated r s h d' rt'
      → (get d' (refresh_token_replay h) ≡ get d (refresh_token_replay h))
        ⊎ (get d' (refresh_token_replay h) ≡ none)
      → rt' ≡ rt
  same_token h d d' rt rt' a b q =
      let t : b.text ≡ a.text = ground (arith, a.kept, b.kept) in
      ground (arith, a.parses, b.parses, t)

  -- The same for all that is quiet.
  pub rotate_once :
      (links links' : Links) (others between others' : Db → Db) (token token' : String)
      (now later : Time) (old : String) (d : Db) (rt rt' : RefreshToken)
      → Quiet r s (s.hash_token old) others
      → Quiet r s (s.hash_token old) between
      → Quiet r s (s.hash_token old) others'
      → s.hash_token token ≢ s.hash_token old
      → s.hash_token token' ≢ s.hash_token old
      → NotBoth r s (s.hash_token old) d
      → (rotate_refresh_token r s links others (some token) now old d).0 ≡ ok rt
      → let d' = between (rotate_refresh_token r s links others (some token) now old d).1 in
        (rotate_refresh_token r s links' others' (some token') later old d').0 ≡ ok rt' → rt' ≡ rt
  rotate_once links links' others between others' token token' now later old d rt rt' q b q' n n' o
        e e' =
      let h = s.hash_token old in
      let d₁ = (rotate_refresh_token r s links others (some token) now old d).1 in
      let first = rotate-Rotated links others token now old d rt q n o e in
      let gone = b.stays_gone d₁ first.gone in
      let second =
        rotate-Rotated links' others' token' later old (between d₁) rt' q' n' (inl gone) e' in
      let kept = rotate_gone links' others' token' later old (between d₁) rt' gone e' in
      let replay = b.keeps_replay d₁ first.gone in
      let replay' = q'.keeps_replay (between d₁) gone in
      same_token h d₁ _ rt rt' first second (ground (arith, kept, replay, replay'))
