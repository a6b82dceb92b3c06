-- ===== src/Token/Refresh/Rotated.antt =====
-- token_service_revoke.go: what Redis holds once the script of RotateRefreshToken was sent.
use gosso.Prelude.{
  ℕ, ◌≡◌, ◌≢◌, ap, ◌⊎◌, inl, inr, none, some, String, arith, Option-cases, Result, ok, err, ◌>>=◌,
}
use gosso.Redis.{
  reading, absent, broken, present, Redis, of_option, Link, up, lost_request, lost_reply,
  refresh_token, refresh_token_replay,
}
use gosso.Oauth2.Client.{Time}
use gosso.Token.{RefreshToken, TokenError}
use gosso.Token.Refresh.{Store, parse_refresh_token_replay}
use gosso.Token.Refresh.Rotation.{
  Links, rotate_script, replay_valid, get_refresh_token_replay, or_not_found, rotated,
  write_rotation,
}
use gosso.Token.Refresh.Script.{fresh, again, outcome}

module _ (r : Redis) (s : Store r) where
  open r use {
    Db, Text, get, set, del, elapse, get-set, get-set_ne, get-del, get-del_ne, get-sadd, get-srem,
    get-expire, get-elapse,
  }

  abbrev pub parsed : Text → Result TokenError RefreshToken
  parsed t = parse_refresh_token_replay (s.replay_json.decode t)

  -- A token and its replay are not both in Redis.
  abbrev pub NotBoth : String → Db → Type 0
  NotBoth h d = (get d (refresh_token h) ≡ none) ⊎ (get d (refresh_token_replay h) ≡ none)

  -- What others do in Redis while the token of the hash is exchanged: they do not bring it back
  -- once it is gone, and then leave its replay or drop it.
  pub record Quiet (h : String) (f : Db → Db) : Type 0 where
    pub keeps_not_both : (d : Db) → NotBoth h d → NotBoth h (f d)
    pub stays_gone : (d : Db) → get d (refresh_token h) ≡ none → get (f d) (refresh_token h) ≡ none
    pub keeps_replay :
        (d : Db)
        → get d (refresh_token h) ≡ none
        → (get (f d) (refresh_token_replay h) ≡ get d (refresh_token_replay h))
          ⊎ (get (f d) (refresh_token_replay h) ≡ none)

  -- The token is gone and its replay gives the new token.
  pub record Rotated (h : String) (d : Db) (rt : RefreshToken) : Type 0 where
    pub gone : get d (refresh_token h) ≡ none
    pub text : Text
    pub kept : get d (refresh_token_replay h) ≡ some text
    pub parses : parsed text ≡ ok rt

  -- Time is quiet.
  pub elapse-Quiet : (h : String) (ms : ℕ) → Quiet h (λ d. elapse d ms)
  elapse-Quiet h ms = record {
    keeps_not_both = λ d o.
        ground (arith, get-elapse d (refresh_token h) ms, get-elapse d (refresh_token_replay h) ms);
    stays_gone = λ d g. ground (arith, get-elapse d (refresh_token h) ms);
    keeps_replay = λ d g. get-elapse d (refresh_token_replay h) ms;
  }

  valid_same :
      (links : Links) (now : Time) (d : Db) (a b : RefreshToken)
      → replay_valid r s links now d a ≡ ok b
      → a ≡ b
  unfolding replay_valid
  valid_same links now d a b e = ground arith

  found_in :
      (links : Links) (now : Time) (d : Db) (p : Result TokenError RefreshToken) (rt : RefreshToken)
      → (p >>= replay_valid r s links now d) ≡ ok rt
      → p ≡ ok rt
  found_in links now d (ok a) rt e = ap ok (valid_same links now d a rt e)
  found_in links now d (err x) rt e = absurd (ground arith)

  replay_found :
      (links : Links) (now : Time) (h : String) (d : Db) (rt : RefreshToken)
      → get_refresh_token_replay r s links now h d ≡ ok rt
      → (t : Text) × (get d (refresh_token_replay h) ≡ some t) × (parsed t ≡ ok rt)
  unfolding get_refresh_token_replay
  replay_found links now h d rt e = elim (reading r links.replay d (refresh_token_replay h)) [
    | absent a g ↦ absurd (ground (arith, a))
    | broken a ↦ absurd (ground (arith, a))
    | present t a g ↦
        (t, g, found_in links now d (parsed t) rt (rw (a, get_refresh_token_replay) at e))
  ]

  not_found :
      (x : Result TokenError RefreshToken) (rt : RefreshToken)
      → or_not_found r s x ≡ ok rt
      → x ≡ ok rt
  not_found (ok a) rt e = e
  not_found (err a) rt e = absurd (ground arith)

  -- A replay stands only for a token that is gone.
  pub replay-Rotated :
      (links : Links) (now : Time) (h : String) (d : Db) (rt : RefreshToken)
      → NotBoth h d
      → or_not_found r s (get_refresh_token_replay r s links now h d) ≡ ok rt
      → Rotated h d rt
  replay-Rotated links now h d rt o e =
      let (t, g, p) = replay_found links now h d rt (not_found _ rt e) in
      record { gone = ground (arith, g); text = t; kept = g; parses = p }

  -- The reply of the script, when no token was there to exchange.
  answer-Rotated :
      (links : Links) (now : Time) (h : String) (d : Db) (rt : RefreshToken)
      → get d (refresh_token h) ≡ none
      → rotated r s links now h (of_option (get d (refresh_token_replay h))) d ≡ ok rt
      → Rotated h d rt
  unfolding rotated
  answer-Rotated links now h d rt g e = elim (Option-cases (get d (refresh_token_replay h))) [
    | inl missing ↦ replay-Rotated links now h d rt (inl g) (rw (missing, rotated) at e)
    | inr (t, kept) ↦ record { gone = g; text = t; kept = kept; parses = rw (kept, rotated) at e }
  ]

  -- After the script ran and its reply arrived.
  replied-Rotated :
      (links : Links) (now : Time) (h new : String) (seconds : ℕ) (text replay : Text) (d : Db)
      (rt : RefreshToken)
      → new ≢ h
      → let out = rotate_script r s h new seconds text replay d in
        rotated r s links now h out.0 out.1 ≡ ok rt → Rotated h out.1 rt
  unfolding rotated
  replied-Rotated links now h new seconds text replay d rt n e =
      elim (outcome r s h new seconds text replay d n) [
        | fresh t g v gone kept ↦ record {
          gone = gone;
          text = replay;
          kept = kept;
          parses = rw v at e;
        }
        | again g eq ↦ rw eq (answer-Rotated links now h d rt g (rw eq at e))
      ]

  -- After the script ran and its reply was lost.
  unheard-Rotated :
      (links : Links) (now : Time) (h new : String) (seconds : ℕ) (text replay : Text) (d : Db)
      (rt : RefreshToken)
      → new ≢ h
      → let d' = (rotate_script r s h new seconds text replay d).1 in
        or_not_found r s (get_refresh_token_replay r s links now h d') ≡ ok rt → Rotated h d' rt
  unheard-Rotated links now h new seconds text replay d rt n e =
      elim (outcome r s h new seconds text replay d n) [
        | fresh t g v gone kept ↦ replay-Rotated links now h _ rt (inl gone) e
        | again g eq ↦ rw eq (replay-Rotated links now h d rt (inl g) (rw eq at e))
      ]

  pub write-Rotated :
      (links : Links) (link : Link) (now : Time) (h : String) (new rt : RefreshToken) (d : Db)
      → links.rotate ≡ link
      → s.hash_token new.token ≢ h
      → NotBoth h d
      → (write_rotation r s links now h (ok new) d).0 ≡ ok rt
      → Rotated h (write_rotation r s links now h (ok new) d).1 rt
  unfolding write_rotation rotated
  write-Rotated links up now h new rt d l n o e =
      rw l (replied-Rotated links now h (s.hash_token new.token) _ _ _ d rt n (rw l at e))
  write-Rotated links lost_request now h new rt d l n o e =
      rw l (replay-Rotated links now h d rt o (rw l at e))
  write-Rotated links lost_reply now h new rt d l n o e =
      rw l (unheard-Rotated links now h (s.hash_token new.token) _ _ _ d rt n (rw l at e))
