-- ===== src/Oauth2/AuthCode/SingleUse.antt =====
-- An authorization code is good for one exchange, by its own client, before it expires.
use gosso.Prelude.{
  ℕ, ◌≤◌, ◌≡◌, ◌≢◌, refl, ◌∙◌, ap, subst, ◌⊎◌, inl, inr, true, Option, none, some, String, arith,
  eq_iff, ok, err, Option-cases,
}
use gosso.Redis.{
  Redis, Codec, value, nil, exec, none-elapse, Link, up, lost_request, lost_reply, auth_code,
}
use gosso.Oauth2.Client.{Time}
use gosso.Oauth2.AuthCode.{
  AuthorizationCode, code_not_found, validate_code, get_and_delete, check_code, verify_pkce,
  check_text,
}

-- The verifier that a code with a challenge needs; a code without one needs none.
abbrev pub Unlocks : (String → String) → AuthorizationCode → Option String → Type 0
Unlocks challenge_of ac none = ac.code_challenge ≡ ""
Unlocks challenge_of ac (some v) =
    (ac.code_challenge ≡ "") ⊎ (verify_pkce challenge_of (some ac) v ≡ true)

-- What an exchange checks of the stored code.
pub record Matches (challenge_of : String → String) (now : Time) (client uri : String)
    (verifier : Option String) (ac : AuthorizationCode) : Type 0 where
  pub alive : now ≤ ac.expires_at
  pub same_client : ac.client_id ≡ client
  pub same_uri : ac.redirect_uri ≡ uri
  pub unlocked : Unlocks challenge_of ac verifier

module _ (challenge_of : String → String) (now : Time) (client uri : String) where
  check_code-Matches :
      (verifier : Option String) (ac b : AuthorizationCode)
      → check_code challenge_of now client uri verifier ac ≡ ok b
      → (ac ≡ b) × Matches challenge_of now client uri verifier ac
  unfolding check_code
  check_code-Matches none ac b h = (
    ground arith,
    record {
      alive = ground arith;
      same_client = ground (arith, eq_iff ac.client_id client);
      same_uri = ground (arith, eq_iff ac.redirect_uri uri);
      unlocked = ground (arith, eq_iff ac.code_challenge "");
    },
  )
  check_code-Matches (some v) ac b h = (
    ground arith,
    record {
      alive = ground arith;
      same_client = ground (arith, eq_iff ac.client_id client);
      same_uri = ground (arith, eq_iff ac.redirect_uri uri);
      unlocked = ground (arith, eq_iff ac.code_challenge "");
    },
  )

module _ (r : Redis) where
  open r use {Db, Text, get, del, elapse, get-del, get-elapse}

  get_and_delete-some :
      (h : String) (d : Db) (t : Text)
      → get d (auth_code h) ≡ some t
      → get_and_delete r h d ≡ (value t, del d (auth_code h))
  unfolding get_and_delete
  get_and_delete-some h d t e = rw (e, get_and_delete) refl

  get_and_delete-none :
      (h : String) (d : Db) → get d (auth_code h) ≡ none → get_and_delete r h d ≡ (nil, d)
  unfolding get_and_delete
  get_and_delete-none h d e = rw (e, get_and_delete) refl

  gone_after : (h : String) (d : Db) → get (get_and_delete r h d).1 (auth_code h) ≡ none
  gone_after h d = elim (Option-cases (get d (auth_code h))) [
    | inl e ↦ rw (get_and_delete-none h d e) e
    | inr (t, e) ↦ rw (get_and_delete-some h d t e) (get-del d (auth_code h))
  ]

  exec_gone :
      (link : Link) (h : String) (d : Db)
      → link ≢ lost_request
      → get (exec link (get_and_delete r h) d).1 (auth_code h) ≡ none
  exec_gone up h d n = gone_after h d
  exec_gone lost_request h d n = absurd (n refl)
  exec_gone lost_reply h d n = gone_after h d

module _ (r : Redis) (json : Codec (r.Text) AuthorizationCode)
    (hash_token challenge_of : String → String) where
  open r use {Db, Text, get, set, elapse, get-set}

  -- What an exchange found and did: the stored code matched the request, and is gone.
  pub record Exchanged (d d' : Db) (now : Time) (code client uri : String)
      (verifier : Option String) (ac : AuthorizationCode) : Type 0 where
    pub text : Text
    pub stored : get d (auth_code (hash_token code)) ≡ some text
    pub decoded : json.decode text ≡ some ac
    pub matches : Matches challenge_of now client uri verifier ac
    pub gone : get d' (auth_code (hash_token code)) ≡ none

  found_code :
      (now : Time) (client uri : String) (verifier : Option String) (t : Text)
      (ac : AuthorizationCode)
      → check_text challenge_of now client uri verifier (json.decode t) ≡ ok ac
      → (json.decode t ≡ some ac) × Matches challenge_of now client uri verifier ac
  unfolding check_text
  found_code now client uri verifier t ac h = elim (Option-cases (json.decode t)) [
    | inl bad ↦ absurd (ground (arith, bad))
    | inr (b, good) ↦
        let (same, matches) =
          check_code-Matches challenge_of now client uri verifier b ac (ground (arith, good)) in
        (good ∙ ap some same, subst (Matches challenge_of now client uri verifier) same matches)
  ]

  -- A code is handed out only if it stands in Redis under the hash of the one presented, has not
  -- expired, belongs to the client and the redirect URI, and its challenge, if any, is met; and
  -- then it is no longer there.
  pub validate_code-Exchanged :
      (link : Link) (now : Time) (code client uri : String) (verifier : Option String) (d : Db)
      (ac : AuthorizationCode)
      → (validate_code r json hash_token challenge_of link now code client uri verifier d).0 ≡ ok ac
      → Exchanged d
          (validate_code r json hash_token challenge_of link now code client uri verifier d).1
          now
          code
          client
          uri
          verifier
          ac
  unfolding validate_code
  validate_code-Exchanged up now code client uri verifier d ac h =
      elim (Option-cases (get d (auth_code (hash_token code)))) [
        | inl e ↦ absurd (ground (arith, get_and_delete-none r (hash_token code) d e))
        | inr (t, e) ↦
            let found = get_and_delete-some r (hash_token code) d t e in
            let (decoded, matches) =
              found_code now client uri verifier t ac (ground (arith, found)) in
            record {
              text = t;
              stored = e;
              decoded = decoded;
              matches = matches;
              gone = gone_after r (hash_token code) d;
            }
      ]
  validate_code-Exchanged lost_request now code client uri verifier d ac h = cc
  validate_code-Exchanged lost_reply now code client uri verifier d ac h = cc

  not_found :
      (link : Link) (now : Time) (code client uri : String) (verifier : Option String) (d : Db)
      → get d (auth_code (hash_token code)) ≡ none
      → (validate_code r json hash_token challenge_of link now code client uri verifier d).0
        ≡ err code_not_found
  unfolding validate_code
  not_found up now code client uri verifier d e =
      rw (get_and_delete-none r (hash_token code) d e) refl
  not_found lost_request now code client uri verifier d e = refl
  not_found lost_reply now code client uri verifier d e = refl

  -- Once a request to exchange a code has reached the server, whatever came of it, no later one
  -- succeeds: every exchange of that code, by anyone, is answered that it is not found.
  pub validate_code_once :
      (link again : Link) (now later : Time) (code client uri client' uri' : String)
      (verifier verifier' : Option String) (ms : ℕ) (d : Db)
      → link ≢ lost_request
      → let d' =
          (validate_code r json hash_token challenge_of link now code client uri verifier d).1 in
        (validate_code r json hash_token challenge_of again later code client' uri' verifier'
          (elapse d' ms)).0
        ≡ err code_not_found
  unfolding validate_code
  validate_code_once link again now later code client uri client' uri' verifier verifier' ms d h =
      not_found again later code client' uri' verifier' _
        (none-elapse r _ (auth_code (hash_token code)) ms (exec_gone r link (hash_token code) d h))
