-- ===== src/Auth/Verification/Sent.antt =====
-- SendCode and VerifyCode of internal/auth/service/verification_service.go together.
use gosso.Prelude.{
  ℕ, ◌/◌, ◌<◌, ◌≡◌, refl, ap, ◌∙◌, inl, inr, Bool, true, false, none, some, String, arith, leb,
  ◌==◌, eq_self, is_empty, Bool-cases, ok, err,
}
use gosso.Redis.{
  Redis, Key, Reply, value, nil, failed, Link, up, lost_request, lost_reply, exec, exists,
}
use gosso.Token.Blacklist.{to_ms}
use gosso.Auth.Verification.{
  VerificationError, send_failed, code_expired, Config, Links, normalized, code_key, cooldown_key,
  pepper_hash, verify_script, answered, verify_code, sent, deliver, new_data, issue, cooled_down,
  send_code, matched, not_found, VerifyStatus,
}

module _ (r : Redis) (c : Config r) where
  open r use {Db, Text, get, set, del, get-set, get-set_ne, get-del}

  sent-same :
      (link : Link) (k : Key) (done : Bool) (e : VerificationError) (d : Db)
      → (sent r c link k done e d).0 ≡ ok tt
      → (sent r c link k done e d).1 ≡ d
  sent-same link k true e d h = refl
  sent-same link k false e d h = absurd (ground arith)

  -- A delivery that succeeds leaves Redis alone.
  deliver-same :
      (link : Link) (cred_type identifier code : String) (d : Db)
      → (deliver r c link cred_type identifier code d).0 ≡ ok tt
      → (deliver r c link cred_type identifier code d).1 ≡ d
  unfolding deliver
  deliver-same link cred_type identifier code d h =
      let k = code_key r c cred_type identifier in
      elim (Bool-cases (cred_type == "email")) [
        | inl mail ↦
            rw mail (sent-same link k (c.send_email identifier code) send_failed d (rw mail at h))
        | inr other ↦ elim (Bool-cases (cred_type == "phone")) [
          | inl phone ↦
              rw (other, phone)
                (sent-same link k (c.send_sms identifier code) send_failed d
                  (rw (other, phone) at h))
          | inr neither ↦ absurd (let h' = rw (other, neither) at h in ground arith)
        ]
      ]

  cool-get :
      (link : Link) (cred_type identifier : String) (d : Db)
      → (let f : Db → Reply (Unit {0}) × Db = λ e. (
        value tt,
        set e (cooldown_key r c cred_type identifier) (c.raw.to_text "1") (to_ms c.cooldown_ttl),
      ) in
          get (exec link f d).1 (code_key r c cred_type identifier)
          ≡ get d (code_key r c cred_type identifier))
  cool-get up cred_type identifier d = get-set_ne d _ _ _ _ (λ p. cc)
  cool-get lost_request cred_type identifier d = refl
  cool-get lost_reply cred_type identifier d = get-set_ne d _ _ _ _ (λ p. cc)

  issue-get :
      (links : Links) (cred_type identifier account_id code hash : String) (d : Db)
      → (issue r c links cred_type identifier account_id code (ok hash) d).0 ≡ ok tt
      → get
          (issue r c links cred_type identifier account_id code (ok hash) d).1
          (code_key r c cred_type identifier)
        ≡ some (c.json.encode (new_data r c hash account_id))
  issue-get links cred_type identifier account_id code hash d h =
      let k = code_key r c cred_type identifier in
      elim links.store
          as (λ w.
            (issue r c (record links { store = w }) cred_type identifier account_id code (ok hash)
                d).0
              ≡ ok tt
            → get
                (issue r c (record links { store = w }) cred_type identifier account_id code
                  (ok hash) d).1
                k
              ≡ some (c.json.encode (new_data r c hash account_id))) [
                | up ↦ λ h.
                    ap (λ x. get x k) (deliver-same links.roll_back cred_type identifier code _ h)
                    ∙ cool-get links.cool cred_type identifier _
                    ∙ get-set d k _ _
                | lost_request ↦ λ h. absurd (ground arith)
                | lost_reply ↦ λ h. absurd (ground arith)
              ]
        h

  hashed-get :
      (links : Links) (cred_type identifier account_id code : String) (d : Db)
      → (issue r c links cred_type identifier account_id code (pepper_hash r c code) d).0 ≡ ok tt
      → (pepper_hash r c code ≡ ok (c.hmac_hex c.hash_pepper code))
        × (get
              (issue r c links cred_type identifier account_id code (pepper_hash r c code) d).1
              (code_key r c cred_type identifier)
            ≡ some (c.json.encode (new_data r c (c.hmac_hex c.hash_pepper code) account_id)))
  unfolding pepper_hash
  hashed-get links cred_type identifier account_id code d h =
      elim (Bool-cases (is_empty c.hash_pepper)) [
        | inl missing ↦ absurd (let h' = rw missing at h in ground arith)
        | inr there ↦ rw there (
          refl,
          issue-get links cred_type identifier account_id code (c.hmac_hex c.hash_pepper code) d
              (rw there at h),
        )
      ]

  cooled-get :
      (links : Links) (cred_type identifier account_id code : String) (found : Reply Bool) (d : Db)
      → (cooled_down r c links cred_type identifier account_id (some code) found d).0 ≡ ok tt
      → (pepper_hash r c code ≡ ok (c.hmac_hex c.hash_pepper code))
        × (get
              (cooled_down r c links cred_type identifier account_id (some code) found d).1
              (code_key r c cred_type identifier)
            ≡ some (c.json.encode (new_data r c (c.hmac_hex c.hash_pepper code) account_id)))
  cooled-get links cred_type identifier account_id code (value true) d h = absurd (ground arith)
  cooled-get links cred_type identifier account_id code (value false) d h =
      hashed-get links cred_type identifier account_id code d h
  cooled-get links cred_type identifier account_id code nil d h = absurd (ground arith)
  cooled-get links cred_type identifier account_id code failed d h = absurd (ground arith)

  send-get :
      (links : Links) (cred_type identifier account_id code : String) (d : Db)
      → (send_code r c links cred_type identifier account_id (some code) d).0 ≡ ok tt
      → (pepper_hash r c code ≡ ok (c.hmac_hex c.hash_pepper code))
        × (get
              (send_code r c links cred_type identifier account_id (some code) d).1
              (code_key r c cred_type (normalized r c identifier))
            ≡ some (c.json.encode (new_data r c (c.hmac_hex c.hash_pepper code) account_id)))
  unfolding send_code
  send-get links cred_type identifier account_id code d h =
      let name = normalized r c identifier in
      let x = exec links.check (λ e. (value (exists r e (cooldown_key r c cred_type name)), e)) d in
      cooled-get links cred_type name account_id code x.0 x.1 h

  script-hit :
      (k : Key) (hash account_id : String) (default : ℕ) (d : Db)
      → 0 < c.max_attempts
      → get d k ≡ some (c.json.encode (new_data r c hash account_id))
      → verify_script r c k hash c.max_attempts default d ≡ (value (matched account_id), del d k)
  unfolding verify_script
  script-hit k hash account_id default d h e =
      let more : leb c.max_attempts 0 ≡ false = ground arith in
      rw (e, c.json.decode-encode, more, eq_self, verify_script) refl

  script-gone :
      (k : Key) (hash : String) (default : ℕ) (d : Db)
      → get d k ≡ none
      → verify_script r c k hash c.max_attempts default d ≡ (value not_found, d)
  unfolding verify_script
  script-gone k hash default d e = rw (e, verify_script) refl

  verify_code_up :
      (cred_type identifier code hash : String) (d : Db) (out : Reply VerifyStatus × Db)
      → pepper_hash r c code ≡ ok hash
      → verify_script r c
          (code_key r c cred_type (normalized r c identifier))
          hash
          c.max_attempts
          (c.code_ttl / 1000000000)
          d
        ≡ out
      → verify_code r c up cred_type identifier code d ≡ (answered r c out.0, out.1)
  unfolding verify_code
  verify_code_up cred_type identifier code hash d out e script =
      rw (e, verify_code) (rw script refl)

  -- A code that was sent is accepted once, for the account that it was sent for, by a call that
  -- reaches Redis: the next call with it finds nothing. Some attempt is allowed.
  pub send_code-verify_code :
      (links : Links) (cred_type identifier account_id code : String) (d : Db)
      → 0 < c.max_attempts
      → (send_code r c links cred_type identifier account_id (some code) d).0 ≡ ok tt
      → (let d' = (send_code r c links cred_type identifier account_id (some code) d).1 in
          let (res, d'') = verify_code r c up cred_type identifier code d' in
          (res ≡ ok account_id)
          × ((verify_code r c up cred_type identifier code d'').0 ≡ err code_expired))
  send_code-verify_code links cred_type identifier account_id code d h sent_well =
      let hash = c.hmac_hex c.hash_pepper code in
      let k = code_key r c cred_type (normalized r c identifier) in
      let (hashed, held) = send-get links cred_type identifier account_id code d sent_well in
      let d' = (send_code r c links cred_type identifier account_id (some code) d).1 in
      let once =
        verify_code_up cred_type identifier code hash d' (value (matched account_id), del d' k)
          hashed (script-hit k hash account_id (c.code_ttl / 1000000000) d' h held) in
      let twice =
        verify_code_up cred_type identifier code hash (del d' k) (value not_found, del d' k) hashed
          (script-gone k hash (c.code_ttl / 1000000000) (del d' k) (get-del d' k)) in
      rw once (refl, rw twice refl)
