-- ===== src/Auth/Verification/Guesses.antt =====
-- VerifyCode of internal/auth/service/verification_service.go: how often a code can be guessed.
use gosso.Prelude.{
  ℕ, ◌+◌, ◌-◌, ◌/◌, ◌≤◌, ◌<◌, ◌≡◌, refl, ◌∙◌, ◌⊎◌, inl, inr, Bool, true, false, none, some, List,
  [], ◌∷◌, String, arith, leb, ◌==◌, is_empty, if◌then◌else◌, Bool-cases, Result, ok, err,
}
use gosso.Redis.{Redis, Key, Link, up, lost_request, lost_reply, exec}
use gosso.Auth.Verification.{
  VerificationError, code_invalid, service_unavailable, VerifyCodeData, Config, code_key,
  normalized, pepper_hash, restored, verify_script, answered, verify_code,
}

module _ (r : Redis) (c : Config r) where
  open r use {Db, Text, get, set, del, get-set, get-del}

  -- No more guesses than so many are left for the code at the key.
  pub data Leaves (k : Key) (d : Db) (n : ℕ) : Type 0 where
    gone : get d k ≡ none → Leaves k d n
    stored :
        (t : Text) (obj : VerifyCodeData)
        → get d k ≡ some t
        → c.json.decode t ≡ some obj
        → c.max_attempts - obj.attempts ≤ n
        → Leaves k d n

  more-Leaves : (k : Key) (d : Db) (n m : ℕ) → n ≤ m → Leaves k d n → Leaves k d m
  more-Leaves k d n m h (gone e) = gone e
  more-Leaves k d n m h (stored t obj e g l) = stored t obj e g (omega arith)

  abbrev pub decided : Result VerificationError String → Bool
  decided (ok account_id) = true
  decided (err code_invalid) = true
  decided (err _) = false

  abbrev pub accepted : Result VerificationError String → Bool
  accepted (ok account_id) = true
  accepted (err e) = false

  accepted-decided : (x : Result VerificationError String) → accepted x ≡ true → decided x ≡ true
  accepted-decided (ok a) h = refl
  accepted-decided (err e) h = absurd (ground arith)

  -- What one guess comes to: the code is used up, a guess is used up, or nothing is said of it.
  data Tried (k : Key) (n : ℕ) (out : Result VerificationError String × Db) : Type 0 where
    hit : (a : String) → out.0 ≡ ok a → 0 < n → get out.1 k ≡ none → Tried k n out
    missed : out.0 ≡ err code_invalid → 0 < n → Leaves k out.1 (n - 1) → Tried k n out
    untold : decided out.0 ≡ false → accepted out.0 ≡ false → Leaves k out.1 n → Tried k n out

  restored-Leaves :
      (k : Key) (obj : VerifyCodeData) (default n : ℕ) (d : Db)
      → c.max_attempts - obj.attempts ≤ n
      → Leaves k (restored r c k obj default d) (n - 1)
  restored-Leaves k obj default n d l =
      stored (c.json.encode (record obj { attempts = obj.attempts + 1 }))
        (record obj { attempts = obj.attempts + 1 }) (get-set d k _ _) (c.json.decode-encode _)
        (omega arith)

  script-Tried :
      (k : Key) (hash : String) (default n : ℕ) (d : Db)
      → Leaves k d n
      → (let x = verify_script r c k hash c.max_attempts default d in
          Tried k n (answered r c x.0, x.1))
  unfolding verify_script
  script-Tried k hash default n d (gone e) = rw (e, verify_script) (untold refl refl (gone e))
  script-Tried k hash default n d (stored t obj e g l) =
      elim (Bool-cases (leb c.max_attempts obj.attempts)) [
        | inl full ↦ rw (e, g, full, verify_script) (untold refl refl (stored t obj e g l))
        | inr room ↦ elim (Bool-cases (obj.code_hash == hash)) [
          | inl same ↦
              rw (e, g, room, same, verify_script)
                (hit obj.account_id refl (ground (arith, room)) (get-del d k))
          | inr differ ↦
              rw (e, g, room, differ, verify_script)
                (missed refl (ground (arith, room)) (restored-Leaves k obj default n d l))
        ]
      ]

  lost-Tried :
      (k : Key) (n : ℕ) (out : Result VerificationError String × Db)
      → Tried k n out
      → Tried k n (err service_unavailable, out.1)
  lost-Tried k n out (hit a e l g) = untold refl refl (gone g)
  lost-Tried k n out (missed e l s) =
      untold refl refl (more-Leaves k out.1 (n - 1) n (omega arith) s)
  lost-Tried k n out (untold e f s) = untold refl refl s

  verify-Tried :
      (link : Link) (cred_type identifier code : String) (n : ℕ) (d : Db)
      → (let k = code_key r c cred_type (normalized r c identifier) in
          Leaves k d n → Tried k n (verify_code r c link cred_type identifier code d))
  unfolding verify_code pepper_hash
  verify-Tried link cred_type identifier code n d s =
      let k = code_key r c cred_type (normalized r c identifier) in
      let seconds = c.code_ttl / 1000000000 in
      elim (Bool-cases (is_empty c.hash_pepper)) [
        | inl missing ↦ rw (missing, verify_code) (untold refl refl s)
        | inr there ↦
            rw (there, verify_code)
              (elim link
                as (λ w.
                  (let x =
                      exec w
                        (verify_script r c k (c.hmac_hex c.hash_pepper code) c.max_attempts seconds)
                        d in
                    Tried k n (answered r c x.0, x.1))) [
                      | up ↦ script-Tried k _ seconds n d s
                      | lost_request ↦ untold refl refl s
                      | lost_reply ↦ lost-Tried k n _ (script-Tried k _ seconds n d s)
                    ])
      ]

  -- A guess at the code of one identifier, or what happens beside the guesses.
  pub data Event : Type 0 where
    guess : Link → (code : String) → Event
    beside : (Db → Db) → Event

  module _ (cred_type identifier : String) where
    abbrev pub the_key : Key
    the_key = code_key r c cred_type (normalized r c identifier)

    -- How many guesses have such an answer.
    unfoldable pub tally : (Result VerificationError String → Bool) → List Event → Db → ℕ
    tally p [] d = 0
    tally p (beside f ∷ rest) d = tally p rest (f d)
    tally p (guess link code ∷ rest) d =
        let (res, d') = verify_code r c link cred_type identifier code d in
        (if p res then 1 else 0) + tally p rest d'

    -- What happens beside keeps the code or loses it: no other one is sent.
    abbrev pub KeepsCode : List Event → Type 0
    KeepsCode [] = Unit {0}
    KeepsCode (guess link code ∷ rest) = KeepsCode rest
    KeepsCode (beside f ∷ rest) =
        ((d : Db) → (get (f d) the_key ≡ get d the_key) ⊎ (get (f d) the_key ≡ none))
        × KeepsCode rest

    beside-Leaves :
        (n : ℕ) (d e : Db)
        → (get e the_key ≡ get d the_key) ⊎ (get e the_key ≡ none)
        → Leaves the_key d n
        → Leaves the_key e n
    beside-Leaves n d e (inl same) (gone a) = gone (same ∙ a)
    beside-Leaves n d e (inl same) (stored t obj a g l) = stored t obj (same ∙ a) g l
    beside-Leaves n d e (inr lost) s = gone lost

    decided-le :
        (events : List Event) (n : ℕ) (d : Db)
        → KeepsCode events
        → Leaves the_key d n
        → tally decided events d ≤ n
    unfolding tally
    decided-le [] n d keeps s = omega arith
    decided-le (beside f ∷ rest) n d (same, keeps) s =
        decided-le rest n (f d) keeps (beside-Leaves n d (f d) (same d) s)
    decided-le (guess link code ∷ rest) n d keeps s =
        elim (verify-Tried link cred_type identifier code n d s) [
          | hit a e l g ↦ rw e (ground (arith, decided-le rest 0 _ keeps (gone g)))
          | missed e l t ↦ rw e (ground (arith, decided-le rest (n - 1) _ keeps t))
          | untold e f t ↦ rw e (omega (arith, decided-le rest n _ keeps t))
        ]

    fewer_accepted :
        (events : List Event) (d : Db) → tally accepted events d ≤ tally decided events d
    unfolding tally
    fewer_accepted [] d = omega arith
    fewer_accepted (beside f ∷ rest) d = fewer_accepted rest (f d)
    fewer_accepted (guess link code ∷ rest) d =
        let x = verify_code r c link cred_type identifier code d in
        let later = fewer_accepted rest x.1 in
        elim (Bool-cases (accepted x.0)) [
          | inl good ↦ rw (good, accepted-decided x.0 good) (omega (arith, later))
          | inr bad ↦ rw bad (omega (arith, later))
        ]

    accepted-le :
        (events : List Event) (n : ℕ) (d : Db)
        → KeepsCode events
        → Leaves the_key d n
        → tally accepted events d ≤ 1
    unfolding tally
    accepted-le [] n d keeps s = omega arith
    accepted-le (beside f ∷ rest) n d (same, keeps) s =
        accepted-le rest n (f d) keeps (beside-Leaves n d (f d) (same d) s)
    accepted-le (guess link code ∷ rest) n d keeps s =
        elim (verify-Tried link cred_type identifier code n d s) [
          | hit a e l g ↦
              rw e (omega (arith, fewer_accepted rest _, decided-le rest 0 _ keeps (gone g)))
          | missed e l t ↦ rw e (omega (arith, accepted-le rest (n - 1) _ keeps t))
          | untold e f t ↦ rw f (omega (arith, accepted-le rest n _ keeps t))
        ]

    -- Of all the guesses at a code that was sent, whatever the network does to them, at most as
    -- many as are left of the attempts are answered as right or wrong, and at most one as right.
    -- Meanwhile no other code is sent to the same identifier.
    pub verify_code-bounded :
        (events : List Event) (t : Text) (obj : VerifyCodeData) (d : Db)
        → KeepsCode events
        → get d the_key ≡ some t
        → c.json.decode t ≡ some obj
        → (tally decided events d ≤ c.max_attempts - obj.attempts) × (tally accepted events d ≤ 1)
    verify_code-bounded events t obj d keeps e g =
        let s = stored t obj e g (omega arith) in
        (decided-le events _ d keeps s, accepted-le events _ d keeps s)
