-- ===== src/Redis.antt =====
-- The Redis server as the code sees it, through internal/cache/redis_client.go and the Lua scripts:
-- a parameter of the components that use it. `Memory` is a server that meets the laws.
pub mod Keys
pub mod Memory
use gosso.Prelude.{
  ℕ, ◌+◌, ◌≡◌, ◌≢◌, ◌∙◌, ◌⊎◌, inl, inr, refl, Option-cases, Bool, true, false, Option, none, some,
  List, [], ◌∷◌, String, contains, ◌==◌, ◌||◌, not, IsDistinct,
}
pub use Keys.{
  Key, auth_code, device_code, device_code_poll, user_code, consent, session, account_sessions,
  refresh_token, refresh_token_replay, session_tokens, blacklist_token, account_revoked_after,
  verification_code, verification_cooldown, reset_token, reset_cooldown, login_attempts,
  login_attempts_ip, mfa_attempts, mfa_verified,
}

-- The commands that the code sends and what it relies on of them. Lifetimes are in milliseconds.
-- A command that finds a value of the other type is an error and changes nothing, so `get` reads
-- the string that a key holds, if any, and `smembers` its set, [] if none.
pub record Redis : Type 1 where
  pub Db : Type 0
  pub Text : Type 0
  pub get : Db → Key → Option Text
  -- SET with EX or PX, and without.
  pub set : Db → Key → Text → ℕ → Db
  pub set_forever : Db → Key → Text → Db
  -- The part of INCR that writes: the expiry stays.
  pub put : Db → Key → Text → Db
  pub del : Db → Key → Db
  -- PTTL, 0 in place of its two negative replies.
  pub pttl : Db → Key → ℕ
  -- TTL, in seconds, likewise.
  pub ttl : Db → Key → ℕ
  pub smembers : Db → Key → List String
  pub sadd : Db → Key → String → Db
  pub srem : Db → Key → String → Db
  -- EXPIRE, also the part of GETEX that writes.
  pub expire : Db → Key → ℕ → Db
  -- Time passes on the server.
  pub elapse : Db → ℕ → Db
  pub get-set : (d : Db) (k : Key) (t : Text) (ms : ℕ) → get (set d k t ms) k ≡ some t
  pub get-set_ne : (d : Db) (k j : Key) (t : Text) (ms : ℕ) → k ≢ j → get (set d k t ms) j ≡ get d j
  pub get-set_forever : (d : Db) (k : Key) (t : Text) → get (set_forever d k t) k ≡ some t
  pub get-set_forever_ne :
      (d : Db) (k j : Key) (t : Text) → k ≢ j → get (set_forever d k t) j ≡ get d j
  pub get-put : (d : Db) (k : Key) (t : Text) → get (put d k t) k ≡ some t
  pub get-put_ne : (d : Db) (k j : Key) (t : Text) → k ≢ j → get (put d k t) j ≡ get d j
  pub get-del : (d : Db) (k : Key) → get (del d k) k ≡ none
  pub get-del_ne : (d : Db) (k j : Key) → k ≢ j → get (del d k) j ≡ get d j
  pub get-sadd : (d : Db) (k j : Key) (m : String) → get (sadd d k m) j ≡ get d j
  pub get-srem : (d : Db) (k j : Key) (m : String) → get (srem d k m) j ≡ get d j
  pub get-expire : (d : Db) (k j : Key) (ms : ℕ) → get (expire d k ms) j ≡ get d j
  -- A key may go as time passes; none appears, and none changes.
  pub get-elapse :
      (d : Db) (k : Key) (ms : ℕ) → (get (elapse d ms) k ≡ get d k) ⊎ (get (elapse d ms) k ≡ none)
  pub smembers-set_ne :
      (d : Db) (k j : Key) (t : Text) (ms : ℕ) → k ≢ j → smembers (set d k t ms) j ≡ smembers d j
  pub smembers-del : (d : Db) (k : Key) → smembers (del d k) k ≡ []
  pub smembers-del_ne : (d : Db) (k j : Key) → k ≢ j → smembers (del d k) j ≡ smembers d j
  pub smembers-sadd :
      (d : Db) (k : Key) (m n : String)
      → get d k ≡ none
      → contains (smembers (sadd d k m) k) n ≡ (m == n || contains (smembers d k) n)
  pub smembers-sadd_ne :
      (d : Db) (k j : Key) (m : String) → k ≢ j → smembers (sadd d k m) j ≡ smembers d j
  pub smembers-srem_ne :
      (d : Db) (k j : Key) (m : String) → k ≢ j → smembers (srem d k m) j ≡ smembers d j
  pub smembers-srem : (d : Db) (k : Key) (m : String) → contains (smembers (srem d k m) k) m ≡ false
  pub smembers-srem_other :
      (d : Db) (k : Key) (m n : String)
      → m ≢ n
      → contains (smembers (srem d k m) k) n ≡ contains (smembers d k) n
  -- SMEMBERS gives each member once.
  pub smembers_distinct : (d : Db) (k : Key) → IsDistinct (smembers d k)
  pub smembers-expire : (d : Db) (k j : Key) (ms : ℕ) → smembers (expire d k ms) j ≡ smembers d j

abbrev is_nil : List String → Bool
is_nil [] = true
is_nil (m ∷ ms) = false

abbrev is_some {ℓ} : {A : Type ℓ} → Option A → Bool
is_some none = false
is_some (some a) = true

module _ (r : Redis) where
  open r use {Db, get, elapse, get-elapse}

  -- What is not there does not appear as time passes.
  pub none-elapse : (d : Db) (k : Key) (ms : ℕ) → get d k ≡ none → get (elapse d ms) k ≡ none
  none-elapse d k ms e = elim (get-elapse d k ms) [ inl same ↦ same ∙ e | inr lost ↦ lost ]

  -- EXISTS, on a key of either type.
  abbrev pub exists : Db → Key → Bool
  exists d k = is_some (get d k) || not (is_nil (r.smembers d k))

-- The reply to a call: its value, the nil reply, or an error (with which go-redis returns no value).
pub data Reply {ℓ} (A : Type ℓ) : Type ℓ where
  value : A → Reply A
  nil : Reply A
  failed : Reply A

abbrev pub of_option {ℓ} : {A : Type ℓ} → Option A → Reply A
of_option none = nil
of_option (some a) = value a

-- What the network does to one call: it goes through, the request is lost, or the reply is.
pub data Link : Type 0 where
  up lost_request lost_reply : Link

-- One call over the network. A script runs whole or not at all.
module _ {D A : Type 0} where
  abbrev pub exec : Link → (D → Reply A × D) → D → Reply A × D
  exec up f d = f d
  exec lost_request f d = (failed, d)
  exec lost_reply f d = (failed, (f d).1)

-- GET over the network, which changes nothing.
abbrev pub read : (r : Redis) → Link → r.Db → Key → Reply r.Text
read r link d k = (exec link (λ e. (of_option (r.get e k), e)) d).0

-- A key's value as the string that it is.
pub record Raw (Text : Type 0) : Type 0 where
  pub to_text : String → Text
  pub of_text : Text → String
  pub of_text-to_text : (s : String) → of_text (to_text s) ≡ s

-- encoding/json and the cjson of the scripts, on the values that one kind of key holds: what is
-- encoded decodes to itself.
pub record Codec (Text A : Type 0) : Type 0 where
  pub encode : A → Text
  pub decode : Text → Option A
  pub decode-encode : (a : A) → decode (encode a) ≡ some a

-- What a reading comes to.
pub data Reading (r : Redis) (d : r.Db) (k : Key) (reply : Reply r.Text) : Type 0 where
  absent : reply ≡ nil → r.get d k ≡ none → Reading r d k reply
  broken : reply ≡ failed → Reading r d k reply
  present : (t : r.Text) → reply ≡ value t → r.get d k ≡ some t → Reading r d k reply

pub reading : (r : Redis) (link : Link) (d : r.Db) (k : Key) → Reading r d k (read r link d k)
reading r up d k = elim (Option-cases (r.get d k)) [
  | inl e ↦ absent (rw e refl) e
  | inr (t, e) ↦ present t (rw e refl) e
]
reading r lost_request d k = broken refl
reading r lost_reply d k = broken refl
