-- ===== src/Redis/Keys.antt =====
-- The keys of the Redis database. The source writes them as a constant prefix and an identifier;
-- here each prefix is a constructor. No prefix begins another, but for "device_code:poll:", whose
-- rest is a hash in hex, as is the rest of "device_code:": the texts are equal only if the keys are.
use mathlib.Core.Path.{ap₂}
use gosso.Prelude.{
  ℕ, ◌≡◌, ◌≢◌, refl, sym, subst, ◌∙◌, ◌⊎◌, inl, inr, Bool, true, false, ◌&&◌, String, arith, nat_eq,
  ◌==◌, eq_iff, if◌then◌else◌, Bool-cases,
}

pub data Key : Type 0 where
  auth_code : String → Key
  device_code : String → Key
  device_code_poll : String → Key
  user_code : String → Key
  consent : String → Key
  session : String → Key
  account_sessions : String → Key
  refresh_token : String → Key
  refresh_token_replay : String → Key
  session_tokens : String → Key
  blacklist_token : String → Key
  account_revoked_after : String → Key
  verification_code : String → Key
  verification_cooldown : String → Key
  reset_token : String → Key
  reset_cooldown : String → Key
  login_attempts : String → Key
  login_attempts_ip : String → Key
  mfa_attempts : String → Key
  mfa_verified : String → Key

tag : Key → ℕ
tag (auth_code x) = 0
tag (device_code x) = 1
tag (device_code_poll x) = 2
tag (user_code x) = 3
tag (consent x) = 4
tag (session x) = 5
tag (account_sessions x) = 6
tag (refresh_token x) = 7
tag (refresh_token_replay x) = 8
tag (session_tokens x) = 9
tag (blacklist_token x) = 10
tag (account_revoked_after x) = 11
tag (verification_code x) = 12
tag (verification_cooldown x) = 13
tag (reset_token x) = 14
tag (reset_cooldown x) = 15
tag (login_attempts x) = 16
tag (login_attempts_ip x) = 17
tag (mfa_attempts x) = 18
tag (mfa_verified x) = 19

ident : Key → String
ident (auth_code x) = x
ident (device_code x) = x
ident (device_code_poll x) = x
ident (user_code x) = x
ident (consent x) = x
ident (session x) = x
ident (account_sessions x) = x
ident (refresh_token x) = x
ident (refresh_token_replay x) = x
ident (session_tokens x) = x
ident (blacklist_token x) = x
ident (account_revoked_after x) = x
ident (verification_code x) = x
ident (verification_cooldown x) = x
ident (reset_token x) = x
ident (reset_cooldown x) = x
ident (login_attempts x) = x
ident (login_attempts_ip x) = x
ident (mfa_attempts x) = x
ident (mfa_verified x) = x

rebuild : ℕ → String → Key
rebuild n x =
    if nat_eq n 0
    then auth_code x
    else if nat_eq n 1
    then device_code x
    else if nat_eq n 2
    then device_code_poll x
    else if nat_eq n 3
    then user_code x
    else if nat_eq n 4
    then consent x
    else if nat_eq n 5
    then session x
    else if nat_eq n 6
    then account_sessions x
    else if nat_eq n 7
    then refresh_token x
    else if nat_eq n 8
    then refresh_token_replay x
    else if nat_eq n 9
    then session_tokens x
    else if nat_eq n 10
    then blacklist_token x
    else if nat_eq n 11
    then account_revoked_after x
    else if nat_eq n 12
    then verification_code x
    else if nat_eq n 13
    then verification_cooldown x
    else if nat_eq n 14
    then reset_token x
    else if nat_eq n 15
    then reset_cooldown x
    else if nat_eq n 16
    then login_attempts x
    else if nat_eq n 17
    then login_attempts_ip x
    else if nat_eq n 18
    then mfa_attempts x
    else mfa_verified x

rebuild_parts : (k : Key) → rebuild (tag k) (ident k) ≡ k
unfolding rebuild tag ident
rebuild_parts (auth_code x) = refl
rebuild_parts _ = refl

unfoldable pub key_eq : Key → Key → Bool
unfolding tag ident
key_eq k j = nat_eq (tag k) (tag j) && ident k == ident j

pub key_eq_self : (k : Key) → key_eq k k ≡ true
unfolding key_eq
key_eq_self k = ground (arith, eq_iff (ident k) (ident k))

pub path_of_key_eq : (k j : Key) → key_eq k j ≡ true → k ≡ j
unfolding key_eq
path_of_key_eq k j h =
    let t : tag k ≡ tag j = ground arith in
    let i : ident k ≡ ident j = ground (arith, eq_iff (ident k) (ident j)) in
    sym (rebuild_parts k) ∙ ap₂ rebuild t i ∙ rebuild_parts j

pub key_eq_of_ne : (k j : Key) → k ≢ j → key_eq k j ≡ false
key_eq_of_ne k j h = elim (Bool-cases (key_eq k j)) [
  | inl e ↦ absurd (h (path_of_key_eq k j e))
  | inr e ↦ e
]

pub Key-cases : (k j : Key) → (k ≡ j) ⊎ (k ≢ j)
Key-cases k j = elim (Bool-cases (key_eq k j)) [
  | inl e ↦ inl (path_of_key_eq k j e)
  | inr e ↦
      inr (λ p.
        let t = subst (λ x. key_eq k x ≡ true) p (key_eq_self k) in absurd (ground (arith, t)))
]
