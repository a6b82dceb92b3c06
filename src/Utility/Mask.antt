-- ===== src/Utility/Mask.antt =====
-- internal/utility/mask.go: what logs and responses show of identifiers. A text is its list of
-- code points; `@` and `:` are one byte each, so the byte offsets of the source split it as the
-- offsets here do.
use gosso.Prelude.{
  ℕ, zero, suc, ◌-◌, ◌≡◌, refl, ◌≢◌, Option, none, some, List, [], ◌∷◌, ◌++◌, String, arith, ltb,
  leb, nat_eq, if◌then◌else◌, length, All, codes, ◌==◌,
}

abbrev pub stars : List ℕ
stars = 42 ∷ 42 ∷ 42 ∷ []

-- `strings.Index` with the parts on both sides of the first hit.
unfoldable pub split_at : ℕ → List ℕ → Option (List ℕ × List ℕ)
split_at c [] = none
split_at c (x ∷ xs) =
    if nat_eq x c
    then some ([], xs)
    else (elim (split_at c xs) [ none ↦ none | some (before, after) ↦ some (x ∷ before, after) ])

-- `string(runes[0]) + "***"`, where there is a rune.
abbrev head_masked : List ℕ → List ℕ
head_masked [] = stars
head_masked (c ∷ cs) = c ∷ stars

mask_short : List ℕ → List ℕ
mask_short (a ∷ b ∷ rest) = a ∷ stars
mask_short _ = stars

mask_parts : List ℕ → Option (List ℕ × List ℕ) → List ℕ
unfolding mask_short
mask_parts email (some (a ∷ local, d ∷ domain)) = a ∷ (stars ++ (64 ∷ d ∷ stars))
mask_parts email _ = mask_short email

unfoldable pub mask_email : List ℕ → List ℕ
unfolding split_at mask_parts
mask_email email = mask_parts email (split_at 64 email)

abbrev pub take : ℕ → List ℕ → List ℕ
take zero xs = []
take (suc n) [] = []
take (suc n) (x ∷ xs) = x ∷ take n xs

abbrev pub drop : ℕ → List ℕ → List ℕ
drop zero xs = xs
drop (suc n) [] = []
drop (suc n) (x ∷ xs) = drop n xs

unfoldable pub mask_phone : List ℕ → List ℕ
mask_phone runes =
    if ltb 4 (length runes) then take 3 runes ++ (stars ++ drop (length runes - 2) runes) else stars

unfoldable pub mask_identifier : String → List ℕ → List ℕ
unfolding mask_email mask_phone
mask_identifier cred_type identifier =
    if cred_type == "email"
    then mask_email identifier
    else if cred_type == "phone"
    then mask_phone identifier
    else stars

-- The identifiers are ASCII: a byte is a code point.
unfoldable pub mask_opaque_id : List ℕ → List ℕ
mask_opaque_id id =
    if leb (length id) 8 then stars else take 4 id ++ (stars ++ drop (length id - 4) id)

unfoldable pub mask_rate_limit_key : List ℕ → List ℕ
unfolding split_at
mask_rate_limit_key key = elim (split_at 58 key) [
  | none ↦ stars
  | some (before, after) ↦ before ++ (58 ∷ stars)
]

-- No code point of the list is the one given.
abbrev pub Lacks : ℕ → List ℕ → Type 0
Lacks c = All (λ x. x ≢ c)

split_at-first :
    (c : ℕ) (before after : List ℕ)
    → Lacks c before
    → split_at c (before ++ c ∷ after) ≡ some (before, after)
unfolding split_at
split_at-first c [] after h = ground arith
split_at-first c (x ∷ before) after h = ground (arith, split_at-first c before after h.1)

-- Of an address with something on both sides of its first `@`, only the first character of the
-- local part and of the domain is shown: whatever else it holds does not change the result.
pub mask_email-shows :
    (a d : ℕ) (local domain : List ℕ)
    → Lacks 64 (a ∷ local)
    → mask_email (a ∷ (local ++ 64 ∷ d ∷ domain)) ≡ a ∷ (stars ++ (64 ∷ d ∷ stars))
unfolding mask_email
mask_email-shows a d local domain h =
    rw (split_at-first 64 (a ∷ local) (d ∷ domain) h, mask_email) refl

-- A rate limit key shows its part up to the first colon and nothing of the rest.
pub mask_rate_limit_key-shows :
    (prefix rest : List ℕ)
    → Lacks 58 prefix
    → mask_rate_limit_key (prefix ++ 58 ∷ rest) ≡ prefix ++ (58 ∷ stars)
unfolding mask_rate_limit_key
mask_rate_limit_key-shows prefix rest h =
    rw (split_at-first 58 prefix rest h, mask_rate_limit_key) refl

mask_example : mask_email (codes "user@example.com") ≡ codes "u***@e***"
unfolding mask_email
mask_example = refl

mask_phone_example : mask_phone (codes "13800138000") ≡ codes "138***00"
unfolding mask_phone
mask_phone_example = refl
