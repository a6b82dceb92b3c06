-- ===== src/Prelude/Space.antt =====
-- strings.TrimSpace, and the length in bytes that Go's `len` gives.
use Prim.Native.Nat.{ℕ, ◌+◌}
use Prim.Native.Char.{Char, code}
use mathlib.Core.Path.{◌≡◌, refl, sym, ap, ◌∙◌}
use mathlib.Core.Logic.{inl, inr}
use mathlib.Core.Bool.{Bool, false, ◌&&◌, ◌||◌}
use gosso.Prelude.Tests.{ltb, leb, nat_eq, if◌then◌else◌, Bool-cases}
use gosso.Prelude.Texts.{String, is_empty}

-- unicode.IsSpace.
abbrev pub is_space : ℕ → Bool
is_space c =
    (leb 9 c && leb c 13)
    || (nat_eq c 32
        || (nat_eq c 133
            || (nat_eq c 160
                || (nat_eq c 5760
                    || ((leb 8192 c && leb c 8202)
                        || (nat_eq c 8232
                            || (nat_eq c 8233
                                || (nat_eq c 8239 || (nat_eq c 8287 || nat_eq c 12288)))))))))

unfoldable trim_left : (Char → Bool) → String → String
trim_left p String.[] = String.[]
trim_left p (String.◌∷◌ c s) = let rest = trim_left p s in if p c then rest else String.◌∷◌ c s

unfoldable trim_right : (Char → Bool) → String → String
trim_right p String.[] = String.[]
trim_right p (String.◌∷◌ c s) =
    let rest = trim_right p s in if p c && is_empty rest then String.[] else String.◌∷◌ c rest

abbrev space : Char → Bool
space c = is_space (code c)

unfoldable pub trim_space : String → String
unfolding trim_left trim_right
trim_space s = trim_right space (trim_left space s)

-- The bytes of a code point in UTF-8.
abbrev utf8_len : ℕ → ℕ
utf8_len c = if ltb c 128 then 1 else if ltb c 2048 then 2 else if ltb c 65536 then 3 else 4

unfoldable pub byte_len : String → ℕ
byte_len String.[] = 0
byte_len (String.◌∷◌ c s) = utf8_len (code c) + byte_len s

module _ (p : Char → Bool) where
  right_idem : (s : String) → trim_right p (trim_right p s) ≡ trim_right p s
  unfolding trim_right
  right_idem String.[] = refl
  right_idem (String.◌∷◌ c s) = elim (Bool-cases (p c && is_empty (trim_right p s))) [
    | inl gone ↦ rw gone refl
    | inr kept ↦ rw kept (rw (right_idem s) (rw kept refl))
  ]

  left_kept : (c : Char) (s : String) → p c ≡ false → trim_left p (String.◌∷◌ c s) ≡ String.◌∷◌ c s
  unfolding trim_left
  left_kept c s kept = rw kept refl

  right_kept :
      (c : Char) (s : String)
      → p c ≡ false
      → trim_right p (String.◌∷◌ c s) ≡ String.◌∷◌ c (trim_right p s)
  unfolding trim_right
  right_kept c s kept = rw kept refl

  left_right :
      (s : String) → trim_left p (trim_right p (trim_left p s)) ≡ trim_right p (trim_left p s)
  unfolding trim_left trim_right
  left_right String.[] = refl
  left_right (String.◌∷◌ c s) = elim (Bool-cases (p c)) [
    | inl gone ↦ rw gone (left_right s)
    | inr kept ↦
        let l = left_kept c s kept in
        let r = right_kept c s kept in
        ap (λ t. trim_left p (trim_right p t)) l
        ∙ ap (trim_left p) r
        ∙ left_kept c (trim_right p s) kept
        ∙ sym (ap (trim_right p) l ∙ r)
  ]

pub trim_space_idem : (s : String) → trim_space (trim_space s) ≡ trim_space s
unfolding trim_space
trim_space_idem s = rw (left_right space s) (right_idem space (trim_left space s))
