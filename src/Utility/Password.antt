-- ===== src/Utility/Password.antt =====
-- internal/utility/password.go. The Unicode tables of the standard library are the section's
-- parameters.
use gosso.Prelude.{
  ℕ, ◌≤◌, ◌≡◌, ◌↔◌, Bool, true, false, not, ◌&&◌, ◌||◌, List, [], ◌∷◌, String, len, arith, ltb,
  nat_eq, if◌then◌else◌, codes, Result, ok, ◌>>◌, reject,
}

abbrev pub min_password_length : ℕ
min_password_length = 12

abbrev pub max_password_length : ℕ
max_password_length = 72

pub data PasswordError : Type 0 where
  password_too_long password_too_short password_complexity : PasswordError

abbrev pub allowed_special_chars : List ℕ
allowed_special_chars = codes "!@#$%^&*()-_=+[]{}|;:',.<>?/`~\"\\"

unfoldable pub contains_rune : List ℕ → ℕ → Bool
contains_rune [] c = false
contains_rune (x ∷ xs) c = nat_eq x c || contains_rune xs c

-- hasUpper, hasLower, hasDigit, hasSpecial
pub record Flags : Type 0 where
  pub upper : Bool
  pub lower : Bool
  pub digit : Bool
  pub special : Bool

abbrev no_flags : Flags
no_flags = record { upper = false; lower = false; digit = false; special = false }

-- Some code point satisfies the test.
abbrev pub any : (ℕ → Bool) → List ℕ → Bool
any p [] = false
any p (c ∷ cs) = p c || any p cs

module _ (is_upper is_lower is_digit : ℕ → Bool) where
  -- One round of the loop: the `switch` sets the flag of the first class that fits.
  classify : Flags → ℕ → Flags
  classify f c =
      if is_upper c
      then record f { upper = true }
      else if is_lower c
      then record f { lower = true }
      else if is_digit c
      then record f { digit = true }
      else if contains_rune allowed_special_chars c
      then record f { special = true }
      else f

  scan : Flags → List ℕ → Flags
  scan f [] = f
  scan f (c ∷ cs) = scan (classify f c) cs

  unfoldable pub validate_password_strength : String → Result PasswordError (Unit {0})
  unfolding scan classify
  validate_password_strength password = do
    reject (ltb max_password_length (len password)) password_too_long
    reject (ltb (len password) min_password_length) password_too_short
    let f = scan no_flags (codes password)
    reject (not f.upper || not f.lower || not f.digit || not f.special) password_complexity
    ok tt

  -- The classes in the order of the `switch`.
  abbrev pub lower_only : ℕ → Bool
  lower_only c = not (is_upper c) && is_lower c

  abbrev pub digit_only : ℕ → Bool
  digit_only c = not (is_upper c) && (not (is_lower c) && is_digit c)

  abbrev pub special_only : ℕ → Bool
  special_only c =
      not (is_upper c)
      && (not (is_lower c) && (not (is_digit c) && contains_rune allowed_special_chars c))

  -- What the package promises of an accepted password.
  pub record IsStrong (password : String) : Type 0 where
    pub long_enough : min_password_length ≤ len password
    pub short_enough : len password ≤ max_password_length
    pub has_upper : any is_upper (codes password) ≡ true
    pub has_lower : any lower_only (codes password) ≡ true
    pub has_digit : any digit_only (codes password) ≡ true
    pub has_special : any special_only (codes password) ≡ true

  scan_flags :
      (f : Flags) (cs : List ℕ)
      → ((scan f cs).upper ≡ (f.upper || any is_upper cs))
        × ((scan f cs).lower ≡ (f.lower || any lower_only cs))
        × ((scan f cs).digit ≡ (f.digit || any digit_only cs))
        × ((scan f cs).special ≡ (f.special || any special_only cs))
  unfolding scan classify
  scan_flags f [] = ground arith
  scan_flags f (c ∷ cs) = let ih = scan_flags (classify f c) cs in ground (arith, ih)

  -- A password is accepted exactly when it has 12 to 72 bytes and a character of each class.
  pub validate_password_strength_iff :
      (password : String) → (validate_password_strength password ≡ ok tt) ↔ IsStrong password
  unfolding validate_password_strength
  validate_password_strength_iff password =
      let f = scan_flags no_flags (codes password) in
      (
        λ h. record {
          long_enough = ground arith;
          short_enough = ground arith;
          has_upper = ground (arith, f);
          has_lower = ground (arith, f);
          has_digit = ground (arith, f);
          has_special = ground (arith, f);
        },
        λ s. ground (arith, f, s),
      )
