-- ===== src/Utility/BigEndian.antt =====
-- internal/utility/bigendian.go: the bytes of an RSA exponent for a JWKS document.
use gosso.Prelude.{
  ℕ, zero, suc, ◌+◌, ◌*◌, ◌/◌, ◌%◌, ◌≤◌, ◌<◌, ◌≡◌, refl, ◌≢◌, Bool, true, false, List, [], ◌∷◌,
  arith, ltb, if◌then◌else◌, All, Result, ok, err,
}

-- Go's `int`; `negsuc n` is -(n + 1).
pub data ℤ : Type 0 where
  pos : ℕ → ℤ
  negsuc : ℕ → ℤ

pub data BigEndianError : Type 0 where
  negative_input : BigEndianError

-- The `for` loop, on fuel: each round puts the low byte in front and shifts by eight bits.
byte_loop : ℕ → ℕ → List ℕ → List ℕ
byte_loop zero v bytes = bytes
byte_loop (suc fuel) v bytes =
    let rest = byte_loop fuel (v / 256) ((v % 256) ∷ bytes) in if ltb 0 v then rest else bytes

unfoldable pub big_endian_bytes : ℤ → Result BigEndianError (List ℕ)
unfolding byte_loop
big_endian_bytes (pos zero) = ok (0 ∷ [])
big_endian_bytes (pos (suc e)) = ok (byte_loop (suc e) (suc e) [])
big_endian_bytes (negsuc n) = err negative_input

-- The number that bytes stand for, most significant first, after what was read before.
abbrev pub read_bytes : ℕ → List ℕ → ℕ
read_bytes n [] = n
read_bytes n (b ∷ bs) = read_bytes (n * 256 + b) bs

abbrev pub AreBytes : List ℕ → Type 0
AreBytes = All (λ b. b < 256)

abbrev pub starts_with_zero : List ℕ → Bool
starts_with_zero [] = false
starts_with_zero (zero ∷ bs) = true
starts_with_zero (suc b ∷ bs) = false

read-byte_loop :
    (fuel v : ℕ) (bytes : List ℕ)
    → v ≤ fuel
    → read_bytes 0 (byte_loop fuel v bytes) ≡ read_bytes v bytes
unfolding byte_loop
read-byte_loop zero zero bytes h = refl
read-byte_loop zero (suc v) bytes h = absurd (omega arith)
read-byte_loop (suc fuel) zero bytes h = refl
read-byte_loop (suc fuel) (suc v) bytes h =
    let whole : suc v / 256 * 256 + suc v % 256 ≡ suc v = omega arith in
    ground (arith, read-byte_loop fuel (suc v / 256) ((suc v % 256) ∷ bytes), whole)

byte_loop-AreBytes :
    (fuel v : ℕ) (bytes : List ℕ) → AreBytes bytes → AreBytes (byte_loop fuel v bytes)
unfolding byte_loop
byte_loop-AreBytes zero v bytes h = h
byte_loop-AreBytes (suc fuel) v bytes h =
    ground (arith, byte_loop-AreBytes fuel (v / 256) ((v % 256) ∷ bytes))

not-starts_with_zero : (b : ℕ) (bs : List ℕ) → 0 < b → starts_with_zero (b ∷ bs) ≡ false
not-starts_with_zero zero bs h = absurd (omega arith)
not-starts_with_zero (suc b) bs h = refl

byte_loop-minimal :
    (fuel v : ℕ) (bytes : List ℕ)
    → v ≤ fuel
    → (v ≡ 0 → starts_with_zero bytes ≡ false)
    → starts_with_zero (byte_loop fuel v bytes) ≡ false
unfolding byte_loop
byte_loop-minimal zero v bytes h k = k (omega arith)
byte_loop-minimal (suc fuel) zero bytes h k = k refl
byte_loop-minimal (suc fuel) (suc v) bytes h k = ground (
  arith,
  byte_loop-minimal fuel (suc v / 256) ((suc v % 256) ∷ bytes) (omega arith)
      (λ z. not-starts_with_zero (suc v % 256) bytes (omega arith)),
)

-- The bytes are those of a number, most significant first, with no zero in front.
pub record Encodes (e : ℕ) (bytes : List ℕ) : Type 0 where
  pub are_bytes : AreBytes bytes
  pub reads_back : read_bytes 0 bytes ≡ e
  pub minimal : e ≢ 0 → starts_with_zero bytes ≡ false

-- An exponent that is not negative is encoded to bytes, which read back as the exponent, and the
-- first of which is not zero unless the exponent is.
pub big_endian_bytes-Encodes :
    (e : ℕ) → (bytes : List ℕ) × (big_endian_bytes (pos e) ≡ ok bytes) × Encodes e bytes
unfolding big_endian_bytes
big_endian_bytes-Encodes zero = (
  0 ∷ [],
  refl,
  record { are_bytes = omega arith; reads_back = refl; minimal = λ h. absurd (h refl) },
)
big_endian_bytes-Encodes (suc e) = (
  byte_loop (suc e) (suc e) [],
  refl,
  record {
    are_bytes = byte_loop-AreBytes (suc e) (suc e) [] tt;
    reads_back = read-byte_loop (suc e) (suc e) [] (omega arith);
    minimal = λ _. byte_loop-minimal (suc e) (suc e) [] (omega arith) (λ z. absurd (omega arith));
  },
)
