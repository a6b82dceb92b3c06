-- ===== src/Tests/Utility.antt =====
-- Tests of internal/utility.
use gosso.Prelude.{ℕ, ◌≡◌, ◌↔◌, refl, List, [], ◌∷◌, ◌++◌, codes, arith, ok, err}
use gosso.Utility.BigEndian.{
  pos, negsuc, negative_input, big_endian_bytes, Encodes, big_endian_bytes-Encodes,
}
use gosso.Utility.Mask.{
  mask_email, mask_identifier, mask_opaque_id, mask_rate_limit_key, mask_email-shows,
  mask_rate_limit_key-shows,
}
use gosso.Utility.Password.{
  IsStrong, validate_password_strength, validate_password_strength_iff, password_complexity,
}
use gosso.Tests.Fixtures.{ascii_upper, ascii_lower, ascii_digit}

exponent : big_endian_bytes (pos 65537) ≡ ok (1 ∷ 0 ∷ 1 ∷ [])
unfolding big_endian_bytes
exponent = refl

negative_exponent : big_endian_bytes (negsuc 0) ≡ err negative_input
unfolding big_endian_bytes
negative_exponent = refl

big_endian_bytes-Encodes_test :
    (bytes : List ℕ) × (big_endian_bytes (pos 65537) ≡ ok bytes) × Encodes 65537 bytes
big_endian_bytes-Encodes_test = big_endian_bytes-Encodes 65537

mask_email-shows_test :
    mask_email (codes "u" ++ codes "ser" ++ codes "@example.com") ≡ codes "u***@e***"
mask_email-shows_test = mask_email-shows 117 101 (codes "ser") (codes "xample.com") (omega arith)

rate_limit_key_masked :
    mask_rate_limit_key (codes "login_attempts:10.0.0.1:bob") ≡ codes "login_attempts:***"
rate_limit_key_masked =
    mask_rate_limit_key-shows (codes "login_attempts") (codes "10.0.0.1:bob") (omega arith)

masked_identifiers :
    (mask_identifier "phone" (codes "13800138000") ≡ codes "138***00")
    × (mask_identifier "totp" (codes "secret") ≡ codes "***")
    × (mask_opaque_id (codes "0123456789") ≡ codes "0123***6789")
unfolding mask_identifier mask_opaque_id
masked_identifiers = (refl, refl, refl)

weak_password :
    validate_password_strength ascii_upper ascii_lower ascii_digit "correcthorsebattery"
    ≡ err password_complexity
unfolding validate_password_strength
weak_password = refl

validate_password_strength_iff_example :
    (validate_password_strength ascii_upper ascii_lower ascii_digit "Correct-Horse-7" ≡ ok tt)
    ↔ IsStrong ascii_upper ascii_lower ascii_digit "Correct-Horse-7"
validate_password_strength_iff_example =
    validate_password_strength_iff ascii_upper ascii_lower ascii_digit "Correct-Horse-7"
