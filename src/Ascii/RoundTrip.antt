-- ===== src/Ascii/RoundTrip.antt =====
-- What is written in hexadecimal or in decimal is read back.
use sigsum_lib_go.Prelude.{
  ℕ, zero, suc, ◌+◌, ◌-◌, ◌*◌, ◌/◌, ◌%◌, ◌^◌, ◌<◌, ◌≤◌, ◌≡◌, ◌≢◌, refl, ap, ◌∙◌, arith, [], ◌∷◌,
  ◌++◌, length, All, ltb, ◌==◌, Bool-cases, inl, inr, true, false,
}
use native.Mathlib.Nat.{pow-suc}
use sigsum_lib_go.Result.{ok, ◌>>=◌}
use sigsum_lib_go.Crypto.{Signature, signature_size, Bytes, IsByte, Hash, IsHash, hash_size}
use sigsum_lib_go.Encoding.Hex.{hex_digit, hex_encode, from_hex_digit, hex_decode}
use sigsum_lib_go.Encoding.Decimal.{
  format_digits, format_uint, is_digit, max_int63, parse_digits, parse_uint63,
}
use sigsum_lib_go.Ascii.Parser.{has_leading_zero, int_from_decimal}
use sigsum_lib_go.Encoding.Fixed.{signature_from_hex, decode_hex, hash_from_hex}

from_hex_digit-hex_digit : (d : ℕ) → d < 16 → from_hex_digit (hex_digit d) ≡ ok d
unfolding from_hex_digit hex_digit
from_hex_digit-hex_digit d h = ground arith

pub hex_decode-hex_encode : (b : Bytes) → All IsByte b → hex_decode (hex_encode b) ≡ ok b
unfolding hex_decode hex_encode
hex_decode-hex_encode [] h = refl
hex_decode-hex_encode (x ∷ b) (hx, h) =
    let high = from_hex_digit-hex_digit (x / 16) (omega arith) in
    let low = from_hex_digit-hex_digit (x % 16) (omega arith) in
    let value : x / 16 * 16 + x % 16 ≡ x = omega arith in
    rw (high, low, hex_decode-hex_encode b h, value)

-- HashFromHex reads back every hash of 32 bytes from the digits that `%x` writes.
pub hash_from_hex-hex_encode :
    (h : Hash) → All IsByte h → IsHash h → hash_from_hex (hex_encode h) ≡ ok h
unfolding hash_from_hex decode_hex
hash_from_hex-hex_encode h b n =
    let size : (length h == hash_size) ≡ true = ground arith in rw (hex_decode-hex_encode h b, size)

pub signature_from_hex-hex_encode :
    (s : Signature)
    → All IsByte s
    → length s ≡ signature_size
    → signature_from_hex (hex_encode s) ≡ ok s
unfolding signature_from_hex decode_hex
signature_from_hex-hex_encode s b n =
    let size : (length s == signature_size) ≡ true = ground arith in
    rw (hex_decode-hex_encode s b, size)

parse_digits-append :
    (a : ℕ) (s t : Bytes) → parse_digits a (s ++ t) ≡ (parse_digits a s >>= λ m. parse_digits m t)
unfolding parse_digits
parse_digits-append a [] t = refl
parse_digits-append a (c ∷ s) t = elim (Bool-cases (is_digit c)) [
  | inr other ↦ rw other refl
  | inl digit ↦ elim (Bool-cases (ltb max_int63 (a * 10 + (c - 48)))) [
    | inl large ↦ rw (digit, large) refl
    | inr small ↦ rw (digit, small) (parse_digits-append (a * 10 + (c - 48)) s t)
  ]
]

parse_digits-digit :
    (a d : ℕ) → d < 10 → a * 10 + d < 2 ^ 63 → parse_digits a ((48 + d) ∷ []) ≡ ok (a * 10 + d)
unfolding parse_digits
parse_digits-digit a d h k = ground arith

parse_digits-format_digits :
    (k n : ℕ) → n < 10 ^ k → n < 2 ^ 63 → parse_digits 0 (format_digits k n) ≡ ok n
unfolding format_digits parse_digits
parse_digits-format_digits zero n h m = ap ok (omega arith)
parse_digits-format_digits (suc k) n h m = elim (Bool-cases (ltb n 10)) [
  | inl one ↦ rw one (parse_digits-digit 0 n (ground arith) (omega arith) ∙ ap ok (omega arith))
  | inr more ↦
      let large : 10 ≤ n = ground arith in
      let front =
        parse_digits-format_digits k (n / 10) (omega (arith, pow-suc 10 k)) (omega arith) in
      rw (more, parse_digits-append 0 (format_digits k (n / 10)) ((48 + n % 10) ∷ []), front)
        (parse_digits-digit (n / 10) (n % 10) (omega arith) (omega arith) ∙ ap ok (omega arith))
]

-- The digits of a number that is not 0 start with another digit than 0.
format_digits-positive :
    (k n : ℕ) → n < 10 ^ k → 0 < n → (c : ℕ) × (s : Bytes) × (format_digits k n ≡ c ∷ s) × (49 ≤ c)
unfolding format_digits
format_digits-positive zero n h p = absurd (omega arith)
format_digits-positive (suc k) n h p = elim (Bool-cases (ltb n 10)) [
  | inl one ↦ (48 + n, [], rw one, omega arith)
  | inr more ↦
      let large : 10 ≤ n = ground arith in
      let (c, s, e, q) =
        format_digits-positive k (n / 10) (omega (arith, pow-suc 10 k)) (omega arith) in
      (c, s ++ (48 + n % 10) ∷ [], rw (more, e), q)
]

has_leading_zero-format_uint : (n : ℕ) → n < 2 ^ 63 → has_leading_zero (format_uint n) ≡ false
has_leading_zero-format_uint zero h = unfold format_digits in refl
has_leading_zero-format_uint (suc n) h =
    let (c, s, e, q) = format_digits-positive 20 (suc n) (omega arith) (omega arith) in
    rw e (other c s q)
  where
    other : (c : ℕ) (s : Bytes) → 49 ≤ c → has_leading_zero (c ∷ s) ≡ false
    other c [] q = refl
    other c (d ∷ s) q = ground arith

snoc-ne-nil : (s : Bytes) (c : ℕ) → s ++ c ∷ [] ≢ []
snoc-ne-nil [] c e = cc
snoc-ne-nil (d ∷ s) c e = cc

format_digits-ne-nil : (k n : ℕ) → format_digits (suc k) n ≢ []
unfolding format_digits
format_digits-ne-nil k n = elim (Bool-cases (ltb n 10)) [
  | inl one ↦ rw one (λ e. cc)
  | inr more ↦ rw more (snoc-ne-nil (format_digits k (n / 10)) (48 + n % 10))
]

parse_uint63-digits : (s : Bytes) → s ≢ [] → parse_uint63 s ≡ parse_digits 0 s
unfolding parse_uint63
parse_uint63-digits [] h = absurd (h refl)
parse_uint63-digits (c ∷ s) h = refl

-- IntFromDecimal reads back every number below 2 ^ 63 from the digits that `%d` writes.
pub int_from_decimal-format_uint : (n : ℕ) → n < 2 ^ 63 → int_from_decimal (format_uint n) ≡ ok n
unfolding int_from_decimal
int_from_decimal-format_uint n h = rw (has_leading_zero-format_uint n h) (
    parse_uint63-digits (format_uint n) (format_digits-ne-nil 19 n)
    ∙ parse_digits-format_digits 20 n (omega arith) h)
