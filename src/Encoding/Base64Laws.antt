-- ===== src/Encoding/Base64Laws.antt =====
-- What base64 encodes is what it decodes.
use sigsum_lib_go.Prelude.{
  ℕ, ◌+◌, ◌*◌, ◌/◌, ◌%◌, ◌≤◌, ◌<◌, ◌≡◌, ◌≢◌, refl, ◌∙◌, arith, false, [], ◌∷◌, All, ◌==◌, ◌||◌,
}
use sigsum_lib_go.Result.{ok}
use sigsum_lib_go.Crypto.{Bytes, IsByte}
use sigsum_lib_go.Encoding.Base64.{
  base64_digit, base64_encode, from_base64_digit, without_breaks, decode_quanta, base64_decode,
}

from_base64_digit-base64_digit : (d : ℕ) → d < 64 → from_base64_digit (base64_digit d) ≡ ok d
unfolding from_base64_digit base64_digit
from_base64_digit-base64_digit d h = ground arith

base64_digit-range : (d : ℕ) → d < 64 → (43 ≤ base64_digit d) × (base64_digit d ≢ 61)
unfolding base64_digit
base64_digit-range d h = (ground arith, λ e. ground arith)

base64_digit_no_pad : (d : ℕ) → d < 64 → (base64_digit d == 61) ≡ false
base64_digit_no_pad d h = let (_, other) = base64_digit-range d h in ground arith

pub base64_encode_cons :
    (r : ℕ) (rs : Bytes) → (e : ℕ) × (s : Bytes) × (base64_encode (r ∷ rs) ≡ e ∷ s)
unfolding base64_encode
base64_encode_cons r [] = (_, _, refl)
base64_encode_cons r (b ∷ []) = (_, _, refl)
base64_encode_cons r (b ∷ c ∷ bs) = (_, _, refl)

-- A quantum in front of another one.
quantum :
    (x y z w : ℕ) (s rest : Bytes)
    → x < 64
    → y < 64
    → z < 64
    → w < 64
    → ((e : ℕ) × (t : Bytes) × (s ≡ e ∷ t))
    → decode_quanta s ≡ ok rest
    → decode_quanta (base64_digit x ∷ base64_digit y ∷ base64_digit z ∷ base64_digit w ∷ s)
      ≡ ok ((x * 4 + y / 16) ∷ (y % 16 * 16 + z / 4) ∷ (z % 4 * 64 + w) ∷ rest)
unfolding decode_quanta
quantum x y z w s rest hx hy hz hw (e, t, some_more) tail = rw (
  some_more,
  decode_quanta,
  from_base64_digit-base64_digit x hx,
  from_base64_digit-base64_digit y hy,
  from_base64_digit-base64_digit z hz,
  from_base64_digit-base64_digit w hw,
  rw some_more at tail,
)

decode_quanta-base64_encode : (b : Bytes) → All IsByte b → decode_quanta (base64_encode b) ≡ ok b
unfolding decode_quanta base64_encode
decode_quanta-base64_encode [] h = refl
decode_quanta-base64_encode (a ∷ []) (ha, _) =
    let x = from_base64_digit-base64_digit (a / 4) (omega (arith, ha)) in
    let y = from_base64_digit-base64_digit (a % 4 * 16) (omega arith) in
    let one : a / 4 * 4 + a % 4 * 16 / 16 ≡ a = omega arith in
    rw (base64_encode, decode_quanta, x, y, one)
decode_quanta-base64_encode (a ∷ b ∷ []) (ha, (hb, _)) =
    let x = from_base64_digit-base64_digit (a / 4) (omega (arith, ha)) in
    let y = from_base64_digit-base64_digit (a % 4 * 16 + b / 16) (omega (arith, hb)) in
    let z = from_base64_digit-base64_digit (b % 16 * 4) (omega arith) in
    let no_pad = base64_digit_no_pad (b % 16 * 4) (omega arith) in
    let one : a / 4 * 4 + (a % 4 * 16 + b / 16) / 16 ≡ a = omega (arith, hb) in
    let two : (a % 4 * 16 + b / 16) % 16 * 16 + b % 16 * 4 / 4 ≡ b = omega (arith, hb) in
    rw (base64_encode, decode_quanta, no_pad, x, y, z, one, two)
decode_quanta-base64_encode (a ∷ b ∷ c ∷ []) (ha, (hb, (hc, _))) =
    let x = from_base64_digit-base64_digit (a / 4) (omega (arith, ha)) in
    let y = from_base64_digit-base64_digit (a % 4 * 16 + b / 16) (omega (arith, hb)) in
    let z = from_base64_digit-base64_digit (b % 16 * 4 + c / 64) (omega (arith, hc)) in
    let w = from_base64_digit-base64_digit (c % 64) (omega arith) in
    let no_pad = base64_digit_no_pad (c % 64) (omega arith) in
    let one : a / 4 * 4 + (a % 4 * 16 + b / 16) / 16 ≡ a = omega (arith, hb) in
    let two : (a % 4 * 16 + b / 16) % 16 * 16 + (b % 16 * 4 + c / 64) / 4 ≡ b =
      omega (arith, hb, hc) in
    let three : (b % 16 * 4 + c / 64) % 4 * 64 + c % 64 ≡ c = omega (arith, hc) in
    rw (base64_encode, decode_quanta, no_pad, x, y, z, w, one, two, three)
decode_quanta-base64_encode (a ∷ b ∷ c ∷ d ∷ ds) (ha, (hb, (hc, h))) =
    let one : a / 4 * 4 + (a % 4 * 16 + b / 16) / 16 ≡ a = omega (arith, hb) in
    let two : (a % 4 * 16 + b / 16) % 16 * 16 + (b % 16 * 4 + c / 64) / 4 ≡ b =
      omega (arith, hb, hc) in
    let three : (b % 16 * 4 + c / 64) % 4 * 64 + c % 64 ≡ c = omega (arith, hc) in
    quantum (a / 4) (a % 4 * 16 + b / 16) (b % 16 * 4 + c / 64) (c % 64) (base64_encode (d ∷ ds))
      (d ∷ ds) (omega (arith, ha)) (omega (arith, hb)) (omega (arith, hc)) (omega arith)
      (base64_encode_cons d ds) (decode_quanta-base64_encode (d ∷ ds) h)
    ∙ rw (one, two, three) refl

base64_digit_low : (d : ℕ) → 43 ≤ base64_digit d
unfolding base64_digit
base64_digit_low d = ground arith

-- The characters of base64 text.
pub base64_encode-All : (b : Bytes) → All (λ c. 43 ≤ c) (base64_encode b)
unfolding base64_encode
base64_encode-All [] = tt
base64_encode-All (a ∷ []) =
    (base64_digit_low _, (base64_digit_low _, (omega arith, (omega arith, tt))))
base64_encode-All (a ∷ b ∷ []) =
    (base64_digit_low _, (base64_digit_low _, (base64_digit_low _, (omega arith, tt))))
base64_encode-All (a ∷ b ∷ c ∷ bs) = (
  base64_digit_low _,
  (base64_digit_low _, (base64_digit_low _, (base64_digit_low _, base64_encode-All bs))),
)

without_breaks_none : (s : Bytes) → All (λ c. 43 ≤ c) s → without_breaks s ≡ s
unfolding without_breaks
without_breaks_none [] h = refl
without_breaks_none (c ∷ s) (hc, h) =
    let other : (c == 10 || c == 13) ≡ false = ground arith in
    rw (without_breaks, other, without_breaks_none s h)

-- Decoding the base64 text of some bytes gives these bytes.
pub base64_decode-base64_encode :
    (b : Bytes) → All IsByte b → base64_decode (base64_encode b) ≡ ok b
unfolding base64_decode
base64_decode-base64_encode b h =
    rw (without_breaks_none (base64_encode b) (base64_encode-All b))
      (decode_quanta-base64_encode b h)
