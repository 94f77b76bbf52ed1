-- ===== src/Merkle/Xor.antt =====
-- Exclusive or digit by digit: its half, and when it is 0.
use Prim.Native.Nat.{ℕ, zero, suc, ◌+◌, ◌*◌, ◌/◌, ◌%◌, ◌≤◌, ◌<◌}
use Prim.Native.Nat.{bit_xor, bit_xor-bitwise, digits, differ}
use sigsum_lib_go.Prelude.{◌≡◌, refl, arith}

abbrev xor_digits : ℕ → ℕ → ℕ → ℕ
xor_digits fuel a b = digits (λ rest. rest) differ fuel a b

-- Any fuel from `a` on gives the same digits.
xor_digits_fuel : (m n a b : ℕ) → a ≤ m → a ≤ n → xor_digits m a b ≡ xor_digits n a b
xor_digits_fuel zero zero a b h k = refl
xor_digits_fuel zero (suc n) zero b h k = refl
xor_digits_fuel zero (suc n) (suc a) b h k = absurd (omega arith)
xor_digits_fuel (suc m) zero zero b h k = refl
xor_digits_fuel (suc m) zero (suc a) b h k = absurd (omega arith)
xor_digits_fuel (suc m) (suc n) zero b h k = refl
xor_digits_fuel (suc m) (suc n) (suc a) b h k =
    rw (xor_digits_fuel m n (suc a / 2) (b / 2) (omega arith) (omega arith))

bit_xor_digit : (a b : ℕ) → bit_xor a b ≡ bit_xor (a / 2) (b / 2) * 2 + differ (a % 2) (b % 2)
bit_xor_digit zero b = simp bit_xor-bitwise (omega arith)
bit_xor_digit (suc a) b =
    simp bit_xor-bitwise
      (omega (arith, xor_digits_fuel a (suc a / 2) (suc a / 2) (b / 2) (omega arith) (omega arith)))

differ_bits : (p q : ℕ) → p < 2 → q < 2 → (differ p q < 2) × (differ p q ≡ 0 → p ≡ q)
differ_bits zero q h k = (k, λ e. omega arith)
differ_bits (suc zero) zero h k = (omega arith, λ e. omega arith)
differ_bits (suc zero) (suc zero) h k = (omega arith, λ e. refl)
differ_bits (suc zero) (suc (suc q)) h k = absurd (omega arith)
differ_bits (suc (suc p)) q h k = absurd (omega arith)

differ_self : (p : ℕ) → differ p p ≡ 0
differ_self zero = refl
differ_self (suc p) = differ_self p

pub bit_xor-half : (a b : ℕ) → bit_xor a b / 2 ≡ bit_xor (a / 2) (b / 2)
bit_xor-half a b =
    omega (arith, bit_xor_digit a b, (differ_bits (a % 2) (b % 2) (omega arith) (omega arith)).0)

bit_xor_self_fuel : (n a : ℕ) → a ≤ n → bit_xor a a ≡ 0
bit_xor_self_fuel zero zero h = refl
bit_xor_self_fuel zero (suc a) h = absurd (omega arith)
bit_xor_self_fuel (suc n) zero h = refl
bit_xor_self_fuel (suc n) (suc a) h = omega (
  arith,
  bit_xor_digit (suc a) (suc a),
  differ_self (suc a % 2),
  bit_xor_self_fuel n (suc a / 2) (omega arith),
)

pub bit_xor_self : (a : ℕ) → bit_xor a a ≡ 0
bit_xor_self a = bit_xor_self_fuel a a (omega arith)

bit_xor_zero_fuel : (n a b : ℕ) → a + b ≤ n → bit_xor a b ≡ 0 → a ≡ b
bit_xor_zero_fuel zero a b h e = omega arith
bit_xor_zero_fuel (suc n) a b h e = omega (
  arith,
  bit_xor_digit a b,
  (differ_bits (a % 2) (b % 2) (omega arith) (omega arith)).1 (omega (arith, bit_xor_digit a b)),
  bit_xor_zero_fuel n (a / 2) (b / 2) (omega arith) (omega (arith, bit_xor-half a b)),
)

pub eq_of_bit_xor : (a b : ℕ) → bit_xor a b ≡ 0 → a ≡ b
eq_of_bit_xor a b e = bit_xor_zero_fuel (a + b) a b (omega arith) e
