-- ===== src/Tests/Samples.antt =====
-- A hash function and leaf hashes to run the code on.
use sigsum_lib_go.Prelude.{
  All, ℕ, zero, suc, ◌≡◌, refl, arith, List, [], ◌∷◌, ◌++◌, length, take, length-take,
  length-append,
}
use sigsum_lib_go.Crypto.{IsByte, Bytes, Hash, Sha256, zeros}

length-zeros : (n : ℕ) → length (zeros n) ≡ n
length-zeros zero = refl
length-zeros (suc n) = omega (arith, length-zeros n)

pub length-sample : (b : Bytes) → length (take 32 (b ++ zeros 32)) ≡ 32
length-sample b =
    omega (arith, length-take 32 (b ++ zeros 32), length-append b (zeros 32), length-zeros 32)

-- The first 32 bytes of the input.
abbrev pub sample_sha : Sha256
sample_sha = record { sum256 = λ b. take 32 (b ++ zeros 32); length-sum256 = length-sample }

abbrev pub hash_a : Hash
hash_a = 7 ∷ zeros 31

abbrev pub hash_b : Hash
hash_b = 8 ∷ zeros 31

abbrev pub two_leaves : List Hash
two_leaves = hash_a ∷ hash_b ∷ []

pub zeros-IsByte : (n : ℕ) → All IsByte (zeros n)
zeros-IsByte zero = tt
zeros-IsByte (suc n) = (omega arith, zeros-IsByte n)
