-- ===== src/Encoding/Decimal.antt =====
-- fmt's %d of a uint64, and strconv.ParseUint in base 10 with 63 bits. A uint64 has at most 20
-- digits.
use sigsum_lib_go.Prelude.{ℕ, zero, suc, ◌+◌, ◌-◌, ◌*◌, ◌/◌, ◌%◌, ◌^◌, Bool, ◌&&◌, [], ◌∷◌, ◌++◌}
use sigsum_lib_go.Prelude.{ltb, leb, if◌then◌else◌}
use sigsum_lib_go.Result.{Result, ok, err, errorf}
use sigsum_lib_go.Crypto.{Bytes}

unfoldable pub format_digits : ℕ → ℕ → Bytes
format_digits zero n = []
format_digits (suc k) n =
    let front = format_digits k (n / 10) in
    if ltb n 10 then (48 + n) ∷ [] else front ++ (48 + n % 10) ∷ []

abbrev pub format_uint : ℕ → Bytes
format_uint n = format_digits 20 n

abbrev pub is_digit : ℕ → Bool
is_digit c = leb 48 c && leb c 57

abbrev pub max_int63 : ℕ
max_int63 = 2 ^ 63 - 1

unfoldable pub parse_digits : ℕ → Bytes → Result ℕ
parse_digits n [] = ok n
parse_digits n (c ∷ s) =
    let rest = parse_digits (n * 10 + (c - 48)) s in
    if is_digit c
    then (if ltb max_int63 (n * 10 + (c - 48))
        then err (errorf "strconv.ParseUint: value out of range")
        else rest)
    else err (errorf "strconv.ParseUint: invalid syntax")

unfoldable pub parse_uint63 : Bytes → Result ℕ
parse_uint63 [] = err (errorf "strconv.ParseUint: invalid syntax")
parse_uint63 (c ∷ s) = parse_digits 0 (c ∷ s)
