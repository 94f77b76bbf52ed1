-- ===== src/Encoding/Base64.antt =====
-- encoding/base64's StdEncoding. The decoder skips line breaks and wants the padding.
use sigsum_lib_go.Prelude.{ℕ, ◌+◌, ◌-◌, ◌*◌, ◌/◌, ◌%◌, ◌&&◌, ◌||◌, [], ◌∷◌}
use sigsum_lib_go.Prelude.{ltb, leb, ◌==◌, if◌then◌else◌}
use sigsum_lib_go.Result.{Result, Error, ok, err, errorf, ◌>>=◌}
use sigsum_lib_go.Crypto.{Bytes}

-- A-Z a-z 0-9 + /
unfoldable pub base64_digit : ℕ → ℕ
base64_digit d =
    if ltb d 26
    then 65 + d
    else if ltb d 52
    then 71 + d
    else if ltb d 62
    then d - 4
    else if d == 62
    then 43
    else 47

unfoldable pub base64_encode : Bytes → Bytes
base64_encode [] = []
base64_encode (a ∷ []) = base64_digit (a / 4) ∷ base64_digit (a % 4 * 16) ∷ 61 ∷ 61 ∷ []
base64_encode (a ∷ b ∷ []) =
    base64_digit (a / 4) ∷ base64_digit (a % 4 * 16 + b / 16) ∷ base64_digit (b % 16 * 4) ∷ 61 ∷ []
base64_encode (a ∷ b ∷ c ∷ bs) =
    base64_digit (a / 4)
    ∷ base64_digit (a % 4 * 16 + b / 16)
    ∷ base64_digit (b % 16 * 4 + c / 64)
    ∷ base64_digit (c % 64)
    ∷ base64_encode bs

abbrev pub corrupt : Error
corrupt = errorf "illegal base64 data at input byte"

unfoldable pub from_base64_digit : ℕ → Result ℕ
from_base64_digit c =
    if leb 65 c && leb c 90
    then ok (c - 65)
    else if leb 97 c && leb c 122
    then ok (c - 71)
    else if leb 48 c && leb c 57
    then ok (c + 4)
    else if c == 43
    then ok 62
    else if c == 47
    then ok 63
    else err corrupt

unfoldable pub without_breaks : Bytes → Bytes
without_breaks [] = []
without_breaks (c ∷ s) =
    let rest = without_breaks s in if c == 10 || c == 13 then rest else c ∷ rest

unfoldable pub decode_quanta : Bytes → Result Bytes
decode_quanta [] = ok []
decode_quanta (a ∷ b ∷ c ∷ d ∷ []) =
    if d == 61
    then (do
      x ← from_base64_digit a
      y ← from_base64_digit b
      if c == 61
          then ok ((x * 4 + y / 16) ∷ [])
          else (do z ← from_base64_digit c; ok ((x * 4 + y / 16) ∷ (y % 16 * 16 + z / 4) ∷ [])))
    else (do
      x ← from_base64_digit a
      y ← from_base64_digit b
      z ← from_base64_digit c
      w ← from_base64_digit d
      ok ((x * 4 + y / 16) ∷ (y % 16 * 16 + z / 4) ∷ (z % 4 * 64 + w) ∷ []))
decode_quanta (a ∷ b ∷ c ∷ d ∷ e ∷ s) = do
  x ← from_base64_digit a
  y ← from_base64_digit b
  z ← from_base64_digit c
  w ← from_base64_digit d
  rest ← decode_quanta (e ∷ s)
  ok ((x * 4 + y / 16) ∷ (y % 16 * 16 + z / 4) ∷ (z % 4 * 64 + w) ∷ rest)
decode_quanta _ = err corrupt

unfoldable pub base64_decode : Bytes → Result Bytes
base64_decode s = decode_quanta (without_breaks s)
