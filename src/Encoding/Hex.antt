-- ===== src/Encoding/Hex.antt =====
-- fmt's %x of a byte slice, and encoding/hex's DecodeString, which takes both cases.
use sigsum_lib_go.Prelude.{ℕ, ◌+◌, ◌-◌, ◌*◌, ◌/◌, ◌%◌, ◌&&◌, [], ◌∷◌}
use sigsum_lib_go.Prelude.{ltb, leb, if◌then◌else◌}
use sigsum_lib_go.Result.{Result, ok, err, errorf, ◌>>=◌}
use sigsum_lib_go.Crypto.{Bytes}

unfoldable pub hex_digit : ℕ → ℕ
hex_digit d = if ltb d 10 then 48 + d else 87 + d

unfoldable pub hex_encode : Bytes → Bytes
hex_encode [] = []
hex_encode (b ∷ bs) = hex_digit (b / 16) ∷ hex_digit (b % 16) ∷ hex_encode bs

unfoldable pub from_hex_digit : ℕ → Result ℕ
from_hex_digit c =
    if leb 48 c && leb c 57
    then ok (c - 48)
    else if leb 97 c && leb c 102
    then ok (c - 87)
    else if leb 65 c && leb c 70
    then ok (c - 55)
    else err (errorf "encoding/hex: invalid byte")

unfoldable pub hex_decode : Bytes → Result Bytes
hex_decode [] = ok []
hex_decode (a ∷ []) = err (errorf "encoding/hex: odd length hex string")
hex_decode (a ∷ b ∷ s) = do
  x ← from_hex_digit a
  y ← from_hex_digit b
  rest ← hex_decode s
  ok ((x * 16 + y) ∷ rest)
