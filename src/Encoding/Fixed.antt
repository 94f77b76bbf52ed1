-- ===== src/Encoding/Fixed.antt =====
-- pkg/crypto/crypto.go: byte arrays of a fixed size from their text forms.
use sigsum_lib_go.Prelude.{ℕ, length, ◌==◌, if◌then◌else◌}
use sigsum_lib_go.Result.{Result, ok, err, errorf, ◌>>=◌}
use sigsum_lib_go.Crypto.{
  Bytes, Hash, Signature, PublicKey, hash_size, signature_size, public_key_size,
}
use sigsum_lib_go.Encoding.Hex.{hex_decode}
use sigsum_lib_go.Encoding.Base64.{base64_decode}

abbrev pub check_length : ℕ → Bytes → Result Bytes
check_length n b =
    if length b == n
    then ok b
    else err (errorf "unexpected length of hex data, expected %d, got %d")

unfoldable pub decode_hex : ℕ → Bytes → Result Bytes
decode_hex n s = do b ← hex_decode s; check_length n b

unfoldable pub decode_base64 : ℕ → Bytes → Result Bytes
decode_base64 n s = do b ← base64_decode s; check_length n b

unfoldable pub hash_from_hex : Bytes → Result Hash
hash_from_hex s = decode_hex hash_size s

unfoldable pub public_key_from_hex : Bytes → Result PublicKey
public_key_from_hex s = decode_hex public_key_size s

unfoldable pub signature_from_hex : Bytes → Result Signature
signature_from_hex s = decode_hex signature_size s

unfoldable pub hash_from_base64 : Bytes → Result Hash
hash_from_base64 s = decode_base64 hash_size s
