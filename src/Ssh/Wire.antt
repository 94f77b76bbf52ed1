-- ===== src/Ssh/Wire.antt =====
-- internal/ssh/ssh.go: numbers and strings of the SSH wire format. A nil buffer is `none`.
use sigsum_lib_go.Prelude.{ℕ, ◌++◌, Option, none, some, [], length, take, drop, ltb, if◌then◌else◌}
use sigsum_lib_go.Prelude.Text.{codes}
use sigsum_lib_go.Result.{Result, ok, panic, ◌>>=◌}
use sigsum_lib_go.Crypto.{Bytes, Hash, Sha256, hash_bytes}
use sigsum_lib_go.Checkpoint.Cosignature.{put_big_endian, get_big_endian}
use sigsum_lib_go.Requests.AddCheckpoint.{cut_prefix}

abbrev pub max_int32 : ℕ
max_int32 = 2147483647

unfoldable pub serialize_uint32 : ℕ → Bytes
serialize_uint32 x = put_big_endian 4 x

-- A string that is too long panics.
unfoldable pub serialize_string : Bytes → Result Bytes
serialize_string s =
    if ltb max_int32 (length s) then panic else ok (serialize_uint32 (length s) ++ s)

unfoldable pub signed_data_from_hash : Bytes → Hash → Result Bytes
signed_data_from_hash namespace hash = do
  name ← serialize_string namespace
  reserved ← serialize_string []
  algorithm ← serialize_string (codes "sha256")
  digest ← serialize_string hash
  ok (codes "SSHSIG" ++ (name ++ (reserved ++ (algorithm ++ digest))))

unfoldable pub signed_data : Sha256 → Bytes → Bytes → Result Bytes
signed_data sha namespace msg = signed_data_from_hash namespace (hash_bytes sha msg)

unfoldable pub skip_prefix : Bytes → Bytes → Option Bytes
skip_prefix buffer prefix = cut_prefix prefix buffer

unfoldable pub parse_uint32 : Bytes → Option (ℕ × Bytes)
parse_uint32 buffer =
    if ltb (length buffer) 4 then none else some (get_big_endian 0 (take 4 buffer), drop 4 buffer)

abbrev pub string_of : Option (ℕ × Bytes) → Option (Bytes × Bytes)
string_of none = none
string_of (some (n, buffer)) =
    if ltb (length buffer) n then none else some (take n buffer, drop n buffer)

unfoldable pub parse_string : Bytes → Option (Bytes × Bytes)
parse_string buffer = string_of (parse_uint32 buffer)
