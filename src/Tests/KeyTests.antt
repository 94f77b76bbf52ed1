-- ===== src/Tests/KeyTests.antt =====
-- A private key file, and the keys that are read from it.
use sigsum_lib_go.Prelude.{◌≡◌, refl, Option, some, [], ◌∷◌, eq_bytes}
use sigsum_lib_go.Result.{Result, ok, err, panic}
use sigsum_lib_go.Crypto.{Bytes, PublicKey, zeros}
use sigsum_lib_go.Checkpoint.Cosignature.{put_big_endian, get_big_endian}
use sigsum_lib_go.Requests.AddCheckpoint.{cut_prefix}
use sigsum_lib_go.Ssh.Wire.{
  serialize_string, serialize_uint32, skip_prefix, parse_uint32, parse_string,
}
use sigsum_lib_go.Ssh.PublicKeys.{serialize_public_ed25519, parse_public_blob}
use sigsum_lib_go.Ssh.PrivateKeys.{
  pem_private_key_tag, openssh_private_key_prefix, private_key_blob, check_keys, parse_private_part,
  parse_private_blob, parse_private_key_file,
}
use sigsum_lib_go.Ssh.PrivateKeyLaws.{KeyPair, parse_private_key_file-KeyPair}

abbrev sample_secret : Bytes
sample_secret = 5 ∷ zeros 31

abbrev sample_public : Bytes → PublicKey
sample_public secret = 9 ∷ zeros 31

-- An armour that leaves the bytes as they are.
abbrev bare : Bytes → Option (Bytes × Bytes)
bare text = some (pem_private_key_tag, text)

abbrev contents : Result Bytes → Bytes
contents (ok text) = text
contents (err _) = []
contents panic = []

abbrev key_file : Bytes
key_file =
    contents (private_key_blob sample_secret (sample_public sample_secret) (1 ∷ 2 ∷ 3 ∷ 4 ∷ []))

key_file_read :
    parse_private_key_file sample_public bare key_file
    ≡ ok (sample_public sample_secret, sample_secret)
unfolding parse_private_key_file parse_private_blob parse_private_part check_keys private_key_blob
    openssh_private_key_prefix parse_public_blob serialize_public_ed25519 serialize_string
    serialize_uint32 skip_prefix parse_uint32 parse_string put_big_endian get_big_endian cut_prefix
    eq_bytes
key_file_read = refl

parse_private_key_file-KeyPair_example :
    KeyPair sample_public (sample_public sample_secret, sample_secret)
parse_private_key_file-KeyPair_example =
    parse_private_key_file-KeyPair sample_public bare key_file
      (sample_public sample_secret, sample_secret) key_file_read
