-- ===== src/Ssh/KeyFiles.antt =====
-- pkg/key/key.go: key files, as the bytes in them. A scanner delivers lines, and ends with an error or without.
use sigsum_lib_go.Prelude.{◌==◌, Bool, true, Option, none, some, List, [], ◌∷◌, if◌then◌else◌}
use sigsum_lib_go.Prelude.Maps.{Map, lookup, insert}
use sigsum_lib_go.Result.{Result, Error, ok, err, panic, errorf}
use sigsum_lib_go.Crypto.{Bytes, PublicKey, Sha256, hash_bytes}
use sigsum_lib_go.Ssh.PublicKeys.{parse_public_ed25519}

unfoldable pub parse_public_key : Bytes → Result PublicKey
parse_public_key ascii = parse_public_ed25519 ascii

-- ReadPublicKeyFile
unfoldable pub read_public_key_file : Result Bytes → Result PublicKey
read_public_key_file (ok contents) = elim (parse_public_key contents) [
  | ok key ↦ ok key
  | err _ ↦ err (errorf "parsing public key file %q failed: %v")
  | panic ↦ panic
]
read_public_key_file (err e) = err e
read_public_key_file panic = panic

-- strings.HasPrefix(line, "#") || line == ""
abbrev pub is_skipped : Bytes → Bool
is_skipped [] = true
is_skipped (c ∷ line) = c == 35

-- A line that is not skipped, in the keys so far.
unfoldable pub add_key : Sha256 → Map PublicKey → Bytes → Result (Map PublicKey)
add_key sha keys line = elim (parse_public_key line) [
  | ok key ↦ elim (lookup (hash_bytes sha key) keys) [
    | some _ ↦ err (errorf "duplicate public key on line %d of file %q")
    | none ↦ ok (insert (hash_bytes sha key) key keys)
  ]
  | err _ ↦ err (errorf "failed to parse public key on line %d of file %q: %v")
  | panic ↦ panic
]

unfoldable pub scan_keys : Sha256 → List Bytes → Map PublicKey → Result (Map PublicKey)
scan_keys sha [] keys = ok keys
scan_keys sha (line ∷ lines) keys =
    if is_skipped line then scan_keys sha lines keys else (elim (add_key sha keys line) [
      | ok keys' ↦ scan_keys sha lines keys'
      | err e ↦ err e
      | panic ↦ panic
    ])

abbrev pub some_keys : Option Error → Map PublicKey → Result (Map PublicKey)
some_keys (some e) keys = err (errorf "failed to read public keys file %q: %v")
some_keys none [] = err (errorf "no public keys found in file %q")
some_keys none (k ∷ keys) = ok (k ∷ keys)

-- parsePublicKeysFile, for the lines of the scanner and its error.
unfoldable pub parse_public_keys_file : Sha256 → List Bytes → Option Error → Result (Map PublicKey)
parse_public_keys_file sha lines failed = elim (scan_keys sha lines []) [
  | ok keys ↦ some_keys failed keys
  | err e ↦ err e
  | panic ↦ panic
]
