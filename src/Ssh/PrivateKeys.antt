-- ===== src/Ssh/PrivateKeys.antt =====
-- internal/ssh/private.go. The PEM armour and the derivation of a public key from a private one are parameters.
use sigsum_lib_go.Prelude.{
  ℕ, ◌%◌, ◌++◌, ◌∷◌, ◌==◌, ◌||◌, Option, none, some, [], length, take, drop, not, eq_bytes,
  if◌then◌else◌,
}
use sigsum_lib_go.Prelude.Text.{codes}
use sigsum_lib_go.Result.{Result, Error, ok, err, panic, errorf, ◌>>=◌}
use sigsum_lib_go.Crypto.{Bytes, PublicKey}
use sigsum_lib_go.Ssh.Wire.{
  serialize_uint32, serialize_string, skip_prefix, parse_uint32, parse_string,
}
use sigsum_lib_go.Ssh.PublicKeys.{serialize_public_ed25519, parse_public_blob}

abbrev pub pem_private_key_tag : Bytes
pem_private_key_tag = codes "OPENSSH PRIVATE KEY"

abbrev pub no_pem_error : Error
no_pem_error = errorf "not a PEM file"

unfoldable pub openssh_private_key_prefix : Result Bytes
openssh_private_key_prefix = do
  cipher ← serialize_string (codes "none")
  kdf ← serialize_string (codes "none")
  ok (codes "openssh-key-v1" ++ 0 ∷ (cipher ++ (kdf ++ (serialize_uint32 0 ++ serialize_uint32 1))))

-- The blob that writePrivateKeyFile armours, for a nonce of 4 bytes.
unfoldable pub private_key_blob : Bytes → PublicKey → Bytes → Result Bytes
private_key_blob priv pub_key nonce = do
  pub_blob ← serialize_public_ed25519 pub_key
  prefix ← openssh_private_key_prefix
  first ← serialize_string pub_blob
  ok (
      prefix
      ++ (first
          ++ (serialize_uint32 136
              ++ (nonce
                  ++ (nonce
                      ++ (pub_blob
                          ++ (serialize_uint32 64
                              ++ (priv
                                  ++ (pub_key
                                      ++ (serialize_uint32 0 ++ (1 ∷ 2 ∷ 3 ∷ 4 ∷ 5 ∷ [])))))))))))

-- A buffer that is nil, with the error that its test gives.
abbrev pub or_error {ℓ} : {A : Type ℓ} → Error → Option A → Result A
or_error e none = err e
or_error e (some a) = ok a

-- The two nonces, and the buffer after them.
abbrev pub nonces : Bytes → Option (ℕ × ℕ × Bytes)
nonces blob = elim (parse_uint32 blob) [
  | none ↦ none
  | some (n1, rest) ↦ elim (parse_uint32 rest) [
    | none ↦ none
    | some (n2, rest') ↦ some (n1, n2, rest')
  ]
]

module _ (public_of : Bytes → PublicKey) where
  -- The keys of the private part: the private key, then the public one.
  unfoldable pub check_keys : PublicKey → Bytes → Result (PublicKey × Bytes)
  check_keys pub_key keys =
      if not (length keys == 64)
      then err (errorf "unexpected private key size: %d")
      else if not (eq_bytes pub_key (drop 32 keys))
      then err (errorf "inconsistent public key")
      else if not (eq_bytes (public_of (take 32 keys)) pub_key)
      then err (errorf "inconsistent private key")
      else ok (pub_key, take 32 keys)

  unfoldable pub parse_private_part : PublicKey → Bytes → Bytes → Result (PublicKey × Bytes)
  parse_private_part pub_key public_key_blob blob = do
    n ← or_error (errorf "invalid private key, bad nonce") (nonces blob)
    if not (n.0 == n.1) then err (errorf "invalid private key, bad nonce") else (do
      rest ←
          or_error (errorf "invalid private key, inconsistent public key")
            (skip_prefix n.2 public_key_blob)
      keys ← or_error (errorf "invalid private key, private key missing") (parse_string rest)
      check_keys pub_key keys.0)

  -- parseBlob; the error of the public key is wrapped.
  unfoldable pub parse_private_blob : Bytes → Result (PublicKey × Bytes)
  parse_private_blob blob = do
    prefix ← openssh_private_key_prefix
    body ← or_error (errorf "invalid or encrypted private key") (skip_prefix blob prefix)
    s ← or_error (errorf "invalid private key, pubkey missing") (parse_string body)
    pub_key ← elim (parse_public_blob s.0) [
      | ok key ↦ ok key
      | err _ ↦ err (errorf "invalid private key, pubkey invalid: %w")
      | panic ↦ panic
    ]
    part ← or_error (errorf "invalid private key") (parse_uint32 s.1)
    if not (part.0 == length part.1) || not (part.0 % 8 == 0)
        then err (errorf "invalid private key")
        else parse_private_part pub_key s.0 part.1

  -- The tag and the bytes of the first PEM block, or `none`.
  unfoldable pub parse_private_key_file :
      (Bytes → Option (Bytes × Bytes)) → Bytes → Result (PublicKey × Bytes)
  parse_private_key_file pem_decode ascii = elim (pem_decode ascii) [
    | none ↦ err no_pem_error
    | some (tag, blob) ↦
        if not (eq_bytes tag pem_private_key_tag)
        then err (errorf "unexpected PEM tag: %q")
        else parse_private_blob blob
  ]

unfoldable pub write_private_key_file :
    (Bytes → Bytes → Bytes) → Bytes → PublicKey → Bytes → Result Bytes
write_private_key_file pem_encode priv pub_key nonce = do
  blob ← private_key_blob priv pub_key nonce
  ok (pem_encode pem_private_key_tag blob)
