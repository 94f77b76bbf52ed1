-- ===== src/Ssh/PrivateKeyLaws.antt =====
-- The keys that a file of a private key gives.
use sigsum_lib_go.Prelude.{
  ◌≡◌, ◌==◌, ◌||◌, ◌%◌, arith, not, Bool-cases, inl, inr, eq_bytes, eq_bytes_sound, Option, length,
  length-take, take, drop, Option-cases,
}
use sigsum_lib_go.Result.{ok, errorf, >>=-ok, Result-cases}
use sigsum_lib_go.Crypto.{Bytes, PublicKey}
use sigsum_lib_go.Ssh.Wire.{parse_string, parse_uint32, skip_prefix}
use sigsum_lib_go.Ssh.PublicKeys.{parse_public_blob}
use sigsum_lib_go.Ssh.PrivateKeys.{
  or_error, nonces, openssh_private_key_prefix, pem_private_key_tag, check_keys, parse_private_part,
  parse_private_blob, parse_private_key_file,
}

module _ (public_of : Bytes → PublicKey) where
  -- A public key and a private key of 32 bytes that belong together.
  abbrev pub KeyPair : PublicKey × Bytes → Type 0
  KeyPair found = (public_of found.1 ≡ found.0) × (length found.1 ≡ 32)

  check_keys-KeyPair :
      (pub_key : PublicKey) (keys : Bytes) (found : PublicKey × Bytes)
      → check_keys public_of pub_key keys ≡ ok found
      → KeyPair found
  unfolding check_keys
  check_keys-KeyPair pub_key keys found e = elim (Bool-cases (length keys == 64)) [
    | inr n ↦ absurd (cc (rw (check_keys, n) at e))
    | inl n ↦ elim (Bool-cases (eq_bytes pub_key (drop 32 keys))) [
      | inr p ↦ absurd (cc (rw (check_keys, n, p) at e))
      | inl p ↦ elim (Bool-cases (eq_bytes (public_of (take 32 keys)) pub_key)) [
        | inr q ↦ absurd (cc (rw (check_keys, n, p, q) at e))
        | inl q ↦
            let same : (pub_key, take 32 keys) ≡ found = cc (rw (check_keys, n, p, q) at e) in
            rw (← same) (
              eq_bytes_sound (public_of (take 32 keys)) pub_key q,
              ground (arith, length-take 32 keys),
            )
      ]
    ]
  ]

  parse_private_part-KeyPair :
      (pub_key : PublicKey) (blob part : Bytes) (found : PublicKey × Bytes)
      → parse_private_part public_of pub_key blob part ≡ ok found
      → KeyPair found
  unfolding parse_private_part
  parse_private_part-KeyPair pub_key blob part found e =
      let (n, _, e1) =
        >>=-ok (or_error (errorf "invalid private key, bad nonce") (nonces part)) _ found e in
      elim (Bool-cases (n.0 == n.1)) [
        | inr other ↦ absurd (cc (rw other at e1))
        | inl same ↦
            let (rest, _, e2) =
              >>=-ok
                (or_error (errorf "invalid private key, inconsistent public key")
                  (skip_prefix n.2 blob))
                _ found (rw same at e1) in
            let (keys, _, e3) =
              >>=-ok
                (or_error (errorf "invalid private key, private key missing") (parse_string rest)) _
                found e2 in
            check_keys-KeyPair pub_key keys.0 found e3
      ]

  parse_private_blob-KeyPair :
      (blob : Bytes) (found : PublicKey × Bytes)
      → parse_private_blob public_of blob ≡ ok found
      → KeyPair found
  unfolding parse_private_blob
  parse_private_blob-KeyPair blob found e =
      let (prefix, _, e1) = >>=-ok openssh_private_key_prefix _ found e in
      let (body, _, e2) =
        >>=-ok (or_error (errorf "invalid or encrypted private key") (skip_prefix blob prefix)) _
          found e1 in
      let (s, _, e3) =
        >>=-ok (or_error (errorf "invalid private key, pubkey missing") (parse_string body)) _ found
          e2 in
      elim (Result-cases (parse_public_blob s.0)) [
        | inr (inl (x, bad)) ↦ absurd (cc (rw bad at e3))
        | inr (inr bad) ↦ absurd (cc (rw bad at e3))
        | inl (pub_key, good) ↦
            let (part, _, e4) =
              >>=-ok (or_error (errorf "invalid private key") (parse_uint32 s.1)) _ found
                (rw good at e3) in
            elim (Bool-cases (not (part.0 == length part.1) || not (part.0 % 8 == 0))) [
              | inl bad ↦ absurd (cc (rw bad at e4))
              | inr fits ↦ parse_private_part-KeyPair pub_key s.0 part.1 found (rw fits at e4)
            ]
      ]

  -- The keys that ParsePrivateKeyFile returns belong together: the private key has 32 bytes, and the
  -- public key is the one that it gives, whatever PEM reader delivers the blob.
  pub parse_private_key_file-KeyPair :
      (pem_decode : Bytes → Option (Bytes × Bytes)) (ascii : Bytes) (found : PublicKey × Bytes)
      → parse_private_key_file public_of pem_decode ascii ≡ ok found
      → KeyPair found
  unfolding parse_private_key_file
  parse_private_key_file-KeyPair pem_decode ascii found e = elim (Option-cases (pem_decode ascii)) [
    | inl missing ↦ absurd (cc (rw (parse_private_key_file, missing) at e))
    | inr ((tag, blob), read) ↦ elim (Bool-cases (eq_bytes tag pem_private_key_tag)) [
      | inr other ↦ absurd (cc (rw (parse_private_key_file, read, other) at e))
      | inl same ↦
          parse_private_blob-KeyPair blob found (rw (parse_private_key_file, read, same) at e)
    ]
  ]
