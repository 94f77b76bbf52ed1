-- ===== src/Ssh/KeyFileLaws.antt =====
-- What a file of public keys gives.
use sigsum_lib_go.Prelude.{
  ◌≡◌, ◌≢◌, refl, inl, inr, Bool-cases, Option-cases, Option, none, some, List, [], ◌∷◌,
}
use sigsum_lib_go.Prelude.Maps.{Map, Entry, here, there, lookup, insert}
use sigsum_lib_go.Result.{Error, ok, Result-cases}
use sigsum_lib_go.Crypto.{Bytes, Hash, PublicKey, Sha256, hash_bytes}
use sigsum_lib_go.Ssh.KeyFiles.{
  parse_public_key, is_skipped, add_key, scan_keys, some_keys, parse_public_keys_file,
}

module _ (sha : Sha256) where
  -- Every key stands under its hash.
  abbrev pub Keyed : Map PublicKey → Type 0
  Keyed keys = (h : Hash) (key : PublicKey) → Entry h key keys → hash_bytes sha key ≡ h

  Keyed-insert :
      (key : PublicKey) (keys : Map PublicKey)
      → Keyed keys
      → Keyed (insert (hash_bytes sha key) key keys)
  unfolding insert
  Keyed-insert key keys k h other here = refl
  Keyed-insert key keys k h other (there e) = k h other e

  add_key-Keyed :
      (keys keys' : Map PublicKey) (line : Bytes)
      → Keyed keys
      → add_key sha keys line ≡ ok keys'
      → Keyed keys'
  unfolding add_key
  add_key-Keyed keys keys' line k e = elim (Result-cases (parse_public_key line)) [
    | inr (inl (x, bad)) ↦ absurd (cc (rw (add_key, bad) at e))
    | inr (inr bad) ↦ absurd (cc (rw (add_key, bad) at e))
    | inl (key, good) ↦ elim (Option-cases (lookup (hash_bytes sha key) keys)) [
      | inr (other, twice) ↦ absurd (cc (rw (add_key, good, twice) at e))
      | inl new ↦
          let same : insert (hash_bytes sha key) key keys ≡ keys' =
            cc (rw (add_key, good, new) at e) in
          rw (← same) (Keyed-insert key keys k)
    ]
  ]

  scan_keys-Keyed :
      (lines : List Bytes) (keys keys' : Map PublicKey)
      → Keyed keys
      → scan_keys sha lines keys ≡ ok keys'
      → Keyed keys'
  unfolding scan_keys
  scan_keys-Keyed [] keys keys' k e = let same : keys ≡ keys' = cc e in rw (← same) k
  scan_keys-Keyed (line ∷ lines) keys keys' k e = elim (Bool-cases (is_skipped line)) [
    | inl skipped ↦ scan_keys-Keyed lines keys keys' k (rw (scan_keys, skipped) at e)
    | inr read ↦ elim (Result-cases (add_key sha keys line)) [
      | inr (inl (x, bad)) ↦ absurd (cc (rw (scan_keys, read, bad) at e))
      | inr (inr bad) ↦ absurd (cc (rw (scan_keys, read, bad) at e))
      | inl (more, added) ↦
          scan_keys-Keyed lines more keys' (add_key-Keyed keys more line k added)
            (rw (scan_keys, read, added) at e)
    ]
  ]

  some_keys-ok :
      (failed : Option Error) (keys keys' : Map PublicKey)
      → some_keys failed keys ≡ ok keys'
      → (keys ≡ keys') × (keys' ≢ [])
  some_keys-ok (some e) keys keys' q = absurd cc
  some_keys-ok none [] keys' q = absurd cc
  some_keys-ok none (k ∷ keys) keys' q =
      let same : k ∷ keys ≡ keys' = cc q in (same, λ empty. cc (same, empty))

  -- The keys of a file that parsePublicKeysFile accepts are not empty, and each stands under its hash.
  pub parse_public_keys_file-Keyed :
      (lines : List Bytes) (failed : Option Error) (keys : Map PublicKey)
      → parse_public_keys_file sha lines failed ≡ ok keys
      → Keyed keys × (keys ≢ [])
  unfolding parse_public_keys_file
  parse_public_keys_file-Keyed lines failed keys e = elim (Result-cases (scan_keys sha lines [])) [
    | inr (inl (x, bad)) ↦ absurd (cc (rw (parse_public_keys_file, bad) at e))
    | inr (inr bad) ↦ absurd (cc (rw (parse_public_keys_file, bad) at e))
    | inl (found, scanned) ↦
        let (same, filled) =
          some_keys-ok failed found keys (rw (parse_public_keys_file, scanned) at e) in
        let keyed : Keyed found =
          scan_keys-Keyed lines [] found (λ h key none_yet. elim none_yet [ ]) scanned in
        (rw same at keyed, filled)
  ]
