-- ===== src/Checkpoint/Signature.antt =====
-- pkg/checkpoint/signature.go: key ids and signature lines.
use sigsum_lib_go.Prelude.{
  ℕ, ◌+◌, List, [], ◌∷◌, ◌++◌, length, take, drop, ◌==◌, if◌then◌else◌, eq_bytes,
}
use sigsum_lib_go.Result.{Result, ok, err, errorf, unwanted_signature, ◌>>=◌}
use sigsum_lib_go.Crypto.{Bytes, Sha256, PublicKey, Signature, signature_size, hash_bytes}
use sigsum_lib_go.Encoding.Base64.{base64_encode, base64_decode}
use sigsum_lib_go.Ascii.Parser.{split_on}

abbrev pub KeyId : Type 0
KeyId = Bytes

abbrev pub sig_type_ed25519 : ℕ
sig_type_ed25519 = 1

abbrev pub sig_type_cosignature : ℕ
sig_type_cosignature = 4

unfoldable pub new_key_id : Sha256 → Bytes → ℕ → PublicKey → KeyId
new_key_id sha key_name sig_type key =
    take 4 (hash_bytes sha (key_name ++ (10 ∷ sig_type ∷ []) ++ key))

unfoldable pub new_log_key_id : Sha256 → Bytes → PublicKey → KeyId
new_log_key_id sha key_name key = new_key_id sha key_name sig_type_ed25519 key

unfoldable pub new_witness_key_id : Sha256 → Bytes → PublicKey → KeyId
new_witness_key_id sha key_name key = new_key_id sha key_name sig_type_cosignature key

-- The em dash in UTF-8.
abbrev pub em_dash : Bytes
em_dash = 226 ∷ 128 ∷ 148 ∷ []

unfoldable pub write_note_signature : Bytes → KeyId → Bytes → Bytes
write_note_signature key_name key_id signature =
    em_dash ++ 32 ∷ (key_name ++ 32 ∷ (base64_encode (key_id ++ signature) ++ 10 ∷ []))

-- The key name, the key id and the blob of the three fields.
unfoldable pub note_signature_of : List Bytes → ℕ → Result (Bytes × KeyId × Bytes)
note_signature_of (dash ∷ name ∷ text ∷ []) size =
    if eq_bytes dash em_dash
    then (do
      blob ← base64_decode text
      if length blob == 4 + size
          then ok (name, take 4 blob, drop 4 blob)
          else err unwanted_signature)
    else err (errorf "invalid signature line %q")
note_signature_of _ size = err (errorf "invalid signature line %q")

unfoldable pub parse_note_signature : Bytes → ℕ → Result (Bytes × KeyId × Bytes)
parse_note_signature line size = note_signature_of (split_on 32 line) size

unfoldable pub write_ed25519_signature : Bytes → KeyId → Signature → Bytes
write_ed25519_signature origin key_id signature = write_note_signature origin key_id signature

unfoldable pub parse_ed25519_signature_line : Bytes → Bytes → Result (KeyId × Signature)
parse_ed25519_signature_line line key_name = do
  s ← parse_note_signature line signature_size
  if eq_bytes s.0 key_name then ok (s.1, s.2) else err unwanted_signature
