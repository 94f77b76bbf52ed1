-- ===== src/Checkpoint/NoteVerifier.antt =====
-- pkg/checkpoint/verifier.go
use sigsum_lib_go.Prelude.{
  ℕ, ◌++◌, ◌==◌, ◌&&◌, Option, none, some, [], ◌∷◌, length, not, if◌then◌else◌,
}
use sigsum_lib_go.Result.{Result, ok, err, errorf, ◌>>=◌}
use sigsum_lib_go.Crypto.{Bytes, PublicKey, Sha256, public_key_size}
use sigsum_lib_go.Encoding.Hex.{hex_encode, hex_decode}
use sigsum_lib_go.Encoding.Base64.{base64_encode, base64_decode}
use sigsum_lib_go.Ascii.Parser.{cut}
use sigsum_lib_go.Checkpoint.Signature.{KeyId, sig_type_ed25519, sig_type_cosignature, new_key_id}

pub record NoteVerifier : Type 0 where
  pub name : Bytes
  pub key_id : KeyId
  pub sig_type : ℕ
  pub public_key : PublicKey

unfoldable pub note_verifier_to_string : NoteVerifier → Bytes
note_verifier_to_string nv =
    nv.name ++ 43 ∷ (hex_encode nv.key_id ++ 43 ∷ base64_encode (nv.sig_type ∷ nv.public_key))

-- The three fields of strings.SplitN(in, "+", 3).
unfoldable pub three_fields : Bytes → Option (Bytes × Bytes × Bytes)
three_fields text = elim (cut 43 text) [
  | none ↦ none
  | some (name, rest) ↦ elim (cut 43 rest) [
    | none ↦ none
    | some (hash, key) ↦ some (name, hash, key)
  ]
]

-- The key data: the type, then the key.
unfoldable pub verifier_of_blob : Bytes → KeyId → Bytes → Result NoteVerifier
verifier_of_blob name key_id [] = err (errorf "invalid note verifier, empty key data")
verifier_of_blob name key_id (t ∷ blob) =
    if not (t == sig_type_ed25519) && not (t == sig_type_cosignature)
    then err (errorf "unsupported key type 0x%02x")
    else if not (length blob == public_key_size)
    then err (errorf "unexpected key blob length: got %d, want %d")
    else ok (record { name = name; key_id = key_id; sig_type = t; public_key = blob })

unfoldable pub verifier_of_fields : Option (Bytes × Bytes × Bytes) → Result NoteVerifier
verifier_of_fields none = err (errorf "invalid note verifier, too few fields")
verifier_of_fields (some (name, hex, text)) = do
  hash ← hex_decode hex
  if not (length hash == 4)
      then err (errorf "unexpected hash length: got %d, want %d")
      else (do blob ← base64_decode text; verifier_of_blob name hash blob)

unfoldable pub note_verifier_from_string : Bytes → Result NoteVerifier
note_verifier_from_string text = verifier_of_fields (three_fields text)

unfoldable pub new_note_verifier : Sha256 → Bytes → ℕ → PublicKey → NoteVerifier
new_note_verifier sha key_name key_type key = record {
  name = key_name;
  key_id = new_key_id sha key_name key_type key;
  sig_type = key_type;
  public_key = key;
}
