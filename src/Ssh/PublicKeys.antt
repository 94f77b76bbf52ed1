-- ===== src/Ssh/PublicKeys.antt =====
-- internal/ssh/public.go
use sigsum_lib_go.Prelude.{
  ℕ, ◌++◌, ◌∷◌, ◌==◌, ◌||◌, Bool, Option, none, some, List, [], length, not, reverse, eq_bytes,
  if◌then◌else◌,
}
use sigsum_lib_go.Prelude.Text.{codes}
use sigsum_lib_go.Result.{Result, ok, err, errorf, ◌>>=◌}
use sigsum_lib_go.Crypto.{Bytes, PublicKey, public_key_size}
use sigsum_lib_go.Encoding.Base64.{base64_encode, base64_decode}
use sigsum_lib_go.Ssh.Wire.{serialize_uint32, serialize_string, skip_prefix}

unfoldable pub serialize_public_ed25519 : PublicKey → Result Bytes
serialize_public_ed25519 pub_key = do
  name ← serialize_string (codes "ssh-ed25519")
  key ← serialize_string pub_key
  ok (name ++ key)

-- A buffer after its prefix, as a public key.
abbrev pub public_key_of : Option Bytes → Result PublicKey
public_key_of none = err (errorf "invalid public key blob prefix")
public_key_of (some pub_key) =
    if not (length pub_key == public_key_size)
    then err (errorf "invalid public key length: %v")
    else ok pub_key

unfoldable pub parse_public_blob : Bytes → Result PublicKey
parse_public_blob blob = do
  name ← serialize_string (codes "ssh-ed25519")
  public_key_of (skip_prefix blob (name ++ serialize_uint32 public_key_size))

-- strings.FieldsFunc for spaces and tabs; `word` is the field so far, the last byte first.
abbrev pub is_blank : ℕ → Bool
is_blank c = c == 32 || c == 9

abbrev pub end_field : Bytes → List Bytes → List Bytes
end_field [] fields = fields
end_field (c ∷ word) fields = reverse (c ∷ word) ∷ fields

unfoldable pub blank_fields : Bytes → Bytes → List Bytes
blank_fields word [] = end_field word []
blank_fields word (c ∷ line) =
    let others = blank_fields [] line in
    let longer = blank_fields (c ∷ word) line in
    if is_blank c then end_field word others else longer

abbrev pub public_of_fields : List Bytes → Result PublicKey
public_of_fields (key_type ∷ text ∷ _) =
    if not (eq_bytes key_type (codes "ssh-ed25519"))
    then err (errorf "unsupported public key type: %v")
    else (do blob ← base64_decode text; parse_public_blob blob)
public_of_fields _ = err (errorf "invalid public key, splitting line failed")

unfoldable pub parse_public_ed25519 : Bytes → Result PublicKey
parse_public_ed25519 ascii_key = public_of_fields (blank_fields [] ascii_key)

unfoldable pub format_public_ed25519 : PublicKey → Result Bytes
format_public_ed25519 pub_key = do
  blob ← serialize_public_ed25519 pub_key
  ok (codes "ssh-ed25519 " ++ (base64_encode blob ++ (codes " sigsum key" ++ 10 ∷ [])))
