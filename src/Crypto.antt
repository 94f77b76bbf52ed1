-- ===== src/Crypto.antt =====
-- pkg/crypto/crypto.go: hashes, keys and signatures are byte arrays, here lists of bytes.
-- SHA-256 and Ed25519 are parameters of the model.
use sigsum_lib_go.Prelude.{ℕ, zero, suc, [], ◌<◌, ◌≡◌, ◌≢◌, Bool, List, ◌∷◌, ◌++◌, length}

abbrev pub Bytes : Type 0
Bytes = List ℕ

abbrev pub hash_size : ℕ
hash_size = 32

abbrev pub signature_size : ℕ
signature_size = 64

abbrev pub public_key_size : ℕ
public_key_size = 32

abbrev pub Hash : Type 0
Hash = Bytes

abbrev pub Signature : Type 0
Signature = Bytes

abbrev pub PublicKey : Type 0
PublicKey = Bytes

abbrev pub IsByte : ℕ → Type 0
IsByte b = b < 256

abbrev pub IsHash : Hash → Type 0
IsHash h = length h ≡ hash_size

-- crypto/sha256: a function from byte strings to arrays of 32 bytes.
pub record Sha256 : Type 0 where
  pub sum256 : Bytes → Hash
  pub length-sum256 : (b : Bytes) → length (sum256 b) ≡ hash_size

-- Two byte strings with one hash.
abbrev pub Collision : Sha256 → Type 0
Collision sha = (a : Bytes) × (b : Bytes) × (a ≢ b) × (sha.sum256 a ≡ sha.sum256 b)

-- crypto/ed25519 verification: a test on key, message and signature.
abbrev pub Verifier : Type 0
Verifier = PublicKey → Bytes → Signature → Bool

unfoldable pub hash_bytes : Sha256 → Bytes → Hash
hash_bytes sha b = sha.sum256 b

-- bytes.Join([namespace, msg], {0})
unfoldable pub attach_namespace : Bytes → Bytes → Bytes
attach_namespace namespace msg = namespace ++ (0 ∷ msg)

-- A byte array before it is set.
abbrev pub zeros : ℕ → Bytes
zeros zero = []
zeros (suc n) = 0 ∷ zeros n
