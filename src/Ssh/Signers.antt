-- ===== src/Ssh/Signers.antt =====
-- The signers of pkg/crypto/crypto.go and internal/ssh/agent.go, and ParsePrivateKey of pkg/key/key.go, which
-- chooses between them. The operations of crypto/ed25519 are a parameter, as is the PEM armour.
use sigsum_lib_go.Prelude.{
  ◌==◌, ◌||◌, ◌&&◌, leb, Bool, Option, none, some, [], ◌∷◌, length, reverse, not, if◌then◌else◌, ℕ,
}
use sigsum_lib_go.Prelude.Text.{codes}
use sigsum_lib_go.Result.{Result, ok, err, panic, errorf, ◌>>=◌}
use sigsum_lib_go.Crypto.{Bytes, PublicKey, Signature, signature_size}
use sigsum_lib_go.Encoding.Fixed.{decode_hex}
use sigsum_lib_go.Requests.AddCheckpoint.{cut_prefix}
use sigsum_lib_go.Types.TreeHead.{Signer}
use sigsum_lib_go.Ssh.PublicKeys.{parse_public_ed25519}
use sigsum_lib_go.Ssh.PrivateKeys.{parse_private_key_file}
use sigsum_lib_go.Ssh.Agent.{Connection, sign_ed25519}

abbrev pub private_key_size : ℕ
private_key_size = 32

-- crypto/ed25519: the public key of a seed, and the signature with it or its failure.
pub record Ed25519 : Type 0 where
  pub public_key : Bytes → PublicKey
  pub sign_with : Bytes → Bytes → Result Bytes

-- ConnectTo is `dial`; the name of the socket is the value of SSH_AUTH_SOCK.
unfoldable pub connect : (Bytes → Result Connection) → Bytes → Result Connection
connect dial [] = err (errorf "no ssh-agent available")
connect dial (c ∷ sock_name) = dial (c ∷ sock_name)

-- Signer of internal/ssh: Public and Sign.
unfoldable pub new_signer : Connection → PublicKey → Signer
new_signer conn pub_key = record { public = pub_key; sign_message = sign_ed25519 conn pub_key }

-- strings.TrimSpace, on ASCII text: its spaces are 9 to 13 and 32.
abbrev pub is_space : ℕ → Bool
is_space c = c == 32 || (leb 9 c && leb c 13)

unfoldable pub trim_left : Bytes → Bytes
trim_left [] = []
trim_left (c ∷ text) = if is_space c then trim_left text else c ∷ text

unfoldable pub trim_space : Bytes → Bytes
trim_space text = reverse (trim_left (reverse (trim_left text)))

module _ (ed : Ed25519) where
  -- Ed25519Signer.Sign
  unfoldable pub ed25519_sign : Bytes → Bytes → Result Signature
  ed25519_sign secret msg = do
    sig ← ed.sign_with secret msg
    if not (length sig == signature_size)
        then err (errorf "internal error, unexpected signature size %d: ")
        else ok sig

  unfoldable pub new_ed25519_signer : Bytes → Signer
  new_ed25519_signer secret = record {
    public = ed.public_key secret;
    sign_message = ed25519_sign secret;
  }

  -- For the outcome of rand.Read: the bytes that it has set, or its error.
  unfoldable pub new_key_pair : Result Bytes → Result (PublicKey × Signer)
  new_key_pair random = do
    secret ← random
    if not (length secret == private_key_size)
        then err (errorf "key generation failed, got only %d out of %d random bytes")
        else ok (ed.public_key secret, new_ed25519_signer secret)

  unfoldable pub signer_from_hex : Bytes → Result Signer
  signer_from_hex text = do
    secret ← decode_hex private_key_size text
    ok (new_ed25519_signer secret)

  -- The signer of a line with a public key.
  unfoldable pub agent_signer : Result Connection → Bytes → Result Signer
  agent_signer connected text = do
    pub_key ← parse_public_ed25519 text
    elim connected [
      | ok conn ↦ ok (new_signer conn pub_key)
      | err _ ↦ err (errorf "only public key available, and no ssh-agent: %v")
      | panic ↦ panic
    ]

  -- The signer of a private key: `err == ssh.NoPEMError` is the case of no PEM block.
  unfoldable pub file_signer : (Bytes → Option (Bytes × Bytes)) → Bytes → Result Signer
  file_signer pem_decode text = elim (pem_decode text) [
    | none ↦ signer_from_hex text
    | some _ ↦ (do
      found ← parse_private_key_file ed.public_key pem_decode text
      ok (new_ed25519_signer found.1))
  ]

  unfoldable pub parse_private_key :
      (Bytes → Option (Bytes × Bytes)) → Result Connection → Bytes → Result Signer
  parse_private_key pem_decode connected ascii =
      let text = trim_space ascii in
      elim (cut_prefix (codes "ssh-ed25519 ") text) [
        | some _ ↦ agent_signer connected text
        | none ↦ file_signer pem_decode text
      ]

  -- ReadPrivateKeyFile, for what os.ReadFile returns.
  unfoldable pub read_private_key_file :
      (Bytes → Option (Bytes × Bytes)) → Result Connection → Result Bytes → Result Signer
  read_private_key_file pem_decode connected (ok contents) =
      elim (parse_private_key pem_decode connected contents) [
        | ok signer ↦ ok signer
        | err _ ↦ err (errorf "parsing private key file %q failed: %v")
        | panic ↦ panic
      ]
  read_private_key_file pem_decode connected (err e) = err e
  read_private_key_file pem_decode connected panic = panic
