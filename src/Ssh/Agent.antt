-- ===== src/Ssh/Agent.antt =====
-- internal/ssh/agent.go. A connection is a function from what is written to the bytes that can be read after
-- it, or the error of the write.
use sigsum_lib_go.Prelude.{
  ℕ, ◌++◌, ◌∷◌, ◌==◌, ◌||◌, Option, none, some, [], length, take, drop, not, ltb, if◌then◌else◌,
}
use sigsum_lib_go.Prelude.Text.{codes}
use sigsum_lib_go.Result.{Result, ok, err, panic, eof, unexpected_eof, errorf, ◌>>=◌}
use sigsum_lib_go.Crypto.{Bytes, PublicKey, Signature, signature_size}
use sigsum_lib_go.Checkpoint.Cosignature.{get_big_endian}
use sigsum_lib_go.Ssh.Wire.{serialize_uint32, serialize_string, skip_prefix}
use sigsum_lib_go.Ssh.PublicKeys.{serialize_public_ed25519}

abbrev pub ssh_agent_failure : ℕ
ssh_agent_failure = 5

abbrev pub ssh_agent_sign_request : ℕ
ssh_agent_sign_request = 13

abbrev pub ssh_agent_sign_response : ℕ
ssh_agent_sign_response = 14

abbrev pub Connection : Type 0
Connection = Bytes → Result Bytes

-- io.ReadFull: the first n bytes and the rest.
unfoldable pub read_full : ℕ → Bytes → Result (Bytes × Bytes)
read_full n input =
    if ltb (length input) n
    then (if length input == 0 then err eof else err unexpected_eof)
    else ok (take n input, drop n input)

unfoldable pub request : Connection → Bytes → Result Bytes
request conn msg = do
  text ← serialize_string msg
  input ← conn text
  head ← read_full 4 input
  let n = get_big_endian 0 head.0
  if n == 0 || ltb 1000 n
      then err (errorf "read from agent gave unexpected length: %d")
      else (do body ← read_full n head.1; ok body.0)

abbrev pub signature_of : Option Bytes → Result Signature
signature_of none = err (errorf "invalid signature blob")
signature_of (some sig) =
    if not (length sig == signature_size) then err (errorf "bad signature length: %d") else ok sig

unfoldable pub parse_signature : Bytes → Result Signature
parse_signature blob = do
  name ← serialize_string (codes "ssh-ed25519")
  signature_of (skip_prefix blob (serialize_uint32 83 ++ (name ++ serialize_uint32 signature_size)))

-- The response by its first byte; an empty one panics.
unfoldable pub sign_response : Bytes → Result Signature
sign_response [] = panic
sign_response (msg_type ∷ body) =
    if msg_type == ssh_agent_failure
    then err (errorf "ssh-agent refused signature request")
    else if msg_type == ssh_agent_sign_response
    then parse_signature body
    else err (errorf "unexpected ssh-agent response, type %d")

unfoldable pub sign_ed25519 : Connection → PublicKey → Bytes → Result Signature
sign_ed25519 conn pub_key msg = do
  blob ← serialize_public_ed25519 pub_key
  key ← serialize_string blob
  data_part ← serialize_string msg
  buffer ← request conn (ssh_agent_sign_request ∷ (key ++ (data_part ++ serialize_uint32 0)))
  sign_response buffer
