-- ===== src/Tests/ServerTests.antt =====
-- The theorems on the HTTP client and handlers, on submit tokens and on keys.
use sigsum_lib_go.Prelude.{
  ◌≡◌, ◌≢◌, ◌↔◌, arith, refl, true, false, some, none, [], ◌∷◌, All, eq_bytes,
}
use sigsum_lib_go.Prelude.Text.{codes}
use sigsum_lib_go.Prelude.Maps.{Map, lookup, insert}
use sigsum_lib_go.Result.{Result, Error, ok, err, api_error, error_with_old_size}
use sigsum_lib_go.Crypto.{Bytes, PublicKey, Verifier, zeros, hash_bytes}
use sigsum_lib_go.Requests.AddCheckpoint.{
  AddCheckpoint, parse_add_checkpoint, check_add_checkpoint, add_checkpoint_to_ascii,
  add_checkpoint_from_ascii,
}
use sigsum_lib_go.Types.TreeHead.{SignedTreeHead}
use sigsum_lib_go.Api.Errors.{error_conflict_old_size, old_size_error}
use sigsum_lib_go.Api.Interfaces.{Witness}
use sigsum_lib_go.Api.Client.{client_add_checkpoint, client_get_secondary_tree_head}
use sigsum_lib_go.Server.Handlers.{serve_secondary_tree_head}
use sigsum_lib_go.Server.Witness.{serve_add_checkpoint}
use sigsum_lib_go.Server.EndToEnd.{
  client_add_checkpoint-conflict, client_get_secondary_tree_head-serve_secondary_tree_head,
}
use sigsum_lib_go.Types.TreeHeadLaws.{IsSignedTreeHead}
use sigsum_lib_go.Api.Http.{Response}
use sigsum_lib_go.Api.Client.{client_get_leaves}
use sigsum_lib_go.Api.ClientLaws.{client_get_leaves_all}
use sigsum_lib_go.Types.Leaf.{Leaf}
use sigsum_lib_go.Types.ParseLeaf.{
  leaves_from_ascii, leaves_loop, add_leaf, parse_leaf, leaf_of_values,
}
use sigsum_lib_go.Types.WriteLeaf.{leaf_to_ascii, leaves_to_ascii}
use sigsum_lib_go.Ascii.Writer.{write_line, write_item, write_rest}
use sigsum_lib_go.Ascii.Parser.{get_values, next, line_value, cut}
use sigsum_lib_go.Encoding.Hex.{hex_encode, hex_digit, hex_decode, from_hex_digit}
use sigsum_lib_go.Encoding.Fixed.{hash_from_hex, signature_from_hex, decode_hex}
use sigsum_lib_go.Token.SubmitToken.{SubmitHeader, to_header, from_header, verify_header}
use sigsum_lib_go.Token.Laws.{from_header-to_header, Vouched, verify_header-Vouched}
use sigsum_lib_go.Ssh.PublicKeys.{
  blank_fields, parse_public_blob, parse_public_ed25519, format_public_ed25519,
}
use sigsum_lib_go.Ssh.PublicKeyLaws.{parse_public_ed25519-format_public_ed25519}
use sigsum_lib_go.Ssh.KeyFiles.{parse_public_key, add_key, scan_keys, parse_public_keys_file}
use sigsum_lib_go.Ssh.Wire.{serialize_string, serialize_uint32, skip_prefix}
use sigsum_lib_go.Requests.AddCheckpoint.{cut_prefix}
use sigsum_lib_go.Checkpoint.Cosignature.{put_big_endian}
use sigsum_lib_go.Encoding.Base64.{
  base64_encode, base64_digit, base64_decode, decode_quanta, without_breaks, from_base64_digit,
}
use sigsum_lib_go.Encoding.Decimal.{format_digits, parse_uint63, parse_digits}
use sigsum_lib_go.Encoding.Fixed.{decode_base64, hash_from_base64}
use sigsum_lib_go.Ascii.Line.{get_line, new_line_reader, scan_from, get_empty_line}
use sigsum_lib_go.Ascii.Parser.{int_from_decimal, split_on}
use sigsum_lib_go.Types.ParseProof.{parse_base64, base64_loop, add_base64}
use sigsum_lib_go.Types.WriteProof.{to_base64, lines_to_base64}
use sigsum_lib_go.Types.TreeHead.{format_checkpoint}
use sigsum_lib_go.Checkpoint.Checkpoint.{
  add_signature, checkpoint_to_ascii, parse_checkpoint, parse_with_key_name, signature_lines,
}
use sigsum_lib_go.Checkpoint.Signature.{
  note_signature_of, parse_ed25519_signature_line, parse_note_signature, write_ed25519_signature,
  write_note_signature,
}
use sigsum_lib_go.Ssh.KeyFileLaws.{Keyed, parse_public_keys_file-Keyed}
use sigsum_lib_go.Tests.Samples.{sample_sha, hash_a, hash_b, zeros-IsByte}

abbrev accept_all : Verifier
accept_all = λ key msg sig. true

abbrev error_text : Error → Bytes
error_text = λ e. []

abbrev signed : SignedTreeHead
signed = record { tree_head = record { size = 120; root_hash = hash_a }; signature = zeros 64 }

signed-IsSignedTreeHead : IsSignedTreeHead signed
signed-IsSignedTreeHead = record {
  size = omega arith;
  root_hash = refl;
  root_hash_bytes = (omega arith, zeros-IsByte 31);
  signature = refl;
  signature_bytes = zeros-IsByte 64;
}

client_get_secondary_tree_head-serve_secondary_tree_head_example :
    client_get_secondary_tree_head (λ r. serve_secondary_tree_head error_text (ok signed)) []
    ≡ ok signed
client_get_secondary_tree_head-serve_secondary_tree_head_example =
    client_get_secondary_tree_head-serve_secondary_tree_head error_text [] signed
      signed-IsSignedTreeHead

-- An answer with two leaves to a request for one.
abbrev one_leaf : Leaf
one_leaf = record { checksum = hash_a; signature = zeros 64; key_hash = hash_b }

abbrev ok_text : Result Bytes → Bytes
ok_text (ok text) = text
ok_text _ = []

abbrev answer : Response
answer = record {
  status_code = 200;
  content_type = [];
  body = ok_text (leaves_to_ascii (one_leaf ∷ one_leaf ∷ []));
}

answer_read : leaves_from_ascii answer.body 2 ≡ ok (one_leaf ∷ one_leaf ∷ [])
unfolding leaves_from_ascii leaves_loop add_leaf parse_leaf leaf_of_values leaves_to_ascii
    leaf_to_ascii write_line write_item write_rest hex_encode hex_digit new_line_reader scan_from
    get_values next get_line line_value cut split_on hash_from_hex signature_from_hex decode_hex
    hex_decode from_hex_digit eq_bytes
answer_read = refl

client_get_leaves_all_example :
    client_get_leaves (λ r. ok answer) [] (record { start_index = 3; end_index = 4 })
    ≡ ok (one_leaf ∷ one_leaf ∷ [])
client_get_leaves_all_example =
    client_get_leaves_all (λ r. ok answer) [] (record { start_index = 3; end_index = 4 }) answer 2
      (one_leaf ∷ one_leaf ∷ []) (omega arith) (omega arith) (omega arith) (λ r. refl) refl
      answer_read (omega arith)

abbrev header : SubmitHeader
header = record { domain = codes "example.org"; token = zeros 64 }

from_header-to_header_example : from_header (to_header header) ≡ ok header
from_header-to_header_example =
    from_header-to_header header (omega arith) no_space (zeros-IsByte 64) refl
  where
    no_space : All (λ c. c ≢ 32) (codes "example.org")
    no_space = (
      omega arith,
      (
        omega arith,
        (
          omega arith,
          (
            omega arith,
            (
              omega arith,
              (
                omega arith,
                (omega arith, (omega arith, (omega arith, (omega arith, (omega arith, tt))))),
              ),
            ),
          ),
        ),
      ),
    )

verify_header-Vouched_example :
    (verify_header accept_all (λ name. ok (codes "00" ∷ [])) (λ e. false) hash_a header ≡ ok tt)
    ↔ Vouched accept_all (λ name. ok (codes "00" ∷ [])) (λ e. false) hash_a header
verify_header-Vouched_example =
    verify_header-Vouched accept_all (λ name. ok (codes "00" ∷ [])) (λ e. false) hash_a header

parse_public_ed25519-format_public_ed25519_example :
    (text : Bytes) × (format_public_ed25519 hash_a ≡ ok text)
    × (parse_public_ed25519 text ≡ ok hash_a)
parse_public_ed25519-format_public_ed25519_example =
    parse_public_ed25519-format_public_ed25519 hash_a refl (omega arith, zeros-IsByte 31)

abbrev one_entry : Map PublicKey
one_entry = (hash_a, hash_a) ∷ []

abbrev key_line : Bytes
key_line = codes "ssh-ed25519 AAAAC3NzaC1lZDI1NTE5AAAAIAcAAAAAAAAAAAAAAAAAAAAAAAAAAAAAAAAAAAAAAAAA"

one_key : parse_public_keys_file sample_sha (codes "# keys" ∷ key_line ∷ []) none ≡ ok one_entry
unfolding parse_public_keys_file scan_keys add_key parse_public_key parse_public_ed25519
    blank_fields eq_bytes base64_decode decode_quanta without_breaks from_base64_digit
    parse_public_blob serialize_string skip_prefix cut_prefix serialize_uint32 put_big_endian lookup
    insert hash_bytes
one_key = refl

parse_public_keys_file-Keyed_example : Keyed sample_sha one_entry × (one_entry ≢ [])
parse_public_keys_file-Keyed_example =
    parse_public_keys_file-Keyed sample_sha (codes "# keys" ∷ key_line ∷ []) none one_entry one_key

-- A request that the witness's handler reads.
abbrev asked : AddCheckpoint
asked = record {
  old_size = 1;
  proof = record { path = hash_b ∷ [] };
  checkpoint = record {
    signed_tree_head = record {
      tree_head = record { size = 2; root_hash = hash_a };
      signature = zeros 64;
    };
    origin = codes "example.org/log";
    key_id = zeros 4;
  };
}

abbrev asked_text : Bytes
asked_text = ok_text (add_checkpoint_to_ascii asked)

abbrev refusing : Witness
refusing = λ req. err (api_error 409 (error_with_old_size 7))

asked_sent : add_checkpoint_to_ascii asked ≡ ok asked_text
unfolding add_checkpoint_to_ascii
asked_sent = refl

asked_read : add_checkpoint_from_ascii asked_text ≡ ok asked
unfolding add_checkpoint_from_ascii parse_add_checkpoint get_line new_line_reader scan_from
    add_checkpoint_to_ascii format_digits cut_prefix int_from_decimal parse_uint63 parse_digits
    parse_base64 base64_loop add_base64 to_base64 lines_to_base64 base64_encode get_empty_line
    split_on add_signature checkpoint_to_ascii parse_checkpoint parse_with_key_name signature_lines
    note_signature_of parse_ed25519_signature_line parse_note_signature write_ed25519_signature
    write_note_signature base64_decode base64_digit decode_quanta from_base64_digit without_breaks
    decode_base64 hash_from_base64 eq_bytes check_add_checkpoint format_checkpoint
asked_read = refl

client_add_checkpoint-conflict_example :
    (e : Error) × (client_add_checkpoint
        (λ r. serve_add_checkpoint error_text refusing r.body)
        []
        asked
      ≡ err e)
    × (error_conflict_old_size e ≡ some 7)
unfolding error_conflict_old_size old_size_error
client_add_checkpoint-conflict_example =
    client_add_checkpoint-conflict error_text refusing [] asked asked asked_text
      (api_error 409 (error_with_old_size 7)) 7 asked_sent asked_read refl refl (omega arith)
