-- ===== src/Checkpoint/Cosignature.antt =====
-- pkg/checkpoint/cosignature.go: the cosignature lines that a witness returns.
use sigsum_lib_go.Prelude.{ℕ, zero, suc, ◌+◌, ◌*◌, ◌/◌, ◌%◌, List, [], ◌∷◌, ◌++◌, take, drop}
use sigsum_lib_go.Result.{Result, Error, ok, err, panic, eof, unwanted_signature}
use sigsum_lib_go.Crypto.{Bytes, signature_size}
use sigsum_lib_go.Ascii.Line.{new_line_reader}
use sigsum_lib_go.Types.TreeHead.{Cosignature}
use sigsum_lib_go.Checkpoint.Signature.{KeyId, write_note_signature, parse_note_signature}

pub record CosignatureLine : Type 0 where
  pub key_name : Bytes
  pub key_id : KeyId
  pub cosignature : Cosignature

-- binary.BigEndian.PutUint64, for `w` bytes, and binary.BigEndian.Uint64.
unfoldable pub put_big_endian : ℕ → ℕ → Bytes
put_big_endian zero n = []
put_big_endian (suc w) n = put_big_endian w (n / 256) ++ n % 256 ∷ []

unfoldable pub get_big_endian : ℕ → Bytes → ℕ
get_big_endian n [] = n
get_big_endian n (b ∷ bs) = get_big_endian (256 * n + b) bs

unfoldable pub cosignature_line_to_ascii : CosignatureLine → Bytes
cosignature_line_to_ascii csl =
    write_note_signature csl.key_name csl.key_id
      (put_big_endian 8 csl.cosignature.timestamp ++ csl.cosignature.signature)

-- What one line adds to the lines after it.
unfoldable pub add_cosignature_line :
    Result (Bytes × KeyId × Bytes) → Result (List CosignatureLine) → Result (List CosignatureLine)
add_cosignature_line (ok (name, key_id, blob)) (ok rest) = ok (
    record {
      key_name = name;
      key_id = key_id;
      cosignature = record { timestamp = get_big_endian 0 (take 8 blob); signature = drop 8 blob };
    }
    ∷ rest)
add_cosignature_line (ok s) failed = failed
add_cosignature_line (err unwanted_signature) rest = rest
add_cosignature_line (err e) rest = err e
add_cosignature_line panic rest = panic

abbrev pub lines_until : Error → Result (List CosignatureLine)
lines_until eof = ok []
lines_until e = err e

unfoldable pub cosignature_lines_of : List Bytes → Error → Result (List CosignatureLine)
cosignature_lines_of [] end = lines_until end
cosignature_lines_of (line ∷ lines) end =
    add_cosignature_line (parse_note_signature line (8 + signature_size))
      (cosignature_lines_of lines end)

unfoldable pub cosignature_lines_from_ascii : Bytes → Result (List CosignatureLine)
cosignature_lines_from_ascii input =
    let r = new_line_reader input in cosignature_lines_of r.lines r.end
