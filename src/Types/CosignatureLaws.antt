-- ===== src/Types/CosignatureLaws.antt =====
-- The text of a cosignature line of a tree head.
use sigsum_lib_go.Prelude.{
  ℕ, zero, suc, ◌+◌, ◌/◌, ◌%◌, ◌^◌, ◌<◌, ◌≤◌, ◌≡◌, ◌≢◌, refl, ap, sym, ◌∙◌, arith, [], ◌∷◌, ◌++◌,
  length, All, All-append, append_assoc, length-append, ltb, leb, false, Bool-cases, inl, inr,
}
use sigsum_lib_go.Prelude.Text.{codes}
use sigsum_lib_go.Prelude.Maps.{lookup, insert}
use sigsum_lib_go.Result.{ok, err, eof}
use sigsum_lib_go.Crypto.{Bytes, Hash, IsByte, IsHash, signature_size}
use sigsum_lib_go.Encoding.Decimal.{format_digits, format_uint}
use sigsum_lib_go.Encoding.Hex.{hex_digit, hex_encode}
use sigsum_lib_go.Ascii.Line.{LineReader, new_line_reader, scan_from, get_line}
use sigsum_lib_go.Ascii.Parser.{split_on, next, get_values}
use sigsum_lib_go.Ascii.Writer.{write_item, write_rest, write_line}
use sigsum_lib_go.Ascii.Splits.{split_on-last, split_on-word}
use sigsum_lib_go.Ascii.Fields.{field, field-append, next-field, new_line_reader-line}
use sigsum_lib_go.Ascii.RoundTrip.{
  int_from_decimal-format_uint, hash_from_hex-hex_encode, signature_from_hex-hex_encode,
}
use sigsum_lib_go.Types.TreeHead.{Cosignature}
use sigsum_lib_go.Types.ParseTreeHead.{
  cosignature_of_values, parse_cosignature, add_cosignature, parse_cosignatures_loop,
  parse_cosignatures,
}
use sigsum_lib_go.Types.WriteTreeHead.{cosignature_to_ascii}
use sigsum_lib_go.Types.TreeHeadLaws.{length-hex_encode, length-format_digits}

-- Digits stand above the separators.
abbrev IsWord : Bytes → Type 0
IsWord s = All (λ c. 48 ≤ c) s

hex_encode-IsWord : (b : Bytes) → IsWord (hex_encode b)
unfolding hex_encode hex_digit
hex_encode-IsWord [] = tt
hex_encode-IsWord (x ∷ b) = (digit (x / 16), (digit (x % 16), hex_encode-IsWord b))
  where
    digit : (d : ℕ) → 48 ≤ hex_digit d
    digit d = ground arith

format_digits-IsWord : (k n : ℕ) → IsWord (format_digits k n)
unfolding format_digits
format_digits-IsWord zero n = tt
format_digits-IsWord (suc k) n = elim (Bool-cases (ltb n 10)) [
  | inl one ↦ rw one (omega arith, tt)
  | inr more ↦ rw more (
      All-append (λ c. 48 ≤ c) (format_digits k (n / 10)) ((48 + n % 10) ∷ [])
        (format_digits-IsWord k (n / 10)) (omega arith, tt))
]

IsWord-ne : (sep : ℕ) (s : Bytes) → sep < 48 → IsWord s → All (λ c. c ≢ sep) s
IsWord-ne sep [] k h = tt
IsWord-ne sep (c ∷ s) k (hc, h) = (omega (arith, hc, k), IsWord-ne sep s k h)

-- The values of a cosignature line.
abbrev values : Hash → Cosignature → Bytes
values key_hash cs =
    hex_encode key_hash ++ 32 ∷ (format_uint cs.timestamp ++ 32 ∷ hex_encode cs.signature)

values-split :
    (key_hash : Hash) (cs : Cosignature)
    → split_on 32 (values key_hash cs)
      ≡ hex_encode key_hash ∷ format_uint cs.timestamp ∷ hex_encode cs.signature ∷ []
values-split key_hash cs =
    split_on-word 32 (hex_encode key_hash)
      (format_uint cs.timestamp ++ 32 ∷ hex_encode cs.signature)
      (IsWord-ne 32 (hex_encode key_hash) (omega arith) (hex_encode-IsWord key_hash))
    ∙ ap (λ ws. hex_encode key_hash ∷ ws)
        (split_on-word 32 (format_uint cs.timestamp) (hex_encode cs.signature) (
            IsWord-ne 32 (format_uint cs.timestamp) (omega arith)
              (format_digits-IsWord 20 cs.timestamp))
          ∙ ap (λ ws. format_uint cs.timestamp ∷ ws)
              (split_on-last 32 (hex_encode cs.signature) (
                IsWord-ne 32 (hex_encode cs.signature) (omega arith)
                  (hex_encode-IsWord cs.signature))))

-- The fields of a cosignature that its line can hold.
pub record IsCosignature (key_hash : Hash) (cs : Cosignature) : Type 0 where
  pub key_hash_size : IsHash key_hash
  pub key_hash_bytes : All IsByte key_hash
  pub timestamp : cs.timestamp < 2 ^ 63
  pub signature : length cs.signature ≡ signature_size
  pub signature_bytes : All IsByte cs.signature

abbrev pub line : Hash → Cosignature → Bytes
line key_hash cs = field (codes "cosignature") (values key_hash cs)

pub cosignature_to_ascii-line :
    (key_hash : Hash) (cs : Cosignature)
    → IsCosignature key_hash cs
    → cosignature_to_ascii cs key_hash ≡ ok (line key_hash cs)
unfolding cosignature_to_ascii write_line write_item write_rest
cosignature_to_ascii-line key_hash cs v =
    let small : leb (2 ^ 63) cs.timestamp ≡ false = ground (arith, v.timestamp) in
    let digits : Bytes = format_uint cs.timestamp in
    let sig : Bytes = hex_encode cs.signature in
    rw small (
      ap (λ (s : Bytes). ok (codes "cosignature" ++ 61 ∷ s))
        (sym (
          append_assoc (hex_encode key_hash) (32 ∷ (digits ++ 32 ∷ sig)) (10 ∷ [])
          ∙ ap (λ (s : Bytes). hex_encode key_hash ++ 32 ∷ s)
              (append_assoc digits (32 ∷ sig) (10 ∷ [])))))

length-values :
    (key_hash : Hash) (cs : Cosignature)
    → IsCosignature key_hash cs
    → length (values key_hash cs) ≤ 300
length-values key_hash cs v = omega (
  arith,
  length-append (hex_encode key_hash)
      (32 ∷ (format_uint cs.timestamp ++ 32 ∷ hex_encode cs.signature)),
  length-append (format_uint cs.timestamp) (32 ∷ hex_encode cs.signature),
  length-hex_encode key_hash,
  length-hex_encode cs.signature,
  length-format_digits 20 cs.timestamp,
  v.key_hash_size,
  v.signature,
)

values-IsText : (key_hash : Hash) (cs : Cosignature) → All (λ c. c ≢ 10) (values key_hash cs)
values-IsText key_hash cs =
    All-append (λ c. c ≢ 10) (hex_encode key_hash)
      (32 ∷ (format_uint cs.timestamp ++ 32 ∷ hex_encode cs.signature))
      (IsWord-ne 10 (hex_encode key_hash) (omega arith) (hex_encode-IsWord key_hash))
      (
        omega arith,
        All-append (λ c. c ≢ 10) (format_uint cs.timestamp) (32 ∷ hex_encode cs.signature)
            (IsWord-ne 10 (format_uint cs.timestamp) (omega arith)
              (format_digits-IsWord 20 cs.timestamp))
            (
              omega arith,
              IsWord-ne 10 (hex_encode cs.signature) (omega arith) (hex_encode-IsWord cs.signature),
            ),
      )

parse_cosignature-line :
    (key_hash : Hash) (cs : Cosignature) (rest : Bytes)
    → IsCosignature key_hash cs
    → parse_cosignature (new_line_reader (line key_hash cs ++ rest))
      ≡ (ok (key_hash, cs), new_line_reader rest)
unfolding parse_cosignature get_values cosignature_of_values
parse_cosignature-line key_hash cs rest v = rw (
  next-field 99 (codes "osignature") (values key_hash cs) rest (ground arith) (ground arith)
      (values-IsText key_hash cs) (omega (arith, length-values key_hash cs v)),
  values-split key_hash cs,
  hash_from_hex-hex_encode key_hash v.key_hash_bytes v.key_hash_size,
  int_from_decimal-format_uint cs.timestamp v.timestamp,
  signature_from_hex-hex_encode cs.signature v.signature_bytes v.signature,
)

parse_cosignature-end : parse_cosignature (new_line_reader []) ≡ (err eof, new_line_reader [])
unfolding parse_cosignature get_values next get_line new_line_reader scan_from
parse_cosignature-end = refl

no_lines : length (new_line_reader []).lines ≡ 0
unfolding new_line_reader scan_from
no_lines = refl

lines-line :
    (key_hash : Hash) (cs : Cosignature)
    → IsCosignature key_hash cs
    → length (new_line_reader (line key_hash cs ++ [])).lines ≡ 1
lines-line key_hash cs v =
    let text : Bytes = codes "cosignature" ++ 61 ∷ values key_hash cs in
    ap (λ (s : Bytes). length (new_line_reader s).lines)
      (field-append (codes "cosignature") (values key_hash cs) [])
    ∙ ap (λ (r : LineReader). length r.lines)
        (new_line_reader-line text []
          (All-append (λ c. c ≢ 10) (codes "cosignature") (61 ∷ values key_hash cs) (ground arith)
            (omega arith, values-IsText key_hash cs))
          (omega (
            arith,
            length-append (codes "cosignature") (61 ∷ values key_hash cs),
            length-values key_hash cs v,
          )))
    ∙ ap suc no_lines

pub parse_cosignatures-line :
    (key_hash : Hash) (cs : Cosignature)
    → IsCosignature key_hash cs
    → parse_cosignatures (new_line_reader (line key_hash cs ++ []))
      ≡ (ok ((key_hash, cs) ∷ [], false), new_line_reader [])
unfolding parse_cosignatures parse_cosignatures_loop add_cosignature lookup insert
parse_cosignatures-line key_hash cs v =
    rw (lines-line key_hash cs v, parse_cosignature-line key_hash cs [] v, parse_cosignature-end)
