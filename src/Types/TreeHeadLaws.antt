-- ===== src/Types/TreeHeadLaws.antt =====
-- The text of a signed tree head.
use sigsum_lib_go.Prelude.{
  ℕ, zero, suc, ◌+◌, ◌*◌, ◌/◌, ◌%◌, ◌^◌, ◌<◌, ◌≤◌, ◌≡◌, ◌≢◌, refl, ap, sym, ◌∙◌, arith, [], ◌∷◌,
  ◌++◌, length, All, All-append, append_assoc, append-nil, length-append, ltb, leb, false,
  Bool-cases, inl, inr,
}
use sigsum_lib_go.Prelude.Text.{codes}
use sigsum_lib_go.Result.{ok}
use sigsum_lib_go.Crypto.{Bytes, Hash, Signature, IsByte, IsHash, signature_size}
use sigsum_lib_go.Encoding.Decimal.{format_digits, format_uint}
use sigsum_lib_go.Encoding.Hex.{hex_digit, hex_encode}
use sigsum_lib_go.Ascii.Line.{new_line_reader, get_eof, scan_from}
use sigsum_lib_go.Ascii.Parser.{get_int, get_hash, get_signature}
use sigsum_lib_go.Ascii.Writer.{
  write_item, write_rest, write_line, write_int, write_hash, write_signature,
}
use sigsum_lib_go.Ascii.Fields.{field, next-field}
use sigsum_lib_go.Ascii.RoundTrip.{
  int_from_decimal-format_uint, hash_from_hex-hex_encode, signature_from_hex-hex_encode,
}
use sigsum_lib_go.Types.TreeHead.{SignedTreeHead}
use sigsum_lib_go.Types.ParseTreeHead.{
  parse_tree_head, parse_signed_tree_head, signed_tree_head_from_ascii,
}
use sigsum_lib_go.Types.WriteTreeHead.{tree_head_to_ascii, signed_tree_head_to_ascii}

hex_encode-IsText : (b : Bytes) → All (λ c. c ≢ 10) (hex_encode b)
unfolding hex_encode hex_digit
hex_encode-IsText [] = tt
hex_encode-IsText (x ∷ b) = (digit (x / 16), (digit (x % 16), hex_encode-IsText b))
  where
    digit : (d : ℕ) → hex_digit d ≢ 10
    digit d = ground arith

pub length-hex_encode : (b : Bytes) → length (hex_encode b) ≡ 2 * length b
unfolding hex_encode
length-hex_encode [] = omega arith
length-hex_encode (x ∷ b) = omega (arith, length-hex_encode b)

pub format_digits-IsText : (k n : ℕ) → All (λ c. c ≢ 10) (format_digits k n)
unfolding format_digits
format_digits-IsText zero n = tt
format_digits-IsText (suc k) n = elim (Bool-cases (ltb n 10)) [
  | inl one ↦ rw one (omega arith, tt)
  | inr more ↦ rw more (
      All-append (λ c. c ≢ 10) (format_digits k (n / 10)) ((48 + n % 10) ∷ [])
        (format_digits-IsText k (n / 10)) (omega arith, tt))
]

pub length-format_digits : (k n : ℕ) → length (format_digits k n) ≤ k
unfolding format_digits
length-format_digits zero n = omega arith
length-format_digits (suc k) n = elim (Bool-cases (ltb n 10)) [
  | inl one ↦ rw one (omega arith)
  | inr more ↦ rw more (
      omega (
        arith,
        length-append (format_digits k (n / 10)) ((48 + n % 10) ∷ []),
        length-format_digits k (n / 10),
      ))
]

-- The fields of a signed tree head that its text can hold.
pub record IsSignedTreeHead (sth : SignedTreeHead) : Type 0 where
  pub size : sth.size < 2 ^ 63
  pub root_hash : IsHash sth.root_hash
  pub root_hash_bytes : All IsByte sth.root_hash
  pub signature : length sth.signature ≡ signature_size
  pub signature_bytes : All IsByte sth.signature

-- The text of a signed tree head, in front of other text.
abbrev pub text_before : SignedTreeHead → Bytes → Bytes
text_before sth rest =
    field (codes "size") (format_uint sth.size)
    ++ (field (codes "root_hash") (hex_encode sth.root_hash)
        ++ (field (codes "signature") (hex_encode sth.signature) ++ rest))

abbrev pub text_of : SignedTreeHead → Bytes
text_of sth = text_before sth []

pub text_of-append :
    (sth : SignedTreeHead) (rest : Bytes) → text_of sth ++ rest ≡ text_before sth rest
text_of-append sth rest =
    let size : Bytes = field (codes "size") (format_uint sth.size) in
    let root_hash : Bytes = field (codes "root_hash") (hex_encode sth.root_hash) in
    let sig : Bytes = field (codes "signature") (hex_encode sth.signature) in
    append_assoc size (root_hash ++ (sig ++ [])) rest
    ∙ ap (λ (s : Bytes). size ++ s)
        (append_assoc root_hash (sig ++ []) rest
          ∙ ap (λ (s : Bytes). root_hash ++ s) (append_assoc sig [] rest))

pub signed_tree_head_to_ascii-text_of :
    (sth : SignedTreeHead) → IsSignedTreeHead sth → signed_tree_head_to_ascii sth ≡ ok (text_of sth)
unfolding signed_tree_head_to_ascii tree_head_to_ascii write_int write_hash write_signature
    write_line write_item write_rest
signed_tree_head_to_ascii-text_of sth v =
    let small : leb (2 ^ 63) sth.size ≡ false = ground (arith, v.size) in
    rw small (
      ap ok (
        append_assoc (field (codes "size") (format_uint sth.size))
          (field (codes "root_hash") (hex_encode sth.root_hash))
          (field (codes "signature") (hex_encode sth.signature))
        ∙ ap
            (λ (s : Bytes).
              field (codes "size") (format_uint sth.size)
              ++ (field (codes "root_hash") (hex_encode sth.root_hash) ++ s))
            (sym (append-nil (field (codes "signature") (hex_encode sth.signature))))))

get_int-field :
    (c : ℕ) (key rest : Bytes) (n : ℕ)
    → All (λ d. d ≢ 61) (c ∷ key)
    → All (λ d. d ≢ 10) (c ∷ key)
    → length key < 100
    → n < 2 ^ 63
    → get_int (c ∷ key) (new_line_reader (field (c ∷ key) (format_uint n) ++ rest))
      ≡ (ok n, new_line_reader rest)
unfolding get_int
get_int-field c key rest n h k l small = rw (
  next-field c key (format_uint n) rest h k (format_digits-IsText 20 n)
      (omega (arith, length-format_digits 20 n)),
  int_from_decimal-format_uint n small,
)

get_hash-field :
    (c : ℕ) (key rest : Bytes) (x : Hash)
    → All (λ d. d ≢ 61) (c ∷ key)
    → All (λ d. d ≢ 10) (c ∷ key)
    → length key < 100
    → All IsByte x
    → IsHash x
    → get_hash (c ∷ key) (new_line_reader (field (c ∷ key) (hex_encode x) ++ rest))
      ≡ (ok x, new_line_reader rest)
unfolding get_hash
get_hash-field c key rest x h k l b n = rw (
  next-field c key (hex_encode x) rest h k (hex_encode-IsText x)
      (omega (arith, length-hex_encode x)),
  hash_from_hex-hex_encode x b n,
)

get_signature-field :
    (c : ℕ) (key rest : Bytes) (x : Signature)
    → All (λ d. d ≢ 61) (c ∷ key)
    → All (λ d. d ≢ 10) (c ∷ key)
    → length key < 100
    → All IsByte x
    → length x ≡ signature_size
    → get_signature (c ∷ key) (new_line_reader (field (c ∷ key) (hex_encode x) ++ rest))
      ≡ (ok x, new_line_reader rest)
unfolding get_signature
get_signature-field c key rest x h k l b n = rw (
  next-field c key (hex_encode x) rest h k (hex_encode-IsText x)
      (omega (arith, length-hex_encode x)),
  signature_from_hex-hex_encode x b n,
)

pub parse-text_before :
    (sth : SignedTreeHead) (rest : Bytes)
    → IsSignedTreeHead sth
    → parse_signed_tree_head (new_line_reader (text_before sth rest))
      ≡ (ok sth, new_line_reader rest)
unfolding parse_signed_tree_head parse_tree_head
parse-text_before sth rest v = rw (
  get_int-field 115 (codes "ize")
      (field (codes "root_hash") (hex_encode sth.root_hash)
        ++ (field (codes "signature") (hex_encode sth.signature) ++ rest))
      sth.size (ground arith) (ground arith) (omega arith) v.size,
  get_hash-field 114 (codes "oot_hash")
      (field (codes "signature") (hex_encode sth.signature) ++ rest) sth.root_hash (ground arith)
      (ground arith) (omega arith) v.root_hash_bytes v.root_hash,
  get_signature-field 115 (codes "ignature") rest sth.signature (ground arith) (ground arith)
      (omega arith) v.signature_bytes v.signature,
)

get_eof-nil : get_eof (new_line_reader []) ≡ (ok tt, new_line_reader [])
unfolding get_eof new_line_reader scan_from
get_eof-nil = refl

signed_tree_head_from_ascii-text_of :
    (sth : SignedTreeHead)
    → IsSignedTreeHead sth
    → signed_tree_head_from_ascii (text_of sth) ≡ ok sth
unfolding signed_tree_head_from_ascii
signed_tree_head_from_ascii-text_of sth v =
    rw (signed_tree_head_from_ascii, parse-text_before sth [] v, get_eof-nil)

-- ToASCII writes every signed tree head with a size below 2 ^ 63, a root hash of 32 bytes and a
-- signature of 64 bytes, and FromASCII reads it back from that text.
pub signed_tree_head_from_ascii-signed_tree_head_to_ascii :
    (sth : SignedTreeHead)
    → IsSignedTreeHead sth
    → (text : Bytes) × (signed_tree_head_to_ascii sth ≡ ok text)
      × (signed_tree_head_from_ascii text ≡ ok sth)
signed_tree_head_from_ascii-signed_tree_head_to_ascii sth v = (
  text_of sth,
  signed_tree_head_to_ascii-text_of sth v,
  signed_tree_head_from_ascii-text_of sth v,
)
