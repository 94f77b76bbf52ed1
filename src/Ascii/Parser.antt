-- ===== src/Ascii/Parser.antt =====
-- pkg/ascii/parser.go
use mathlib.Core.Option
use sigsum_lib_go.Prelude.{
  ℕ, Bool, false, Option, none, some, List, [], ◌∷◌, length, ◌==◌, eq_bytes, if◌then◌else◌,
}
use sigsum_lib_go.Result.{Result, ok, err, empty_line, errorf}
use sigsum_lib_go.Crypto.{Bytes, Hash, Signature, PublicKey}
use sigsum_lib_go.Encoding.Decimal.{parse_uint63}
use sigsum_lib_go.Encoding.Fixed.{hash_from_hex, public_key_from_hex, signature_from_hex}
use sigsum_lib_go.Ascii.Line.{Reader, ◌>>=◌, lift, get_line}

-- `len(s) > 1 && s[0] == '0'`
abbrev pub has_leading_zero : Bytes → Bool
has_leading_zero (c ∷ d ∷ s) = c == 48
has_leading_zero _ = false

unfoldable pub int_from_decimal : Bytes → Result ℕ
int_from_decimal s =
    if has_leading_zero s
    then err (errorf "invalid decimal number %q, must be no leading zeros")
    else parse_uint63 s

-- strings.Cut(line, "="): what stands before and after the first separator.
unfoldable pub cut : ℕ → Bytes → Option (Bytes × Bytes)
cut sep [] = none
cut sep (c ∷ s) = if c == sep then some ([], s) else Option.map (λ p. (c ∷ p.0, p.1)) (cut sep s)

-- strings.Split(s, " "), and so for any one-byte separator.
unfoldable pub split_on : ℕ → Bytes → List Bytes
split_on sep [] = [] ∷ []
split_on sep (c ∷ s) = elim (split_on sep s) [
  | [] ↦ (c ∷ []) ∷ []
  | w ∷ ws ↦ if c == sep then [] ∷ w ∷ ws else (c ∷ w) ∷ ws
]

-- The value of a line, if its key is `name`.
unfoldable pub line_value : Bytes → Bytes → Result Bytes
line_value name [] = err empty_line
line_value name (c ∷ line) = elim (cut 61 (c ∷ line)) [
  | none ↦ err (errorf "invalid input line: %q")
  | some (key, value) ↦
      if eq_bytes key name
      then ok value
      else err (errorf "invalid input line, expected %v, got key: %q")
]

-- Parser.next
unfoldable pub next : Bytes → Reader Bytes
next name = do line ← get_line; lift (line_value name line)

unfoldable pub get_int : Bytes → Reader ℕ
get_int name = do v ← next name; lift (int_from_decimal v)

unfoldable pub get_hash : Bytes → Reader Hash
get_hash name = do v ← next name; lift (hash_from_hex v)

unfoldable pub get_public_key : Bytes → Reader PublicKey
get_public_key name = do v ← next name; lift (public_key_from_hex v)

unfoldable pub get_signature : Bytes → Reader Signature
get_signature name = do v ← next name; lift (signature_from_hex v)

abbrev pub check_count : ℕ → List Bytes → Result (List Bytes)
check_count count values =
    if length values == count
    then ok values
    else err (errorf "bad number of values, got %d, expected %d")

unfoldable pub get_values : Bytes → ℕ → Reader (List Bytes)
get_values name count = do v ← next name; lift (check_count count (split_on 32 v))
