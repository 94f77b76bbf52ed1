-- ===== src/Ascii/Line.antt =====
-- pkg/ascii/line.go: the line reader. Its state is what the scanner will deliver: the lines that
-- end in a newline, and the error after the last of them.
use sigsum_lib_go.Prelude.{ℕ, List, [], ◌∷◌, ◌++◌, length, leb, ◌==◌, if◌then◌else◌}
use sigsum_lib_go.Result.{Result, Error, ok, err, panic, eof, unexpected_eof, errorf}
use sigsum_lib_go.Crypto.{Bytes}

pub record LineReader : Type 0 where
  pub lines : List Bytes
  pub end : Error

-- bufio.MaxScanTokenSize: a line and its newline have to fit.
abbrev pub max_scan_token_size : ℕ
max_scan_token_size = 65536

-- What a read past the last newline finds in `rest`.
abbrev pub end_of_input : Bytes → Error
end_of_input [] = eof
end_of_input (c ∷ rest) =
    if leb max_scan_token_size (length (c ∷ rest))
    then errorf "bufio.Scanner: token too long"
    else unexpected_eof

abbrev pub no_line : Error → LineReader
no_line e = record { lines = []; end = e }

-- A complete line before what the rest delivers, unless it is too long for the scanner's buffer.
abbrev pub push_line : Bytes → LineReader → LineReader
push_line line r =
    if leb max_scan_token_size (length line)
    then no_line (errorf "bufio.Scanner: token too long")
    else record { lines = line ∷ r.lines; end = r.end }

-- The scanner with `line` read since the last newline.
unfoldable pub scan_from : Bytes → Bytes → LineReader
scan_from line [] = no_line (end_of_input line)
scan_from line (c ∷ s) =
    let next = scan_from [] s in
    let more = scan_from (line ++ c ∷ []) s in if c == 10 then push_line line next else more

unfoldable pub new_line_reader : Bytes → LineReader
new_line_reader input = scan_from [] input

-- A method that reads: it returns the reader beside the result, also beside an error.
abbrev pub Reader {ℓ} : Type ℓ → Type ℓ
Reader A = LineReader → Result A × LineReader

abbrev pub continue {ℓ κ} : {A : Type ℓ} {B : Type κ} → Result A → (A → Reader B) → Reader B
continue (ok a) f r = f a r
continue (err e) f r = (err e, r)
continue panic f r = (panic, r)

infixl 5 ◌>>=◌ ◌>>◌
abbrev pub ◌>>=◌ {ℓ κ} : {A : Type ℓ} {B : Type κ} → Reader A → (A → Reader B) → Reader B
◌>>=◌ m f r = continue (m r).0 f (m r).1

abbrev pub ◌>>◌ {ℓ} : {B : Type ℓ} → Reader (Unit {0}) → Reader B → Reader B
m >> k = m >>= λ _. k

-- A step that reads nothing.
abbrev pub lift {ℓ} : {A : Type ℓ} → Result A → Reader A
lift a r = (a, r)

abbrev pub get_line_of : List Bytes → Error → Result Bytes × LineReader
get_line_of [] e = (err e, no_line e)
get_line_of (line ∷ lines) e = (ok line, record { lines = lines; end = e })

unfoldable pub get_line : Reader Bytes
get_line r = get_line_of r.lines r.end

abbrev pub eof_of : List Bytes → Error → Result (Unit {0})
eof_of [] eof = ok tt
eof_of [] e = err e
eof_of (line ∷ lines) e = err (errorf "garbage line at end of data: %q")

unfoldable pub get_eof : Reader (Unit {0})
get_eof r = (eof_of r.lines r.end, r)

abbrev pub empty_line_only : Bytes → Result (Unit {0})
empty_line_only [] = ok tt
empty_line_only (c ∷ line) = err (errorf "garbage data where line should be empty: %q")

unfoldable pub get_empty_line : Reader (Unit {0})
get_empty_line = do line ← get_line; lift (empty_line_only line)
