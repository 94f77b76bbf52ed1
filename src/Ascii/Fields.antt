-- ===== src/Ascii/Fields.antt =====
-- Reading back a line `key=text` that was written in front of other text.
use sigsum_lib_go.Prelude.{
  ℕ, ◌+◌, ◌<◌, ◌≡◌, ◌≢◌, refl, ap, sym, ◌∙◌, arith, some, [], ◌∷◌, ◌++◌, length, All, All-append,
  append_assoc, append-nil, length-append, eq_bytes_refl, ◌==◌, leb, false,
}
use sigsum_lib_go.Result.{ok}
use sigsum_lib_go.Crypto.{Bytes}
use sigsum_lib_go.Ascii.Line.{
  LineReader, max_scan_token_size, push_line, scan_from, new_line_reader, get_line,
}
use sigsum_lib_go.Ascii.Parser.{cut, line_value, next}

abbrev IsText : Bytes → Type 0
IsText s = All (λ c. c ≢ 10) s

scan_from-line :
    (read line rest : Bytes)
    → IsText line
    → scan_from read (line ++ 10 ∷ rest) ≡ push_line (read ++ line) (scan_from [] rest)
unfolding scan_from
scan_from-line read [] rest h =
    ap (λ (s : Bytes). push_line s (scan_from [] rest)) (sym (append-nil read))
scan_from-line read (c ∷ line) rest (hc, h) =
    let other : (c == 10) ≡ false = ground arith in
    rw other (
      scan_from-line (read ++ c ∷ []) line rest h
      ∙ ap (λ (s : Bytes). push_line s (scan_from [] rest)) (append_assoc read (c ∷ []) line))

push_line-short :
    (line : Bytes) (r : LineReader)
    → length line < max_scan_token_size
    → push_line line r ≡ record { lines = line ∷ r.lines; end = r.end }
push_line-short line r h =
    let short : leb 65536 (length line) ≡ false = ground arith in rw short refl

pub new_line_reader-line :
    (line rest : Bytes)
    → IsText line
    → length line < max_scan_token_size
    → new_line_reader (line ++ 10 ∷ rest)
      ≡ record { lines = line ∷ (new_line_reader rest).lines; end = (new_line_reader rest).end }
unfolding new_line_reader
new_line_reader-line line rest h n =
    scan_from-line [] line rest h ∙ push_line-short line (scan_from [] rest) n

cut-field :
    (key text : Bytes) → All (λ c. c ≢ 61) key → cut 61 (key ++ 61 ∷ text) ≡ some (key, text)
unfolding cut
cut-field [] text h = refl
cut-field (c ∷ key) text (hc, h) =
    let other : (c == 61) ≡ false = ground arith in rw (other, cut-field key text h)

line_value-field :
    (c : ℕ) (key text : Bytes)
    → All (λ d. d ≢ 61) (c ∷ key)
    → line_value (c ∷ key) ((c ∷ key) ++ 61 ∷ text) ≡ ok text
unfolding line_value
line_value-field c key text h = rw (line_value, cut-field (c ∷ key) text h, eq_bytes_refl (c ∷ key))

-- A line as WriteLine writes it.
abbrev pub field : Bytes → Bytes → Bytes
field key text = key ++ 61 ∷ (text ++ 10 ∷ [])

pub field-append :
    (key text rest : Bytes) → field key text ++ rest ≡ (key ++ 61 ∷ text) ++ 10 ∷ rest
field-append key text rest =
    append_assoc key (61 ∷ (text ++ 10 ∷ [])) rest
    ∙ ap (λ (s : Bytes). key ++ 61 ∷ s) (append_assoc text (10 ∷ []) rest)
    ∙ sym (append_assoc key (61 ∷ text) (10 ∷ rest))

-- The next line is the field that stands first.
pub next-field :
    (c : ℕ) (key text rest : Bytes)
    → All (λ d. d ≢ 61) (c ∷ key)
    → All (λ d. d ≢ 10) (c ∷ key)
    → All (λ d. d ≢ 10) text
    → length (c ∷ key) + length text < 65000
    → next (c ∷ key) (new_line_reader (field (c ∷ key) text ++ rest))
      ≡ (ok text, new_line_reader rest)
unfolding next get_line
next-field c key text rest h k t n =
    let line : Bytes = (c ∷ key) ++ 61 ∷ text in
    rw (
      field-append (c ∷ key) text rest,
      new_line_reader-line line rest
          (All-append (λ d. d ≢ 10) (c ∷ key) (61 ∷ text) k (omega arith, t))
          (omega (arith, length-append (c ∷ key) (61 ∷ text))),
      line_value-field c key text h,
    )
