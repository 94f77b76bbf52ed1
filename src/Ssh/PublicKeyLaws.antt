-- ===== src/Ssh/PublicKeyLaws.antt =====
-- The text form of an SSH public key.
use sigsum_lib_go.Prelude.{
  ℕ, ◌^◌, ◌≤◌, ◌<◌, ◌≡◌, refl, sym, ap, ◌∙◌, arith, Bool, true, drop, leb, ◌&&◌, eq_bytes, false,
  some, List, [], ◌∷◌, ◌++◌, All, All-append, length, reverse, append_assoc, ◌==◌, ltb,
}
use mathlib.Core.List.{reverse_aux, reverse-reverse}
use sigsum_lib_go.Prelude.Text.{codes}
use sigsum_lib_go.Result.{ok}
use sigsum_lib_go.Crypto.{Bytes, PublicKey, IsByte}
use sigsum_lib_go.Encoding.Base64.{base64_encode, base64_decode}
use sigsum_lib_go.Encoding.Base64Laws.{
  base64_encode_cons, base64_encode-All, base64_decode-base64_encode,
}
use sigsum_lib_go.Requests.AddCheckpoint.{cut_prefix}
use sigsum_lib_go.Checkpoint.Cosignature.{put_big_endian}
use sigsum_lib_go.Ssh.Wire.{serialize_uint32, serialize_string, skip_prefix}
use sigsum_lib_go.Ssh.PublicKeys.{
  serialize_public_ed25519, parse_public_blob, is_blank, end_field, blank_fields, public_of_fields,
  parse_public_ed25519, format_public_ed25519,
}

pub cut_prefix-append : (p s : Bytes) → cut_prefix p (p ++ s) ≡ some s
unfolding cut_prefix
cut_prefix-append [] s = refl
cut_prefix-append (c ∷ p) s =
    let same : (c == c) ≡ true = ground arith in rw (cut_prefix, same) (cut_prefix-append p s)

-- A word without blanks is read up to the blank after it.
blank_fields-word :
    (word text rest : Bytes)
    → All (λ c. 32 < c) text
    → blank_fields word (text ++ 32 ∷ rest)
      ≡ end_field (reverse_aux text word) (blank_fields [] rest)
unfolding blank_fields
blank_fields-word word [] rest h = refl
blank_fields-word word (c ∷ text) rest (hc, h) =
    let other : is_blank c ≡ false = ground arith in
    rw other (blank_fields-word (c ∷ word) text rest h)

end_field-word :
    (c : ℕ) (text : Bytes) (fields : List Bytes)
    → end_field (reverse_aux text (c ∷ [])) fields ≡ (c ∷ text) ∷ fields
end_field-word c text fields =
    word_end (reverse_aux text (c ∷ [])) (length-reverse_aux text (c ∷ []) (omega arith))
    ∙ ap (λ w. w ∷ fields) (reverse-reverse (c ∷ text))
  where
    length-reverse_aux : (s t : Bytes) → 1 ≤ length t → 1 ≤ length (reverse_aux s t)
    length-reverse_aux [] t h = h
    length-reverse_aux (x ∷ s) t h = length-reverse_aux s (x ∷ t) (omega arith)

    word_end : (w : Bytes) → 1 ≤ length w → end_field w fields ≡ reverse w ∷ fields
    word_end [] h = absurd (omega (arith, h))
    word_end (x ∷ w) h = refl

-- The first field of a text, and those after the blank.
blank_fields-cons :
    (c : ℕ) (text rest : Bytes)
    → All (λ x. 32 < x) (c ∷ text)
    → blank_fields [] (c ∷ text ++ 32 ∷ rest) ≡ (c ∷ text) ∷ blank_fields [] rest
blank_fields-cons c text rest h =
    blank_fields-word [] (c ∷ text) rest h ∙ end_field-word c text (blank_fields [] rest)

abbrev name_blob : Bytes
name_blob = put_big_endian 4 11 ++ codes "ssh-ed25519"

serialize_name : serialize_string (codes "ssh-ed25519") ≡ ok name_blob
unfolding serialize_string serialize_uint32
serialize_name = refl

serialize_string_short :
    (t : Bytes) → length t < 2 ^ 31 → serialize_string t ≡ ok (serialize_uint32 (length t) ++ t)
unfolding serialize_string
serialize_string_short t n =
    let short : ltb 2147483647 (length t) ≡ false = ground arith in rw (serialize_string, short)

-- The blob of a key of 32 bytes.
abbrev blob_of : PublicKey → Bytes
blob_of key = name_blob ++ (serialize_uint32 32 ++ key)

serialize_public :
    (key : PublicKey) → length key ≡ 32 → serialize_public_ed25519 key ≡ ok (blob_of key)
unfolding serialize_public_ed25519
serialize_public key n =
    let short : serialize_string key ≡ ok (serialize_uint32 32 ++ key) =
      serialize_string_short key (omega (arith, n)) ∙ ap (λ m. ok (serialize_uint32 m ++ key)) n in
    rw (serialize_public_ed25519, serialize_name, short)

parse_public_blob-blob_of :
    (key : PublicKey) → length key ≡ 32 → parse_public_blob (blob_of key) ≡ ok key
unfolding parse_public_blob skip_prefix
parse_public_blob-blob_of key n =
    let size : (length key == 32) ≡ true = ground arith in
    let cut : cut_prefix (name_blob ++ serialize_uint32 32) (blob_of key) ≡ some key =
      ap (cut_prefix (name_blob ++ serialize_uint32 32))
        (sym (append_assoc name_blob (serialize_uint32 32) key))
      ∙ cut_prefix-append (name_blob ++ serialize_uint32 32) key in
    rw (parse_public_blob, serialize_name, cut, size)

-- Tests of the bytes of a constant.
abbrev between : ℕ → ℕ → Bytes → Bool
between low high [] = true
between low high (c ∷ t) = leb low c && ltb c high && between low high t

between-All :
    (low high : ℕ) (t : Bytes)
    → between low high t ≡ true
    → All (λ c. low ≤ c) t × All (λ c. c < high) t
between-All low high [] h = (tt, tt)
between-All low high (c ∷ t) h =
    let (up, down) = between-All low high t (ground arith) in
    ((ground arith, up), (ground arith, down))

blob_of-IsByte : (key : PublicKey) → All IsByte key → All IsByte (blob_of key)
unfolding serialize_uint32 put_big_endian
blob_of-IsByte key h =
    All-append IsByte name_blob (serialize_uint32 32 ++ key) (between-All 0 256 name_blob refl).1 (
      All-append IsByte (serialize_uint32 32) key (between-All 0 256 (serialize_uint32 32) refl).1
        h)

above_blank : (t : Bytes) → All (λ c. 43 ≤ c) t → All (λ c. 32 < c) t
above_blank [] h = tt
above_blank (c ∷ t) (hc, h) = (omega (arith, hc), above_blank t h)

abbrev comment : Bytes
comment = codes "sigsum key" ++ 10 ∷ []

parse_key_line :
    (text blob : Bytes) (e : ℕ) (t : Bytes)
    → text ≡ e ∷ t
    → All (λ c. 43 ≤ c) text
    → base64_decode text ≡ ok blob
    → parse_public_ed25519 (codes "ssh-ed25519" ++ 32 ∷ (text ++ 32 ∷ comment))
      ≡ parse_public_blob blob
unfolding parse_public_ed25519 eq_bytes
parse_key_line text blob e t same h decoded =
    let fields : blank_fields [] (text ++ 32 ∷ comment) ≡ text ∷ blank_fields [] comment =
      rw same (blank_fields-cons e t comment (above_blank (e ∷ t) (rw same at h))) in
    let all_fields : blank_fields [] (codes "ssh-ed25519" ++ 32 ∷ (text ++ 32 ∷ comment))
        ≡ codes "ssh-ed25519" ∷ text ∷ blank_fields [] comment =
      blank_fields-cons 115 (codes "sh-ed25519") (text ++ 32 ∷ comment)
        (between-All 33 128 (codes "ssh-ed25519") refl).0
      ∙ ap (λ fs. codes "ssh-ed25519" ∷ fs) fields in
    ap public_of_fields all_fields ∙ rw decoded refl

-- ParsePublicEd25519 reads back the key that FormatPublicEd25519 wrote, for a key of 32 bytes.
pub parse_public_ed25519-format_public_ed25519 :
    (key : PublicKey)
    → length key ≡ 32
    → All IsByte key
    → (text : Bytes) × (format_public_ed25519 key ≡ ok text) × (parse_public_ed25519 text ≡ ok key)
unfolding format_public_ed25519 put_big_endian
parse_public_ed25519-format_public_ed25519 key n h =
    let text = base64_encode (blob_of key) in
    let (e, t, same) = base64_encode_cons 0 (drop 1 (blob_of key)) in
    (
      codes "ssh-ed25519 " ++ (text ++ (codes " sigsum key" ++ 10 ∷ [])),
      rw (format_public_ed25519, serialize_public key n),
      parse_key_line text (blob_of key) e t same (base64_encode-All (blob_of key))
            (base64_decode-base64_encode (blob_of key) (blob_of-IsByte key h))
          ∙ parse_public_blob-blob_of key n,
    )
