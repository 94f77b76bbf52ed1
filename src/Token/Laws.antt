-- ===== src/Token/Laws.antt =====
-- The submit header's text, and what a token that verifies shows.
use sigsum_lib_go.Prelude.{
  ℕ, ◌/◌, ◌%◌, ◌≤◌, ◌≡◌, ◌≢◌, ◌↔◌, refl, sym, ap, ◌∙◌, arith, inl, inr, Bool-cases, true, false,
  List, [], ◌∷◌, All, length, take, ltb, ◌==◌, Bool, if◌then◌else◌, zero, suc,
}
use sigsum_lib_go.Result.{Result, Error, ok, Result-cases}
use sigsum_lib_go.Crypto.{
  Bytes, PublicKey, Signature, Verifier, IsByte, signature_size, attach_namespace,
}
use sigsum_lib_go.Encoding.Hex.{hex_encode, hex_digit}
use sigsum_lib_go.Encoding.Fixed.{public_key_from_hex}
use sigsum_lib_go.Ascii.Parser.{split_on}
use sigsum_lib_go.Ascii.Splits.{split_on-last, split_on-word}
use sigsum_lib_go.Ascii.RoundTrip.{signature_from_hex-hex_encode}
use sigsum_lib_go.Token.SubmitToken.{
  SubmitHeader, to_header, header_of, from_header, lookup_domain, any_key, verify_header,
  token_namespace,
}

hex_encode-All : (b : Bytes) → All (λ c. c ≢ 32) (hex_encode b)
unfolding hex_encode hex_digit
hex_encode-All [] = tt
hex_encode-All (x ∷ b) = (digit (x / 16), (digit (x % 16), hex_encode-All b))
  where
    digit : (d : ℕ) → hex_digit d ≢ 32
    digit d = ground arith

-- FromHeader reads back the header that ToHeader wrote, for a domain that is not empty and has no space,
-- and a token of 64 bytes.
pub from_header-to_header :
    (s : SubmitHeader)
    → 1 ≤ length s.domain
    → All (λ c. c ≢ 32) s.domain
    → All IsByte s.token
    → length s.token ≡ signature_size
    → from_header (to_header s) ≡ ok s
unfolding from_header to_header header_of
from_header-to_header s d h b n =
    let fields : split_on 32 (to_header s) ≡ s.domain ∷ hex_encode s.token ∷ [] =
      split_on-word 32 s.domain (hex_encode s.token) h
      ∙ ap (λ ws. s.domain ∷ ws) (split_on-last 32 (hex_encode s.token) (hex_encode-All s.token)) in
    let filled : (length s.domain == 0) ≡ false = ground arith in
    rw (from_header, fields, filled, signature_from_hex-hex_encode s.token b n)

-- A text record that is the hex form of a key under which the token verifies.
pub data SomeKey (verify : Verifier) (signed_data : Bytes) (token : Signature)
    : List Bytes → Type 0 where
  here :
      {key_hex : Bytes} {rest : List Bytes} {key : PublicKey}
      → public_key_from_hex key_hex ≡ ok key
      → verify key signed_data token ≡ true
      → SomeKey verify signed_data token (key_hex ∷ rest)
  there :
      {key_hex : Bytes} {rest : List Bytes}
      → SomeKey verify signed_data token rest
      → SomeKey verify signed_data token (key_hex ∷ rest)

any_key_sound :
    (verify : Verifier) (signed_data : Bytes) (token : Signature) (records : List Bytes)
    → any_key verify signed_data token records ≡ true
    → SomeKey verify signed_data token records
unfolding any_key
any_key_sound verify signed_data token [] e = absurd cc
any_key_sound verify signed_data token (k ∷ rest) e = elim (Result-cases (public_key_from_hex k)) [
  | inr (inl (x, bad)) ↦
      there (any_key_sound verify signed_data token rest (rw (any_key, bad) at e))
  | inr (inr bad) ↦ there (any_key_sound verify signed_data token rest (rw (any_key, bad) at e))
  | inl (key, good) ↦ elim (Bool-cases (verify key signed_data token)) [
    | inl valid ↦ here good valid
    | inr invalid ↦
        there (any_key_sound verify signed_data token rest (rw (any_key, good, invalid) at e))
  ]
]

any_key_complete :
    (verify : Verifier) (signed_data : Bytes) (token : Signature) (records : List Bytes)
    → SomeKey verify signed_data token records
    → any_key verify signed_data token records ≡ true
unfolding any_key
any_key_complete verify signed_data token [] k = elim k [ ]
any_key_complete verify signed_data token (k ∷ rest) (here good valid) = rw (any_key, good, valid)
any_key_complete verify signed_data token (k ∷ rest) (there later) =
    let found = any_key_complete verify signed_data token rest later in
    elim (Result-cases (public_key_from_hex k)) [
      | inr (inl (x, bad)) ↦ rw (any_key, bad) found
      | inr (inr bad) ↦ rw (any_key, bad) found
      | inl (key, good) ↦ elim (Bool-cases (verify key signed_data token)) [
        | inl valid ↦ rw (any_key, good, valid)
        | inr invalid ↦ rw (any_key, good, invalid) found
      ]
    ]

take_short : (n : ℕ) (xs : List Bytes) → length xs ≤ n → take n xs ≡ xs
take_short zero [] h = refl
take_short zero (x ∷ xs) h = absurd (omega (arith, h))
take_short (suc n) [] h = refl
take_short (suc n) (x ∷ xs) h = ap (λ t. x ∷ t) (take_short n xs (omega (arith, h)))

first_keys : (n : ℕ) (xs : List Bytes) → (if ltb n (length xs) then take n xs else xs) ≡ take n xs
first_keys n xs = elim (Bool-cases (ltb n (length xs))) [
  | inl long ↦ rw long refl
  | inr short ↦ rw short (sym (take_short n xs (ground arith)))
]

module _ (verify : Verifier) (lookup_txt : Bytes → Result (List Bytes))
    (is_not_found : Error → Bool) (log_key : PublicKey) (header : SubmitHeader) where
  -- The look-up succeeds, and one of the first ten records is a key under which the token verifies.
  abbrev pub Vouched : Type 0
  Vouched =
      (records : List Bytes) × (lookup_domain lookup_txt is_not_found header.domain ≡ ok records)
      × SomeKey verify (attach_namespace token_namespace log_key) header.token (take 10 records)

  verify_header_sound :
      verify_header verify lookup_txt is_not_found log_key header ≡ ok tt → Vouched
  unfolding verify_header
  verify_header_sound e =
      elim (Result-cases (lookup_domain lookup_txt is_not_found header.domain)) [
        | inr (inl (x, failed)) ↦ absurd (cc (rw (verify_header, failed) at e))
        | inr (inr failed) ↦ absurd (cc (rw (verify_header, failed) at e))
        | inl (records, found) ↦
            let same = first_keys 10 records in
            elim (Bool-cases (
              any_key verify (attach_namespace token_namespace log_key) header.token
                (take 10 records))) [
                  | inl valid ↦
                      (records, found, any_key_sound verify _ header.token (take 10 records) valid)
                  | inr invalid ↦ absurd (cc (rw (verify_header, found, same, invalid) at e))
                ]
      ]

  verify_header_complete :
      Vouched → verify_header verify lookup_txt is_not_found log_key header ≡ ok tt
  unfolding verify_header
  verify_header_complete (records, found, some_key) =
      let same = first_keys 10 records in
      let valid = any_key_complete verify _ header.token (take 10 records) some_key in
      rw (verify_header, found, same, valid)

  -- DnsVerifier.Verify accepts a header exactly if the look-up of its domain succeeds and one of the first
  -- ten records is the hex form of a key under which the token verifies for the log's key.
  pub verify_header-Vouched :
      (verify_header verify lookup_txt is_not_found log_key header ≡ ok tt) ↔ Vouched
  verify_header-Vouched = (verify_header_sound, verify_header_complete)
