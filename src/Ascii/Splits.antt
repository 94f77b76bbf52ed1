-- ===== src/Ascii/Splits.antt =====
-- The fields of a text with one-byte separators: strings.Split of pkg/ascii/parser.go and
-- pkg/submit-token/token.go.
use sigsum_lib_go.Prelude.{
  ℕ, ◌≡◌, ◌≢◌, refl, arith, inl, inr, Bool-cases, true, false, List, [], ◌∷◌, ◌++◌, All, ◌==◌,
}
use sigsum_lib_go.Crypto.{Bytes}
use sigsum_lib_go.Ascii.Parser.{split_on}

pub split_on-last : (sep : ℕ) (w : Bytes) → All (λ c. c ≢ sep) w → split_on sep w ≡ w ∷ []
unfolding split_on
split_on-last sep [] h = refl
split_on-last sep (c ∷ w) (hc, h) =
    let other : (c == sep) ≡ false = ground arith in rw (split_on, split_on-last sep w h, other)

split_on_some : (sep : ℕ) (s : Bytes) → (w : Bytes) × (ws : List Bytes) × (split_on sep s ≡ w ∷ ws)
unfolding split_on
split_on_some sep [] = ([], [], refl)
split_on_some sep (c ∷ s) =
    let (w, ws, e) = split_on_some sep s in
    elim (Bool-cases (c == sep)) [
      | inl same ↦ ([], w ∷ ws, rw (split_on, e, same))
      | inr other ↦ (c ∷ w, ws, rw (split_on, e, other))
    ]

pub split_on-word :
    (sep : ℕ) (w rest : Bytes)
    → All (λ c. c ≢ sep) w
    → split_on sep (w ++ sep ∷ rest) ≡ w ∷ split_on sep rest
unfolding split_on
split_on-word sep [] rest h =
    let (w, ws, some_words) = split_on_some sep rest in
    let same : (sep == sep) ≡ true = ground arith in rw (split_on, some_words, same)
split_on-word sep (c ∷ w) rest (hc, h) =
    let other : (c == sep) ≡ false = ground arith in
    rw (split_on, split_on-word sep w rest h, other)
