-- ===== src/Policy/Threshold.antt =====
-- What a quorum asks for, apart from how IsQuorum counts.
use sigsum_lib_go.Prelude.{ℕ, suc, ◌≤◌, ◌≡◌, ◌↔◌, arith, inl, inr, Bool-cases, true, List}
use sigsum_lib_go.Crypto.{Hash}
use sigsum_lib_go.Policy.Quorum.{
  Quorum, Quorums, single, k_of_n, nil, cons, contains, is_quorum, count_quorums,
}

-- A witness's quorum is met if the witness is verified, a group's if enough of its members are.
mutual
  pub data Meets (verified : List Hash) : Quorum → Type 0 where
    witness : {w : Hash} → contains verified w ≡ true → Meets verified (single w)
    group : {qs : Quorums} {k n : ℕ} → Meeting verified qs n → k ≤ n → Meets verified (k_of_n qs k)

  -- `n` of the members are met.
  pub data Meeting (verified : List Hash) : Quorums → ℕ → Type 0 where
    none_of : Meeting verified nil 0
    met :
        {q : Quorum} {qs : Quorums} {n : ℕ}
        → Meets verified q
        → Meeting verified qs n
        → Meeting verified (cons q qs) (suc n)
    passed :
        {q : Quorum} {qs : Quorums} {n : ℕ} → Meeting verified qs n → Meeting verified (cons q qs) n

mutual
  unfolding is_quorum count_quorums

  met_of : (verified : List Hash) (q : Quorum) → is_quorum q verified ≡ true → Meets verified q
  met_of verified (single w) h = witness h
  met_of verified (k_of_n qs k) h = group (Meeting-of verified qs) (ground arith)

  Meeting-of :
      (verified : List Hash) (qs : Quorums) → Meeting verified qs (count_quorums qs verified)
  Meeting-of verified nil = none_of
  Meeting-of verified (cons q qs) = elim (Bool-cases (is_quorum q verified)) [
    | inl h ↦ rw h (met (met_of verified q h) (Meeting-of verified qs))
    | inr h ↦ rw h (passed (Meeting-of verified qs))
  ]

mutual
  unfolding is_quorum count_quorums

  of_met : (verified : List Hash) (q : Quorum) → Meets verified q → is_quorum q verified ≡ true
  of_met verified (single w) (witness h) = h
  of_met verified (k_of_n qs k) (group {n = n} m h) =
      let enough = of_Meeting verified qs n m in ground arith

  of_Meeting :
      (verified : List Hash) (qs : Quorums) (n : ℕ)
      → Meeting verified qs n
      → n ≤ count_quorums qs verified
  of_Meeting verified nil n none_of = omega arith
  of_Meeting verified (cons q qs) (suc n) (met h m) =
      let here = of_met verified q h in
      let rest = of_Meeting verified qs n m in rw here (omega (arith, rest))
  of_Meeting verified (cons q qs) n (passed m) =
      let rest = of_Meeting verified qs n m in
      elim (Bool-cases (is_quorum q verified)) [
        | inl h ↦ rw h (omega (arith, rest))
        | inr h ↦ rw h rest
      ]

-- IsQuorum decides whether the verified witnesses meet the quorum: a single witness's if it is one of
-- them, a group's if at least k of its members are met.
pub is_quorum-Meets :
    (q : Quorum) (verified : List Hash) → (is_quorum q verified ≡ true) ↔ Meets verified q
is_quorum-Meets q verified = (met_of verified q, of_met verified q)
