-- ===== src/Policy/WellFormed.antt =====
-- The quorums that a policy file defines can be met.
use sigsum_lib_go.Prelude.{
  ℕ, ◌≤◌, ◌≡◌, refl, sym, ◌∙◌, arith, inl, inr, Bool-cases, Option-cases, some, List, [], ◌∷◌,
  length, eq_bytes, ◌==◌,
}
use sigsum_lib_go.Prelude.Int.{ℤ, pos, negsuc}
use sigsum_lib_go.Prelude.Maps.{Map, lookup, insert, lookup-insert}
use sigsum_lib_go.Result.{ok, >>=-ok}
use sigsum_lib_go.Crypto.{Bytes, Hash}
use sigsum_lib_go.Policy.Quorum.{Quorum, Quorums, single, k_of_n, nil, cons, quorums_length}
use sigsum_lib_go.Policy.Config.{
  Config, check_threshold, find_members, ifdef, parse_threshold, parse_group, parse_quorum,
}

-- A threshold is at most the number of members, and so on in every member.
mutual
  pub data IsMeetable : Quorum → Type 0 where
    witness : {w : Hash} → IsMeetable (single w)
    group :
        {qs : Quorums} {k : ℕ} → AreMeetable qs → k ≤ quorums_length qs → IsMeetable (k_of_n qs k)

  pub data AreMeetable : Quorums → Type 0 where
    no_member : AreMeetable nil
    member : {q : Quorum} {qs : Quorums} → IsMeetable q → AreMeetable qs → AreMeetable (cons q qs)

-- Every name stands for such a quorum, and so does the policy's choice.
pub record IsConfig (c : Config) : Type 0 where
  pub named : (name : Bytes) (q : Quorum) → lookup name c.names ≡ some q → IsMeetable q
  pub chosen : (q : Quorum) → c.policy.quorum ≡ some q → IsMeetable q

check_threshold-le : (t : ℤ) (n k : ℕ) → check_threshold t n ≡ ok k → k ≤ n
unfolding check_threshold
check_threshold-le (negsuc m) n k e = cc
check_threshold-le (pos j) n k e = ground arith

find_members-AreMeetable :
    (names : Map Quorum)
    → ((name : Bytes) (q : Quorum) → lookup name names ≡ some q → IsMeetable q)
    → (members : List Bytes) (qs : Quorums) → find_members names members ≡ ok qs
    → AreMeetable qs
unfolding find_members
find_members-AreMeetable names named [] qs e = let same : nil ≡ qs = cc in rw (← same) no_member
find_members-AreMeetable names named (m ∷ members) qs e = elim (Option-cases (lookup m names)) [
  | inl undefined ↦ absurd (cc (rw (find_members, undefined) at e))
  | inr (q, found) ↦
      let (rest, parsed, last) =
        >>=-ok (find_members names members) (λ r. ok (cons q r)) qs
          (rw (find_members, found) at e) in
      let same : cons q rest ≡ qs = cc (last) in
      rw (← same)
        (member (named m q found) (find_members-AreMeetable names named members rest parsed))
]

pub named-insert :
    (name : Bytes) (q : Quorum) (names : Map Quorum)
    → IsMeetable q
    → ((n : Bytes) (r : Quorum) → lookup n names ≡ some r → IsMeetable r)
    → (n : Bytes) (r : Quorum) → lookup n (insert name q names) ≡ some r
    → IsMeetable r
named-insert name q names h named n r e = elim (Bool-cases (eq_bytes name n)) [
  | inl same ↦
      let this : some q ≡ some r = sym (lookup-insert name n q names ∙ rw same refl) ∙ e in
      let is : q ≡ r = cc this in rw (← is) h
  | inr other ↦ named n r (sym (lookup-insert name n q names ∙ rw other refl) ∙ e)
]

pub parse_group-IsConfig :
    (c d : Config) (args : List Bytes) → IsConfig c → parse_group c args ≡ ok d → IsConfig d
unfolding parse_group
parse_group-IsConfig c d [] v e = absurd cc
parse_group-IsConfig c d (a ∷ []) v e = absurd cc
parse_group-IsConfig c d (a ∷ b ∷ []) v e = absurd cc
parse_group-IsConfig c d (name ∷ threshold ∷ m ∷ members) v e = elim (Bool-cases (ifdef c name)) [
  | inl taken ↦ absurd (cc (rw (parse_group, taken) at e))
  | inr new ↦
      let (t, _, e1) =
        >>=-ok (parse_threshold threshold (length (m ∷ members))) _ d
          (rw (parse_group, new) at e) in
      let (k, limit, e2) = >>=-ok (check_threshold t (length (m ∷ members))) _ d e1 in
      let (qs, found, e3) = >>=-ok (find_members c.names (m ∷ members)) _ d e2 in
      elim (Bool-cases (quorums_length qs == length (m ∷ members))) [
        | inr differs ↦ absurd (cc (rw differs at e3))
        | inl size ↦
            let same : record c { names = insert name (k_of_n qs k) c.names } ≡ d =
              cc (rw size at e3) in
            let meetable : IsMeetable (k_of_n qs k) =
              group (find_members-AreMeetable c.names v.named (m ∷ members) qs found)
                (let le = check_threshold-le t (length (m ∷ members)) k limit in ground arith) in
            rw (← same) (record {
              named = named-insert name (k_of_n qs k) c.names meetable v.named;
              chosen = v.chosen;
            })
      ]
]

pub parse_quorum-IsConfig :
    (c d : Config) (args : List Bytes) → IsConfig c → parse_quorum c args ≡ ok d → IsConfig d
unfolding parse_quorum
parse_quorum-IsConfig c d [] v e = absurd cc
parse_quorum-IsConfig c d (name ∷ b ∷ args) v e = absurd cc
parse_quorum-IsConfig c d (name ∷ []) v e = elim (Option-cases c.policy.quorum) [
  | inr (q, set) ↦ absurd (cc (rw (parse_quorum, set) at e))
  | inl unset ↦ elim (Option-cases (lookup name c.names)) [
    | inl undefined ↦ absurd (cc (rw (parse_quorum, unset, undefined) at e))
    | inr (q, found) ↦
        let same : record c { policy = record (c.policy) { quorum = some q } } ≡ d =
          cc (rw (parse_quorum, unset, found) at e) in
        rw (← same) (record {
          named = v.named;
          chosen = λ r s. let is : q ≡ r = cc s in rw (← is) (v.named name q found);
        })
  ]
]
