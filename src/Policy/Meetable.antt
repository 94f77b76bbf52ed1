-- ===== src/Policy/Meetable.antt =====
-- A policy that is read from a file can be met.
use sigsum_lib_go.Prelude.{
  ◌≡◌, refl, arith, inl, inr, Option-cases, true, some, List, [], ◌∷◌, ◌++◌, All, eq_bytes_refl,
  All-split,
}
use sigsum_lib_go.Result.{ok, >>=-ok}
use sigsum_lib_go.Crypto.{Bytes, Hash, Sha256}
use sigsum_lib_go.Policy.Quorum.{
  Quorum, Quorums, single, k_of_n, nil, cons, quorums_length, contains, is_quorum,
}
use sigsum_lib_go.Policy.Threshold.{Meets, Meeting, witness, group, none_of, met, is_quorum-Meets}
use sigsum_lib_go.Policy.Policy.{Policy}
use sigsum_lib_go.Policy.Config.{parse_lines, parse_config, initial_config, require_quorum}
use sigsum_lib_go.Policy.WellFormed.{
  IsMeetable, AreMeetable, IsConfig, named-insert, parse_group-IsConfig, parse_quorum-IsConfig,
}
use sigsum_lib_go.Policy.WellFormed as WellFormed
use sigsum_lib_go.Policy.ConfigLaws.{parse_lines-IsConfig, initial_config-IsConfig}

-- The witnesses that a quorum names.
unfoldable mutual
  pub witnesses_of : Quorum → List Hash
  witnesses_of (single w) = w ∷ []
  witnesses_of (k_of_n qs k) = all_witnesses_of qs

  pub all_witnesses_of : Quorums → List Hash
  all_witnesses_of nil = []
  all_witnesses_of (cons q qs) = witnesses_of q ++ all_witnesses_of qs

mutual
  unfolding witnesses_of all_witnesses_of

  meets :
      (verified : List Hash) (q : Quorum)
      → IsMeetable q
      → All (λ w. contains verified w ≡ true) (witnesses_of q)
      → Meets verified q
  meets verified (single w) WellFormed.witness (h, _) = witness h
  meets verified (k_of_n qs k) (WellFormed.group m n) h = group (All-met verified qs m h) n

  All-met :
      (verified : List Hash) (qs : Quorums)
      → AreMeetable qs
      → All (λ w. contains verified w ≡ true) (all_witnesses_of qs)
      → Meeting verified qs (quorums_length qs)
  All-met verified nil WellFormed.no_member h = none_of
  All-met verified (cons q qs) (WellFormed.member m ms) h =
      let (here, rest) =
        All-split (λ w. contains verified w ≡ true) (witnesses_of q) (all_witnesses_of qs) h in
      met (meets verified q m here) (All-met verified qs ms rest)

contains_self : (w : Hash) (ws : List Hash) → contains (w ∷ ws) w ≡ true
unfolding contains
contains_self w ws = rw (eq_bytes_refl w) refl

contains_later : (v w : Hash) (ws : List Hash) → contains ws w ≡ true → contains (v ∷ ws) w ≡ true
unfolding contains
contains_later v w ws h = ground arith

All-contains_later :
    (v : Hash) (ws xs : List Hash)
    → All (λ w. contains ws w ≡ true) xs
    → All (λ w. contains (v ∷ ws) w ≡ true) xs
All-contains_later v ws [] h = tt
All-contains_later v ws (x ∷ xs) (p, h) = (contains_later v x ws p, All-contains_later v ws xs h)

contains-All : (ws : List Hash) → All (λ w. contains ws w ≡ true) ws
contains-All [] = tt
contains-All (w ∷ ws) = (contains_self w ws, All-contains_later w ws ws (contains-All ws))

require_quorum-some :
    (p r : Policy) → require_quorum p ≡ ok r → (p ≡ r) × (q : Quorum) × (p.quorum ≡ some q)
require_quorum-some p r e = elim (Option-cases p.quorum) [
  | inl unset ↦ absurd (cc (rw (require_quorum, unset) at e))
  | inr (q, set) ↦ (cc (rw (require_quorum, set) at e), q, set)
]

-- A policy that ParseConfig returns has a quorum, and cosignatures of all the witnesses that the
-- quorum names are enough for it, in every nesting of groups.
pub parse_config-is_quorum :
    (sha : Sha256) (lines : List Bytes) (p : Policy)
    → parse_config sha lines ≡ ok p
    → (q : Quorum) × (p.quorum ≡ some q) × (is_quorum q (witnesses_of q) ≡ true)
unfolding parse_config
parse_config-is_quorum sha lines p e =
    let (c, parsed, chosen) =
      >>=-ok (parse_lines sha initial_config lines) (λ c. require_quorum c.policy) p e in
    let v = parse_lines-IsConfig sha initial_config c lines initial_config-IsConfig parsed in
    let (same, q, set) = require_quorum-some c.policy p chosen in
    (
      q,
      rw (← same) set,
      (is_quorum-Meets q (witnesses_of q)).1
          (meets (witnesses_of q) q (v.chosen q set) (contains-All (witnesses_of q))),
    )
