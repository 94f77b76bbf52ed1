-- ===== src/Policy/Quorum.antt =====
-- pkg/policy/policy.go: the two kinds of Quorum.
use sigsum_lib_go.Prelude.{ℕ, suc, Bool, false, ◌||◌, List, [], ◌∷◌, leb, if◌then◌else◌, eq_bytes}
use sigsum_lib_go.Crypto.{Hash}

-- A quorum, and the slice of its sub-quorums.
mutual
  pub data Quorum : Type 0 where
    single : Hash → Quorum
    k_of_n : Quorums → ℕ → Quorum

  pub data Quorums : Type 0 where
    nil : Quorums
    cons : Quorum → Quorums → Quorums

-- The keys of a Go map that is used as a set.
unfoldable pub contains : List Hash → Hash → Bool
contains [] h = false
contains (x ∷ xs) h = eq_bytes x h || contains xs h

-- IsQuorum of quorumSingle and of quorumKofN, and the count `c` of the latter.
unfoldable mutual
  pub is_quorum : Quorum → List Hash → Bool
  is_quorum (single w) verified = contains verified w
  is_quorum (k_of_n qs k) verified = leb k (count_quorums qs verified)

  pub count_quorums : Quorums → List Hash → ℕ
  count_quorums nil verified = 0
  count_quorums (cons q qs) verified =
      let c = count_quorums qs verified in if is_quorum q verified then suc c else c

abbrev pub snoc : Quorums → Quorum → Quorums
snoc nil q = cons q nil
snoc (cons p qs) q = cons p (snoc qs q)

abbrev pub quorums_length : Quorums → ℕ
quorums_length nil = 0
quorums_length (cons q qs) = suc (quorums_length qs)
