-- ===== src/Merkle/ProveLaws.antt =====
-- The inclusion proofs that a tree makes are accepted.
use sigsum_lib_go.Merkle.InclusionReuse.{finish, reuse-sibling_path}
use sigsum_lib_go.Prelude.{ℕ, ◌^◌, ◌≤◌, ◌<◌, ◌≡◌, sym, ap, ◌∙◌, arith}
use sigsum_lib_go.Prelude.{
  true, false, leb, ltb, some, List, [], ◌++◌, length, length-take, length-drop, take, drop,
  take-append-drop, length-take_le, get_elem?, reverse,
}
use sigsum_lib_go.Result.{ok, ◌>>=◌}
use sigsum_lib_go.Crypto.{Hash, Sha256}
use sigsum_lib_go.Merkle.Spec.{merkle_tree_hash}
use sigsum_lib_go.Merkle.RangeRoot.{range_of}
use sigsum_lib_go.Merkle.Climb.{sibling_path}
use sigsum_lib_go.Merkle.InclusionLaws.{verify_inclusion_complete, get_elem?-lt-length}
use sigsum_lib_go.Merkle.Tree.{Tree, size}
use sigsum_lib_go.Merkle.TreeLaws.{IsValid}
use sigsum_lib_go.Merkle.Verify.{verify_inclusion}
use sigsum_lib_go.Merkle.Prove.{Reuse, inclusion_reuse, inclusion, prove_inclusion}
use mathlib.Core.List.{reverse-reverse}

module _ (sha : Sha256) where
  prove_inclusion-sibling_path :
      (t : Tree) (index n : ℕ)
      → IsValid sha t
      → size t < 2 ^ 64
      → index < n
      → n ≤ size t
      → prove_inclusion sha t index n ≡ ok (sibling_path sha 64 (take n t.leaves) index)
  unfolding prove_inclusion inclusion
  prove_inclusion-sibling_path t index n v w k m =
      let leaves = take n t.leaves in
      let tail = drop n t.leaves in
      let nl = length-take n t.leaves in
      let nt = length-drop n t.leaves in
      let start : Reuse = record {
        leaves = leaves;
        m = index;
        c_range = reverse t.c_range;
        size = size t;
        path = [];
        complete = true;
      } in
      let whole : reverse t.c_range ≡ reverse (range_of sha 64 (leaves ++ tail)) =
        ap reverse v.range
        ∙ ap (λ l. reverse (range_of sha 64 l)) (sym (take-append-drop n t.leaves)) in
      let found : (inclusion_reuse (reverse t.c_range) start >>= finish sha)
          ≡ ok (reverse (sibling_path sha 64 leaves index)) =
        ap (λ cr. inclusion_reuse cr start >>= finish sha) whole
        ∙ reuse-sibling_path sha 64 start tail (omega arith) (omega (arith, nl, nt)) (omega arith)
            (omega arith) (omega (arith, nl)) in
      let inside : leb n index ≡ false = ground arith in
      let within : ltb (size t) n ≡ false = ground arith in
      rw (inside, within, found, reverse-reverse (sibling_path sha 64 leaves index))

  -- The inclusion proof that a valid tree with fewer than 2 ^ 64 leaves makes for a leaf at an index below
  -- a size of at most its own is accepted by VerifyInclusion, for the Merkle tree hash of the leaves up
  -- to that size.
  pub prove_inclusion-verify_inclusion :
      (t : Tree) (index n : ℕ) (leaf : Hash)
      → IsValid sha t
      → size t < 2 ^ 64
      → n ≤ size t
      → get_elem? (take n t.leaves) index ≡ some leaf
      → (path : List Hash) × (prove_inclusion sha t index n ≡ ok path)
        × (verify_inclusion sha leaf index n (merkle_tree_hash sha (take n t.leaves)) path ≡ ok tt)
  prove_inclusion-verify_inclusion t index n leaf v w m e =
      let leaves = take n t.leaves in
      let same : length leaves ≡ n = length-take_le n t.leaves m in
      let inside = get_elem?-lt-length leaves index leaf e in
      (
        sibling_path sha 64 leaves index,
        prove_inclusion-sibling_path t index n v w (omega arith) m,
        ap
              (λ (k : ℕ).
                verify_inclusion sha leaf index k (merkle_tree_hash sha leaves)
                  (sibling_path sha 64 leaves index))
              (sym same)
            ∙ verify_inclusion_complete sha leaves leaf index (omega arith) e,
      )
