-- ===== src/Monitor/Single.antt =====
-- getLeaves when the log answers with exactly one leaf: without a cached state the leaf is checked, with
-- one it is not.
use sigsum_lib_go.Prelude.{
  ℕ, true, Option, ◌+◌, ◌^◌, ◌<◌, ◌≡◌, arith, inl, inr, ◌⊎◌, Bool-cases, some, none, List, [], ◌∷◌,
  length, All, get_elem?, ◌==◌, ==_iff,
}
use sigsum_lib_go.Prelude.Bits.{u64}
use sigsum_lib_go.Result.{ok, >>=-ok, alert_log_error}
use sigsum_lib_go.Crypto.{Hash, Sha256, Collision, IsHash}
use sigsum_lib_go.Types.TreeHead.{TreeHead}
use sigsum_lib_go.Types.Leaf.{Leaf, to_hash}
use sigsum_lib_go.Types.Proof.{InclusionProof, verify_inclusion_proof}
use sigsum_lib_go.Types.LeafLaws.{to_hash-IsHash}
use sigsum_lib_go.Merkle.Spec.{merkle_tree_hash}
use sigsum_lib_go.Merkle.InclusionLaws.{verify_inclusion_sound}
use sigsum_lib_go.Requests.LogRequests.{Leaves}
use sigsum_lib_go.Requests.LogRequests as Requests
use sigsum_lib_go.Api.Interfaces.{Log}
use sigsum_lib_go.Merkle.Verify.{verify_inclusion}
use sigsum_lib_go.Monitor.Range.{or_alert-ok, check_range-leaves}
use sigsum_lib_go.Monitor.Client.{
  GetLeavesState, Range, or_alert, get_inclusion_proof_at_index, start_range, check_one,
  check_range, get_leaves,
}

-- The paths that the log answers with are arrays of 32 bytes.
abbrev pub HashPaths : Log → Type 0
HashPaths log =
    (req : Requests.InclusionProof) (p : InclusionProof)
    → log.get_inclusion_proof req ≡ ok p
    → All IsHash p.path

get_inclusion_proof_at_index-ok :
    (log : Log) (index : ℕ) (req : Requests.InclusionProof) (p : InclusionProof)
    → get_inclusion_proof_at_index log index req ≡ ok p
    → (log.get_inclusion_proof req ≡ ok p) × (p.leaf_index ≡ index)
unfolding get_inclusion_proof_at_index
get_inclusion_proof_at_index-ok log index req p e =
    let (q, got, e1) =
      >>=-ok
        (or_alert alert_log_error "get-inclusion-proof failed: %v" (log.get_inclusion_proof req)) _
        p e in
    elim (Bool-cases (q.leaf_index == index)) [
      | inr other ↦ absurd (cc (rw other at e1))
      | inl same ↦
          let pq : q ≡ p = cc (rw same at e1) in
          (
            rw (← pq) (or_alert-ok alert_log_error "get-inclusion-proof failed: %v" _ q got),
            rw (← pq) ((==_iff q.leaf_index index).0 same),
          )
    ]

module _ (sha : Sha256) where
  -- With a cached state of an included leaf that stands right before the start of the request, getLeaves
  -- returns whatever single leaf the log answers with, and keeps the cached state: it verifies the
  -- cached leaf hash again instead of the new one.
  pub get_leaves-cached_one :
      (log : Log) (state : GetLeavesState) (th : TreeHead) (req : Leaves) (leaf : Leaf)
      → u64 (state.proof.leaf_index + 1) ≡ req.start_index
      → verify_inclusion_proof sha state.proof state.leaf_hash th ≡ ok tt
      → log.get_leaves req ≡ ok (leaf ∷ [])
      → get_leaves sha log (some state) th req ≡ ok (leaf ∷ [], some state)
  unfolding get_leaves start_range check_range check_one
  get_leaves-cached_one log state th req leaf adjacent valid answer =
      let same : (u64 (state.proof.leaf_index + 1) == req.start_index) ≡ true = ground arith in
      rw (get_leaves, answer, start_range, same, check_range, check_one, valid)

  included_one :
      (th : TreeHead) (start : ℕ) (leaf : Leaf) (tree : List Hash) (p : InclusionProof)
      → All IsHash p.path
      → p.leaf_index ≡ start
      → length tree < 2 ^ 64
      → All IsHash tree
      → th.size ≡ length tree
      → th.root_hash ≡ merkle_tree_hash sha tree
      → verify_inclusion_proof sha p (to_hash sha leaf) th ≡ ok tt
      → (get_elem? tree start ≡ some (to_hash sha leaf)) ⊎ Collision sha
  unfolding verify_inclusion_proof
  included_one th start leaf tree p hp index n hl size root valid =
      let accepted : verify_inclusion sha (to_hash sha leaf) start (length tree)
            (merkle_tree_hash sha tree) p.path
          ≡ ok tt =
        rw (← size, ← root, ← index) valid in
      elim (verify_inclusion_sound sha tree (to_hash sha leaf) start p.path n hl
        (to_hash-IsHash sha leaf) hp accepted) [ inl (stands, _) ↦ inl stands | inr c ↦ inr c ]

  started_one :
      (log : Log) (th : TreeHead) (start : ℕ) (leaf : Leaf) (tree : List Hash) (r : Range)
      (next : Option GetLeavesState)
      → HashPaths log
      → length tree < 2 ^ 64
      → All IsHash tree
      → th.size ≡ length tree
      → th.root_hash ≡ merkle_tree_hash sha tree
      → start_range sha log none th start (leaf ∷ []) ≡ ok r
      → check_one sha th (leaf ∷ []) r ≡ ok (leaf ∷ [], next)
      → (get_elem? tree start ≡ some (to_hash sha leaf)) ⊎ Collision sha
  unfolding start_range check_one verify_inclusion_proof
  started_one log th start leaf tree r next paths n hl size root started checked =
      let (p, got, e) =
        >>=-ok
          (get_inclusion_proof_at_index log start
            (record { size = th.size; leaf_hash = to_hash sha leaf }))
          _ r started in
      let same : record { start = start; proof = p; leaf_hashes = to_hash sha leaf ∷ [] } ≡ r =
        cc e in
      let (answered, index) = get_inclusion_proof_at_index-ok log start _ p got in
      let (_, valid, _) =
        >>=-ok
          (or_alert alert_log_error "inclusion proof for leaf %d not valid"
            (verify_inclusion_proof sha p (to_hash sha leaf) th))
          _ (leaf ∷ [], next) (rw (← same) at checked) in
      included_one th start leaf tree p (paths _ p answered) index n hl size root
        (or_alert-ok alert_log_error "inclusion proof for leaf %d not valid" _ tt valid)

  -- A leaf that getLeaves returns alone and without a cached state stands in the tree at the start of
  -- the request, if the tree head is the one of some leaf hashes, or two byte strings with one
  -- SHA-256 hash are at hand. The size is a uint64 and hashes are 32 bytes long.
  pub get_leaves-one_sound :
      (log : Log) (th : TreeHead) (req : Leaves) (leaf : Leaf) (tree : List Hash)
      (next : Option GetLeavesState)
      → HashPaths log
      → length tree < 2 ^ 64
      → All IsHash tree
      → th.size ≡ length tree
      → th.root_hash ≡ merkle_tree_hash sha tree
      → get_leaves sha log none th req ≡ ok (leaf ∷ [], next)
      → (get_elem? tree req.start_index ≡ some (to_hash sha leaf)) ⊎ Collision sha
  unfolding get_leaves start_range check_range check_one
  get_leaves-one_sound log th req leaf tree next paths n hl size root e =
      let (got, _, e1) = >>=-ok (log.get_leaves req) _ (leaf ∷ [], next) e in
      let (r, started, e2) =
        >>=-ok (start_range sha log none th req.start_index got) _ (leaf ∷ [], next) e1 in
      let only : got ≡ leaf ∷ [] =
        check_range-leaves sha log th (u64 (req.start_index + length got)) (leaf ∷ []) got r next
          e2 in
      started_one log th req.start_index leaf tree r next paths n hl size root (rw only at started)
        (rw (only, check_range) at e2)
