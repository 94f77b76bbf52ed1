-- ===== src/Monitor/Range.antt =====
-- What getLeaves has checked when it succeeds.
use sigsum_lib_go.Prelude.{
  ℕ, ◌+◌, ◌-◌, ◌^◌, ◌≤◌, ◌<◌, ◌≡◌, refl, ap, ◌∙◌, arith, inl, inr, Bool-cases, Option, none, some,
  List, [], ◌∷◌, map, length, leb, ◌==◌, ==_iff,
}
use sigsum_lib_go.Prelude.Bits.{u64}
use sigsum_lib_go.Result.{Result, ok, err, panic, >>=-ok}
use sigsum_lib_go.Crypto.{Hash, Sha256}
use sigsum_lib_go.Types.TreeHead.{TreeHead}
use sigsum_lib_go.Types.Leaf.{Leaf, to_hash}
use sigsum_lib_go.Types.Proof.{verify_inclusion_proof}
use sigsum_lib_go.Merkle.Batch.{verify_inclusion_batch, verify_inclusion_tail}
use sigsum_lib_go.Requests.LogRequests.{Leaves}
use sigsum_lib_go.Api.Interfaces.{Log}
use sigsum_lib_go.Monitor.Client.{
  GetLeavesState, Range, or_alert, new_alert, get_inclusion_proof_at_index, start_range, check_one,
  check_tail, check_batch, check_range, get_leaves, first_hash, last_hash,
}
use sigsum_lib_go.Result.{AlertType, alert_log_error}
use Prim.Native.String.{String}

pub or_alert-ok {ℓ} :
    {A : Type ℓ} (t : AlertType) (msg : String) (m : Result A) (a : A)
    → or_alert t msg m ≡ ok a
    → m ≡ ok a
unfolding new_alert
or_alert-ok t msg (ok b) a e = e
or_alert-ok t msg (err x) a e = absurd cc
or_alert-ok t msg panic a e = absurd cc

length-map : (f : Leaf → Hash) (leaves : List Leaf) → length (map f leaves) ≡ length leaves
length-map f [] = refl
length-map f (l ∷ leaves) = omega (arith, length-map f leaves)

module _ (sha : Sha256) where
  -- A range that VerifyInclusionBatch accepts ends inside the tree.
  verify_inclusion_batch-end :
      (leaves : List Hash) (fn size : ℕ) (root : Hash) (start_path end_path : List Hash)
      → verify_inclusion_batch sha leaves fn size root start_path end_path ≡ ok tt
      → u64 (fn + length leaves + 2 ^ 64 - 1) < size
  unfolding verify_inclusion_batch
  verify_inclusion_batch-end [] fn size root p q e = absurd cc
  verify_inclusion_batch-end (leaf ∷ leaves) fn size root p q e =
      elim (Bool-cases (leb size (u64 (fn + length (leaf ∷ leaves) + 2 ^ 64 - 1)))) [
        | inl out ↦ absurd (cc (rw (verify_inclusion_batch, out) at e))
        | inr inside ↦ ground arith
      ]

  -- The range starts at the request, or one before it when a leaf is cached.
  start_range-length :
      (log : Log) (state : Option GetLeavesState) (th : TreeHead) (start : ℕ) (leaves : List Leaf)
      (r : Range)
      → start < 2 ^ 64
      → start_range sha log state th start leaves ≡ ok r
      → u64 (r.start + length r.leaf_hashes) ≡ u64 (start + length leaves)
  unfolding start_range
  start_range-length log (some state) th start leaves r h e =
      elim (Bool-cases (u64 (state.proof.leaf_index + 1) == start)) [
        | inr differs ↦ absurd (cc (rw (start_range, differs) at e))
        | inl adjacent ↦
            let n = length-map (to_hash sha) leaves in
            let same : record {
              start = state.proof.leaf_index;
              proof = state.proof;
              leaf_hashes = state.leaf_hash ∷ map (to_hash sha) leaves;
            }
                ≡ r =
              cc (rw (start_range, adjacent) at e) in
            rw (← same)
              (omega (arith, n, (==_iff (u64 (state.proof.leaf_index + 1)) start).0 adjacent, h))
      ]
  start_range-length log none th start leaves r h e =
      let n = length-map (to_hash sha) leaves in
      let (first, _, e1) = >>=-ok (first_hash (map (to_hash sha) leaves)) _ r e in
      let (proof, _, e2) =
        >>=-ok
          (get_inclusion_proof_at_index log start (record { size = th.size; leaf_hash = first })) _
          r e1 in
      let same : record { start = start; proof = proof; leaf_hashes = map (to_hash sha) leaves }
          ≡ r =
        cc e2 in
      rw (← same, n) refl

  check_one-leaves :
      (th : TreeHead) (leaves got : List Leaf) (r : Range) (next : Option GetLeavesState)
      → check_one sha th got r ≡ ok (leaves, next)
      → got ≡ leaves
  unfolding check_one
  check_one-leaves th leaves got r next e =
      let (first, _, e1) = >>=-ok (first_hash r.leaf_hashes) _ (leaves, next) e in
      let (_, _, e2) =
        >>=-ok
          (or_alert alert_log_error "inclusion proof for leaf %d not valid"
            (verify_inclusion_proof sha r.proof first th))
          _ (leaves, next) e1 in
      cc e2

  check_tail-leaves :
      (th : TreeHead) (leaves got : List Leaf) (r : Range) (next : Option GetLeavesState)
      → check_tail sha th got r ≡ ok (leaves, next)
      → got ≡ leaves
  unfolding check_tail
  check_tail-leaves th leaves got r next e =
      let (_, _, e1) =
        >>=-ok
          (or_alert alert_log_error "inclusion proof not valid for tail range %d:%d: %v"
            (verify_inclusion_tail sha r.leaf_hashes r.start th.root_hash r.proof.path))
          _ (leaves, next) e in
      cc e1

  check_batch-leaves :
      (log : Log) (th : TreeHead) (end : ℕ) (leaves got : List Leaf) (r : Range)
      (next : Option GetLeavesState)
      → check_batch sha log th end got r ≡ ok (leaves, next)
      → (got ≡ leaves) × (u64 (r.start + length r.leaf_hashes + 2 ^ 64 - 1) < th.size)
  unfolding check_batch
  check_batch-leaves log th end leaves got r next e =
      let (last, _, e1) = >>=-ok (last_hash r.leaf_hashes) _ (leaves, next) e in
      let (p, _, e2) =
        >>=-ok
          (get_inclusion_proof_at_index log (u64 (end + (2 ^ 64 - 1)))
            (record { size = th.size; leaf_hash = last }))
          _ (leaves, next) e1 in
      let (_, valid, e3) =
        >>=-ok
          (or_alert alert_log_error "inclusion proof not valid for range %d:%d: %v" (
            verify_inclusion_batch sha r.leaf_hashes r.start th.size th.root_hash r.proof.path
              p.path))
          _ (leaves, next) e2 in
      (
        cc e3,
        verify_inclusion_batch-end r.leaf_hashes r.start th.size th.root_hash r.proof.path p.path (
            or_alert-ok alert_log_error "inclusion proof not valid for range %d:%d: %v" _ tt valid),
      )

  pub check_range-leaves :
      (log : Log) (th : TreeHead) (end : ℕ) (leaves got : List Leaf) (r : Range)
      (next : Option GetLeavesState)
      → check_range sha log th end got r ≡ ok (leaves, next)
      → got ≡ leaves
  unfolding check_range
  check_range-leaves log th end leaves got r next e = elim (Bool-cases (length got == 1)) [
    | inl one ↦ check_one-leaves th leaves got r next (rw (check_range, one) at e)
    | inr several ↦ elim (Bool-cases (end == th.size)) [
      | inl whole ↦ check_tail-leaves th leaves got r next (rw (check_range, several, whole) at e)
      | inr inner ↦
          (check_batch-leaves log th end leaves got r next
            (rw (check_range, several, inner) at e)).0
    ]
  ]

  check_range-end :
      (log : Log) (th : TreeHead) (start : ℕ) (leaves got : List Leaf) (r : Range)
      (next : Option GetLeavesState)
      → th.size < 2 ^ 64
      → start < th.size
      → u64 (r.start + length r.leaf_hashes) ≡ u64 (start + length got)
      → check_range sha log th (u64 (start + length got)) got r ≡ ok (leaves, next)
      → u64 (start + length leaves) ≤ th.size
  unfolding check_range
  check_range-end log th start leaves got r next h k n e = elim (Bool-cases (length got == 1)) [
    | inl one ↦
        let same = check_one-leaves th leaves got r next (rw (check_range, one) at e) in
        rw (← same) (omega (arith, (==_iff (length got) 1).0 one, k, h))
    | inr several ↦ elim (Bool-cases (u64 (start + length got) == th.size)) [
      | inl whole ↦
          let same =
            check_tail-leaves th leaves got r next (rw (check_range, several, whole) at e) in
          rw (← same) (omega (arith, (==_iff (u64 (start + length got)) th.size).0 whole))
      | inr inner ↦
          let (same, inside) =
            check_batch-leaves log th (u64 (start + length got)) leaves got r next
              (rw (check_range, several, inner) at e) in
          rw (← same) (omega (arith, n, inside, h))
    ]
  ]

  -- Whatever the log answers, the leaves that getLeaves returns end inside the tree.
  pub get_leaves-end :
      (log : Log) (state : Option GetLeavesState) (th : TreeHead) (req : Leaves)
      (leaves : List Leaf) (next : Option GetLeavesState)
      → th.size < 2 ^ 64
      → req.start_index < th.size
      → get_leaves sha log state th req ≡ ok (leaves, next)
      → u64 (req.start_index + length leaves) ≤ th.size
  unfolding get_leaves
  get_leaves-end log state th req leaves next h k e =
      let (got, _, e1) = >>=-ok (log.get_leaves req) _ (leaves, next) e in
      let (r, started, e2) =
        >>=-ok (start_range sha log state th req.start_index got) _ (leaves, next) e1 in
      check_range-end log th req.start_index leaves got r next h k
        (start_range-length log state th req.start_index got r (omega (arith, h, k)) started) e2

  -- The leaves are the ones that the log answered with.
  pub get_leaves-answer :
      (log : Log) (state : Option GetLeavesState) (th : TreeHead) (req : Leaves)
      (leaves : List Leaf) (next : Option GetLeavesState)
      → get_leaves sha log state th req ≡ ok (leaves, next)
      → log.get_leaves req ≡ ok leaves
  unfolding get_leaves
  get_leaves-answer log state th req leaves next e =
      let (got, answered, e1) = >>=-ok (log.get_leaves req) _ (leaves, next) e in
      let (r, _, e2) =
        >>=-ok (start_range sha log state th req.start_index got) _ (leaves, next) e1 in
      let same =
        check_range-leaves log th (u64 (req.start_index + length got)) leaves got r next e2 in
      answered ∙ ap ok same
