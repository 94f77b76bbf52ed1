-- ===== src/Monitor/Client.antt =====
-- pkg/monitor/client.go and alert.go: the client that checks what a log answers.
use Prim.Native.String.{String}
use sigsum_lib_go.Prelude.{
  ℕ, ◌+◌, ◌-◌, ◌^◌, Option, none, some, List, [], ◌∷◌, map, length, ltb, ◌==◌, not, if◌then◌else◌,
}
use sigsum_lib_go.Prelude.Bits.{u64}
use sigsum_lib_go.Result.{
  Result, Error, AlertType, alert, alert_other, alert_log_error, alert_invalid_log_signature,
  alert_inconsistent_tree_head, ok, err, panic, errorf, ◌>>=◌, ◌>>◌,
}
use sigsum_lib_go.Crypto.{Hash, PublicKey, Sha256, Verifier}
use sigsum_lib_go.Types.TreeHead.{
  TreeHead, SignedTreeHead, CosignedTreeHead, verify_signed_tree_head,
}
use sigsum_lib_go.Types.Leaf.{Leaf, to_hash}
use sigsum_lib_go.Types.Proof.{InclusionProof, verify_inclusion_proof, verify_consistency_proof}
use sigsum_lib_go.Merkle.Batch.{verify_inclusion_batch, verify_inclusion_tail}
use sigsum_lib_go.Requests.LogRequests as Requests
use sigsum_lib_go.Api.Interfaces.{Log}

abbrev pub alert_type_string : AlertType → String
alert_type_string alert_other = "Other"
alert_type_string alert_log_error = "Log not responding as expected"
alert_type_string alert_invalid_log_signature = "Invalid log signature"
alert_type_string alert_inconsistent_tree_head = "Log tree head not consistent"

unfoldable pub new_alert : AlertType → String → Error
new_alert t msg = alert t (errorf msg)

-- An error of `m` becomes an alert.
abbrev pub or_alert {ℓ} : {A : Type ℓ} → AlertType → String → Result A → Result A
or_alert t msg (ok a) = ok a
or_alert t msg (err e) = err (new_alert t msg)
or_alert t msg panic = panic

-- getLeavesState: the last leaf hash of the range before, and its inclusion proof.
pub record GetLeavesState : Type 0 where
  pub leaf_hash : Hash
  pub proof : InclusionProof

-- The variables of getLeaves after the first proof.
pub record Range : Type 0 where
  pub start : ℕ
  pub proof : InclusionProof
  pub leaf_hashes : List Hash

-- leafHashes[0] and leafHashes[len(leafHashes)-1]; an index out of range panics.
abbrev pub first_hash : List Hash → Result Hash
first_hash [] = panic
first_hash (h ∷ hs) = ok h

unfoldable pub last_hash : List Hash → Result Hash
last_hash [] = panic
last_hash (h ∷ []) = ok h
last_hash (h ∷ hs) = last_hash hs

unfoldable pub get_inclusion_proof_at_index :
    Log → ℕ → Requests.InclusionProof → Result InclusionProof
get_inclusion_proof_at_index log index req = do
  proof ← or_alert alert_log_error "get-inclusion-proof failed: %v" (log.get_inclusion_proof req)
  if not (proof.leaf_index == index)
      then err (new_alert alert_log_error "unexpected get-inclusion-proof index, got %d, want %d")
      else ok proof

module _ (sha : Sha256) (verify : Verifier) where
  -- The checks of getTreeHead on the tree head that the log answered with.
  unfoldable pub check_tree_head :
      Log → PublicKey → TreeHead → CosignedTreeHead → Result SignedTreeHead
  check_tree_head log log_key old cth =
      if not (verify_signed_tree_head sha verify cth.signed_tree_head log_key)
      then err (new_alert alert_invalid_log_signature "log signature invalid")
      else if ltb cth.size old.size
      then err (
          new_alert alert_inconsistent_tree_head
            "monitored log has shrunk, size %d, previous size %d")
      else (do
        proof ←
            or_alert alert_log_error "get-consistency-proof failed: %v"
              (log.get_consistency_proof (record { old_size = old.size; new_size = cth.size }))
        or_alert alert_inconsistent_tree_head "consistency proof not valid: %v"
            (verify_consistency_proof sha proof old cth.tree_head)
        ok cth.signed_tree_head)

  unfoldable pub get_tree_head : Log → PublicKey → TreeHead → Result SignedTreeHead
  get_tree_head log log_key old = do
    cth ← or_alert alert_log_error "get-tree-head failed: %v" log.get_tree_head
    check_tree_head log log_key old cth

module _ (sha : Sha256) where
  -- The first half of getLeaves: the hashes and the proof to start from.
  unfoldable pub start_range : Log → Option GetLeavesState → TreeHead → ℕ → List Leaf → Result Range
  start_range log (some state) th start_index leaves =
      if not (u64 (state.proof.leaf_index + 1) == start_index)
      then panic
      else ok (record {
        start = state.proof.leaf_index;
        proof = state.proof;
        leaf_hashes = state.leaf_hash ∷ map (to_hash sha) leaves;
      })
  start_range log none th start_index leaves = do
    first ← first_hash (map (to_hash sha) leaves)
    proof ←
        get_inclusion_proof_at_index log start_index (record { size = th.size; leaf_hash = first })
    ok (record { start = start_index; proof = proof; leaf_hashes = map (to_hash sha) leaves })

  -- The second half, by the number of leaves and the end of the range.
  unfoldable pub check_one :
      TreeHead → List Leaf → Range → Result (List Leaf × Option GetLeavesState)
  check_one th leaves r = do
    first ← first_hash r.leaf_hashes
    or_alert alert_log_error "inclusion proof for leaf %d not valid"
        (verify_inclusion_proof sha r.proof first th)
    ok (leaves, some (record { leaf_hash = first; proof = r.proof }))

  unfoldable pub check_tail :
      TreeHead → List Leaf → Range → Result (List Leaf × Option GetLeavesState)
  check_tail th leaves r = do
    or_alert alert_log_error "inclusion proof not valid for tail range %d:%d: %v"
        (verify_inclusion_tail sha r.leaf_hashes r.start th.root_hash r.proof.path)
    ok (leaves, none)

  unfoldable pub check_batch :
      Log → TreeHead → ℕ → List Leaf → Range → Result (List Leaf × Option GetLeavesState)
  check_batch log th end leaves r = do
    last ← last_hash r.leaf_hashes
    end_proof ←
        get_inclusion_proof_at_index log (u64 (end + (2 ^ 64 - 1)))
          (record { size = th.size; leaf_hash = last })
    or_alert alert_log_error "inclusion proof not valid for range %d:%d: %v" (
        verify_inclusion_batch sha r.leaf_hashes r.start th.size th.root_hash r.proof.path
          end_proof.path)
    ok (leaves, some (record { leaf_hash = last; proof = end_proof }))

  unfoldable pub check_range :
      Log → TreeHead → ℕ → List Leaf → Range → Result (List Leaf × Option GetLeavesState)
  check_range log th end leaves r =
      if length leaves == 1
      then check_one th leaves r
      else if end == th.size
      then check_tail th leaves r
      else check_batch log th end leaves r

  unfoldable pub get_leaves :
      Log
      → Option GetLeavesState
      → TreeHead
      → Requests.Leaves
      → Result (List Leaf × Option GetLeavesState)
  get_leaves log state th req = do
    leaves ← log.get_leaves req
    r ← start_range log state th req.start_index leaves
    check_range log th (u64 (req.start_index + length leaves)) leaves r
