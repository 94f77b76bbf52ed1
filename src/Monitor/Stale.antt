-- ===== src/Monitor/Stale.antt =====
-- A cached state that getLeaves did not move, in the inner loop of MonitorLog.
use sigsum_lib_go.Prelude.{
  Option, ◌+◌, ◌^◌, ◌<◌, ◌≡◌, ◌≢◌, true, false, arith, some, List, [], ◌∷◌, ltb, ◌==◌,
}
use sigsum_lib_go.Prelude.Bits.{u64}
use sigsum_lib_go.Result.{ok, panic}
use sigsum_lib_go.Crypto.{Sha256, Verifier}
use sigsum_lib_go.Types.Leaf.{Leaf}
use sigsum_lib_go.Types.Proof.{verify_inclusion_proof}
use sigsum_lib_go.Api.Interfaces.{Log}
use sigsum_lib_go.Monitor.Client.{GetLeavesState, start_range, get_leaves}
use sigsum_lib_go.Monitor.Single.{get_leaves-cached_one}
use sigsum_lib_go.Monitor.Loop.{MonitorState, Config, looping, fetch, and_then, fetch_loop}
use sigsum_lib_go.Monitor.Fetch.{request_of}

module _ (sha : Sha256) (verify : Verifier) (config : Config) where
  abbrev after_one : MonitorState → MonitorState
  after_one s = record s { next_leaf_index = u64 (s.next_leaf_index + 1) }

  get_leaves-stale-panic :
      (log : Log) (s : MonitorState) (gl : GetLeavesState) (leaves : List Leaf)
      → u64 (gl.proof.leaf_index + 1) ≢ s.next_leaf_index
      → log.get_leaves (request_of sha verify config s) ≡ ok leaves
      → get_leaves sha log (some gl) s.tree_head (request_of sha verify config s) ≡ panic
  unfolding get_leaves start_range
  get_leaves-stale-panic log s gl leaves differs answer =
      let other : (u64 (gl.proof.leaf_index + 1) == s.next_leaf_index) ≡ false = ground arith in
      rw (get_leaves, answer, start_range, other)

  loop_panic :
      (log : Log) (logs : List Log) (s : MonitorState) (gl : Option GetLeavesState)
      → s.next_leaf_index < s.tree_head.size
      → get_leaves sha log gl s.tree_head (request_of sha verify config s) ≡ panic
      → fetch_loop sha verify config (log ∷ logs) (looping s gl) ≡ panic
  unfolding fetch_loop fetch and_then
  loop_panic log logs s gl h e =
      let inside : ltb s.next_leaf_index s.tree_head.size ≡ true = ground arith in
      rw (fetch_loop, inside, fetch, e)

  loop_step :
      (log : Log) (logs : List Log) (s : MonitorState) (gl gl' : Option GetLeavesState)
      (leaf : Leaf)
      → s.next_leaf_index < s.tree_head.size
      → get_leaves sha log gl s.tree_head (request_of sha verify config s) ≡ ok (leaf ∷ [], gl')
      → fetch_loop sha verify config logs (looping (after_one s) gl') ≡ panic
      → fetch_loop sha verify config (log ∷ logs) (looping s gl) ≡ panic
  unfolding fetch_loop fetch and_then
  loop_step log logs s gl gl' leaf h e later =
      let inside : ltb s.next_leaf_index s.tree_head.size ≡ true = ground arith in
      rw (fetch_loop, inside, fetch, e, and_then, later)

  -- In the inner loop with a cached state of an included leaf, a log that answers with one leaf, and then
  -- with any leaves to the next request, makes the monitor panic, unless that one leaf was the
  -- last of the tree.
  pub fetch_loop-stale-panic :
      (log log' : Log) (logs : List Log) (s : MonitorState) (gl : GetLeavesState) (leaf : Leaf)
      (leaves : List Leaf)
      → s.next_leaf_index + 1 < s.tree_head.size
      → s.tree_head.size < 2 ^ 64
      → u64 (gl.proof.leaf_index + 1) ≡ s.next_leaf_index
      → verify_inclusion_proof sha gl.proof gl.leaf_hash s.tree_head ≡ ok tt
      → log.get_leaves (request_of sha verify config s) ≡ ok (leaf ∷ [])
      → log'.get_leaves (request_of sha verify config (after_one s)) ≡ ok leaves
      → fetch_loop sha verify config (log ∷ log' ∷ logs) (looping s (some gl)) ≡ panic
  fetch_loop-stale-panic log log' logs s gl leaf leaves more h adjacent valid one next =
      let first =
        get_leaves-cached_one sha log gl s.tree_head (request_of sha verify config s) leaf adjacent
          valid one in
      let second =
        get_leaves-stale-panic log' (after_one s) gl leaves
          (λ same. omega (arith, same, adjacent, h, more)) next in
      loop_step log (log' ∷ logs) s (some gl) (some gl) leaf (omega (arith, more)) first
        (loop_panic log' logs (after_one s) (some gl) (omega (arith, more, h)) second)
