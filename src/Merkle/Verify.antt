-- ===== src/Merkle/Verify.antt =====
-- pkg/merkle/verify.go: the verification of inclusion and consistency proofs. A uint64 is 0 after
-- 64 halvings, so 64 rounds run every loop to its end.
use Prim.Native.Nat.{bit_xor}
use sigsum_lib_go.Prelude.{ℕ, zero, suc, ◌+◌, ◌-◌, ◌/◌, ◌%◌, ◌^◌, Bool, not}
use sigsum_lib_go.Prelude.{List, [], ◌∷◌, length, ltb, leb, ◌==◌, if◌then◌else◌, eq_bytes}
use sigsum_lib_go.Prelude.Bits.{u64, len64, ones_count64, trailing_zeros64}
use sigsum_lib_go.Result.{Result, ok, err, panic, errorf, ◌>>=◌, ◌>>◌, require}
use sigsum_lib_go.Crypto.{Hash, Sha256}
use sigsum_lib_go.Merkle.Node.{hash_interior_node, hash_empty_tree}

-- (num & 1) != 0
abbrev pub is_odd : ℕ → Bool
is_odd num = num % 2 == 1

unfoldable pub path_length : ℕ → ℕ → ℕ
path_length index size =
    let k = len64 (bit_xor index (size - 1)) in k + ones_count64 (index / 2 ^ k)

-- The end of VerifyInclusion.
unfoldable pub check_root : Hash → Hash × List Hash → Result (Unit {0})
check_root root (r, []) = require (eq_bytes r root) (errorf "invalid proof: root mismatch")
check_root root (r, h ∷ path) = panic

-- The end of VerifyConsistency.
unfoldable pub check_roots : Hash → Hash → Hash × Hash × List Hash → Result (Unit {0})
check_roots old_root new_root (fr, sr, []) = do
  require (eq_bytes fr old_root) (errorf "invalid proof: old root mismatch")
  require (eq_bytes sr new_root) (errorf "invalid proof: new root mismatch")
check_roots old_root new_root (fr, sr, h ∷ path) = panic

-- The starting point: the old root, or the first element of the path.
unfoldable pub consistency_start : ℕ → Hash → List Hash → Result (Hash × List Hash)
consistency_start zero old_root path = ok (old_root, path)
consistency_start (suc fn) old_root [] = panic
consistency_start (suc fn) old_root (h ∷ path) = ok (h, path)

module _ (sha : Sha256) where
  -- One round at a level with a node on the path; `path[0]` panics if there is none.
  unfoldable pub inclusion_round : ℕ → ℕ → Hash → List Hash → Result (Hash × List Hash)
  inclusion_round fn sn r [] = if is_odd fn then panic else if ltb fn sn then panic else ok (r, [])
  inclusion_round fn sn r (h ∷ path) =
      if is_odd fn
      then ok (hash_interior_node sha h r, path)
      else if ltb fn sn
      then ok (hash_interior_node sha r h, path)
      else ok (r, h ∷ path)

  unfoldable pub verify_inclusion_loop : ℕ → ℕ → ℕ → Hash → List Hash → Result (Hash × List Hash)
  verify_inclusion_loop zero fn sn r path = ok (r, path)
  verify_inclusion_loop (suc rounds) fn sn r path =
      let next = λ (s : Hash × List Hash). verify_inclusion_loop rounds (fn / 2) (sn / 2) s.0 s.1 in
      if sn == 0 then ok (r, path) else (inclusion_round fn sn r path >>= next)

  unfoldable pub verify_inclusion : Hash → ℕ → ℕ → Hash → List Hash → Result (Unit {0})
  verify_inclusion leaf index size root path =
      if leb size index
      then err (errorf "proof input is malformed: index out of range")
      else if not (length path == path_length index size)
      then err (errorf "proof input is malformed: path length %d, should be %d")
      else (verify_inclusion_loop 64 index (size - 1) leaf path >>= check_root root)

  unfoldable pub consistency_round :
      ℕ → ℕ → Hash → Hash → List Hash → Result (Hash × Hash × List Hash)
  consistency_round fn sn fr sr [] =
      if is_odd fn then panic else if ltb fn sn then panic else ok (fr, sr, [])
  consistency_round fn sn fr sr (h ∷ path) =
      if is_odd fn
      then ok (hash_interior_node sha h fr, hash_interior_node sha h sr, path)
      else if ltb fn sn
      then ok (fr, hash_interior_node sha sr h, path)
      else ok (fr, sr, h ∷ path)

  unfoldable pub verify_consistency_loop :
      ℕ → ℕ → ℕ → Hash → Hash → List Hash → Result (Hash × Hash × List Hash)
  verify_consistency_loop zero fn sn fr sr path = ok (fr, sr, path)
  verify_consistency_loop (suc rounds) fn sn fr sr path =
      let next = λ (s : Hash × Hash × List Hash).
        verify_consistency_loop rounds (fn / 2) (sn / 2) s.0 s.1 s.2 in
      if sn == 0 then ok (fr, sr, path) else (consistency_round fn sn fr sr path >>= next)

  -- The climb from the starting point, and the comparison of the roots.
  unfoldable pub consistency_from : ℕ → ℕ → Hash → Hash → List Hash → Result (Unit {0})
  consistency_from fn sn old_root new_root path = do
    (fr, rest) ← consistency_start fn old_root path
    s ← verify_consistency_loop 64 fn sn fr fr rest
    check_roots old_root new_root s

  unfoldable pub verify_consistency : ℕ → ℕ → Hash → Hash → List Hash → Result (Unit {0})
  verify_consistency old_size new_size old_root new_root path =
      if old_size == new_size
      then (do
        require (length path == 0) (errorf "non-empty consistency path for trees of equal size")
        require (eq_bytes old_root new_root)
            (errorf "consistency check failed: same size, but roots differ"))
      else if old_size == 0
      then (do
        require (length path == 0) (errorf "non-empty consistency path for empty old tree")
        require (eq_bytes old_root (hash_empty_tree sha))
            (errorf "unexpected root hash for the empty tree"))
      else let trim_bits = trailing_zeros64 old_size in
        let fn = (old_size - 1) / 2 ^ trim_bits in
        let sn = u64 (new_size + 2 ^ 64 - 1) / 2 ^ trim_bits in
        let want_length = path_length fn (sn + 1) + (if ltb 0 fn then 1 else 0) in
        if not (length path == want_length)
        then err (errorf "proof input is malformed: path length %d, should be %d")
        else consistency_from fn sn old_root new_root path
