-- ===== src/Merkle/Batch.antt =====
-- pkg/merkle/verify.go: the verification that a sequence of leaves is in a tree.
use Prim.Native.Nat.{bit_xor, bit_and}
use sigsum_lib_go.Prelude.{ℕ, zero, suc, ◌+◌, ◌-◌, ◌/◌, ◌^◌, Bool, true, false, not, ◌&&◌}
use sigsum_lib_go.Prelude.{
  List, [], ◌∷◌, length, take, drop, ltb, leb, ◌==◌, if◌then◌else◌, eq_bytes,
}
use sigsum_lib_go.Prelude.Bits.{u64, len64}
use sigsum_lib_go.Result.{Result, ok, err, panic, errorf, ◌>>=◌, ◌>>◌, require}
use sigsum_lib_go.Crypto.{Hash, Sha256}
use sigsum_lib_go.Merkle.Node.{hash_interior_node}
use sigsum_lib_go.Merkle.Range.{CompactRange, new_compact_range, make_left_range, root_of}
use sigsum_lib_go.Merkle.Verify.{is_odd, path_length, verify_inclusion}

-- slices.Equal on hashes
unfoldable pub eq_hashes : List Hash → List Hash → Bool
eq_hashes [] [] = true
eq_hashes (a ∷ as') (b ∷ bs) = eq_bytes a b && eq_hashes as' bs
eq_hashes _ _ = false

-- The first or the last element of a non-empty slice, with the others; an index out of range panics.
abbrev pub pop : List Hash → Result (Hash × List Hash)
pop [] = panic
pop (h ∷ hs) = ok (h, hs)

unfoldable pub pop_last : List Hash → Result (Hash × List Hash)
pop_last [] = panic
pop_last (h ∷ []) = ok (h, [])
pop_last (h ∷ hs) = pop_last hs >>= λ s. ok (s.0, h ∷ s.1)

abbrev pub inconsistent_range : Result (Hash × CompactRange)
inconsistent_range = err (errorf "unexpected path, inconsistent with leaf range")

abbrev pub no_range_left : Hash × CompactRange → Result Hash
no_range_left (r, []) = ok r
no_range_left (r, h ∷ rest) = panic

-- The variables of the second loop of VerifyInclusionBatch.
pub record RightState : Type 0 where
  pub en : ℕ
  pub sn : ℕ
  pub er : Hash
  pub right_range : CompactRange
  pub end_path : List Hash

-- n > (1 << k): the shift is of an int of 64 bits, so that it is negative for 63 and 0 from 64 on.
abbrev pub exceeds_shift : ℕ → ℕ → Bool
exceeds_shift n k = if ltb k 63 then ltb (2 ^ k) n else if k == 63 then true else ltb 0 n

module _ (sha : Sha256) where
  unfoldable pub inclusion_left_loop :
      ℕ → Hash → CompactRange → List Hash → Result (Hash × CompactRange)
  inclusion_left_loop fn r c_range [] = ok (r, c_range)
  inclusion_left_loop fn r c_range (s ∷ path) =
      let left = inclusion_left_loop (fn / 2) (hash_interior_node sha s r) c_range path in
      let right = λ (rest : CompactRange).
        inclusion_left_loop (fn / 2) (hash_interior_node sha r s) rest path in
      if is_odd fn
      then left
      else do (last, rest) ← pop c_range; if eq_bytes s last then right rest else inconsistent_range

  unfoldable pub verify_inclusion_left : List Hash → List Hash → Result Hash
  verify_inclusion_left leaves path =
      if exceeds_shift (length leaves) (length path) then panic else do
        (r, rest) ← pop leaves
        let fn = u64 (2 ^ length path) + 2 ^ 64 - length leaves
        s ← inclusion_left_loop (u64 fn) r (make_left_range sha rest) path
        no_range_left s

  unfoldable pub batch_right_round : RightState → Result RightState
  batch_right_round s =
      if is_odd s.en
      then (do
        (h, rest) ← pop s.right_range
        (p, path) ← pop s.end_path
        if not (eq_bytes h p)
            then err (errorf "unexpected path, inconsistent with leaf range")
            else ok (record {
              en = s.en / 2;
              sn = s.sn / 2;
              er = hash_interior_node sha h s.er;
              right_range = rest;
              end_path = path;
            }))
      else if ltb s.en s.sn
      then (do
        (p, path) ← pop s.end_path
        ok (record s {
          en = s.en / 2;
          sn = s.sn / 2;
          er = hash_interior_node sha s.er p;
          end_path = path;
        }))
      else ok (record s { en = s.en / 2; sn = s.sn / 2 })

  unfoldable pub batch_right_loop : ℕ → RightState → Result RightState
  batch_right_loop zero s = ok s
  batch_right_loop (suc k) s =
      let next = λ (s' : RightState). batch_right_loop k s' in batch_right_round s >>= next

  -- From the merge of the two paths on.
  unfoldable pub batch_merge : ℕ → ℕ → Hash → List Hash → Hash → RightState → Result (Unit {0})
  batch_merge k fn root start_path fr s = if ltb 0 (length s.right_range) then panic else do
    (p, start_rest) ← pop (drop k start_path)
    (q, end_rest) ← if eq_bytes p s.er then pop s.end_path else ok (fr, [])
    require (eq_bytes p s.er && eq_bytes q fr) (errorf "start and end trees not consistent")
    require (eq_hashes start_rest end_rest) (errorf "proof invalid, inconsistent paths")
    verify_inclusion sha (hash_interior_node sha fr s.er) (fn / 2 ^ (k + 1)) (u64 (s.sn / 2 + 1))
        root start_rest

  unfoldable pub verify_inclusion_batch :
      List Hash → ℕ → ℕ → Hash → List Hash → List Hash → Result (Unit {0})
  verify_inclusion_batch [] fn size root start_path end_path =
      err (errorf "range must be non-empty")
  verify_inclusion_batch (leaf ∷ leaves) fn size root start_path end_path =
      let n = length (leaf ∷ leaves) in
      let en = u64 (fn + n + 2 ^ 64 - 1) in
      let k = len64 (bit_xor fn en) - 1 in
      let split = bit_and en (2 ^ 64 - 2 ^ k) in
      if leb size en
      then err (errorf "end of range exceeds tree size")
      else if n == 1
      then (do
        require (eq_hashes start_path end_path) (errorf "proof invalid, inconsistent paths")
        verify_inclusion sha leaf fn size root start_path)
      else do
        require (length start_path == path_length fn size)
            (errorf "proof invalid, wrong inclusion path length for first node")
        require (length end_path == path_length en size)
            (errorf "proof invalid, wrong inclusion path length for last node")
        fr ← verify_inclusion_left (take (split - fn) (leaf ∷ leaves)) (take k start_path)
        (er, middle) ← pop_last (drop (split - fn) (leaf ∷ leaves))
        s ← batch_right_loop k (record {
          en = en;
          sn = size - 1;
          er = er;
          right_range = new_compact_range sha middle;
          end_path = end_path;
        })
        batch_merge k fn root start_path fr s

  unfoldable pub verify_inclusion_tail : List Hash → ℕ → Hash → List Hash → Result (Unit {0})
  verify_inclusion_tail [] fn root path = err (errorf "range must be non-empty")
  verify_inclusion_tail (leaf ∷ leaves) fn root path =
      let n = length (leaf ∷ leaves) in
      let sn = u64 (fn + n + 2 ^ 64 - 1) in
      let k = len64 (bit_xor fn sn) - 1 in
      let split = bit_and sn (2 ^ 64 - 2 ^ k) in
      if n == 1 then verify_inclusion sha leaf fn (u64 (fn + 1)) root path else do
        require (length path == path_length fn (u64 (sn + 1)))
            (errorf "proof input is malformed: path length %d, should be %d")
        fr ← verify_inclusion_left (take (split - fn) (leaf ∷ leaves)) (take k path)
        let er = root_of sha (drop (split - fn) (leaf ∷ leaves))
        (p, rest) ← pop (drop k path)
        require (eq_bytes er p) (errorf "unexpected path, inconsistent with leaf range")
        verify_inclusion sha (hash_interior_node sha fr er) (fn / 2 ^ (k + 1))
            (u64 (sn / 2 ^ (k + 1) + 1)) root rest
