-- ===== src/Merkle/Prove.antt =====
-- pkg/merkle/tree.go: inclusion and consistency proofs. The loops over `leaves` halve a slice of
-- at most 2^64 hashes, so they take 64 rounds at most.
use sigsum_lib_go.Prelude.{ℕ, zero, suc, ◌-◌, ◌^◌, Bool, true, false, ◌||◌}
use sigsum_lib_go.Prelude.{List, [], ◌∷◌, ◌++◌, length, take, drop, reverse}
use sigsum_lib_go.Prelude.{ltb, leb, ◌==◌, if◌then◌else◌}
use sigsum_lib_go.Prelude.Bits.{u64, len64}
use sigsum_lib_go.Result.{Result, ok, err, panic, errorf, ◌>>=◌}
use sigsum_lib_go.Crypto.{Hash, Sha256}
use sigsum_lib_go.Merkle.Range.{root_of}
use sigsum_lib_go.Merkle.Tree.{Tree, size}

-- The largest power of 2 smaller than `n`.
unfoldable pub split : ℕ → Result ℕ
split n = if ltb n 2 then panic else ok (u64 (2 ^ (len64 (n - 1) - 1)))

-- The state of the first loop of `inclusion` and of `consistency`. The range stands here with its
-- first element first.
pub record Reuse : Type 0 where
  pub leaves : List Hash
  pub m : ℕ
  pub c_range : List Hash
  pub size : ℕ
  pub path : List Hash
  pub complete : Bool

-- One round that takes the first element `h` off the range; `leaves[k:]` panics out of range.
abbrev pub reuse_step : Hash → List Hash → ℕ → Reuse → Result Reuse
reuse_step h rest k s =
    if ltb (length s.leaves) k
    then panic
    else ok (record {
      leaves = drop k s.leaves;
      m = s.m - k;
      c_range = rest;
      size = s.size - k;
      path = s.path ++ (h ∷ []);
      complete = false;
    })

-- The loop conditions of the two first loops; `next` is the rest of the loop.
unfoldable pub inclusion_reuse : List Hash → Reuse → Result Reuse
inclusion_reuse (h ∷ h' ∷ rest) s =
    let next = λ (s' : Reuse). inclusion_reuse (h' ∷ rest) s' in
    if leb (length s.leaves) 1
    then ok s
    else do k ← split s.size; if ltb s.m k then ok s else reuse_step h (h' ∷ rest) k s >>= next
inclusion_reuse _ s = ok s

unfoldable pub consistency_reuse : List Hash → Reuse → Result Reuse
consistency_reuse (h ∷ h' ∷ rest) s =
    let next = λ (s' : Reuse). consistency_reuse (h' ∷ rest) s' in
    if s.m == length s.leaves
    then ok s
    else do k ← split s.size; if leb s.m k then ok s else reuse_step h (h' ∷ rest) k s >>= next
consistency_reuse _ s = ok s

module _ (sha : Sha256) where
  unfoldable pub inclusion_loop : ℕ → List Hash → ℕ → List Hash → Result (List Hash)
  inclusion_loop zero leaves m p = ok p
  inclusion_loop (suc rounds) leaves m p =
      let next =
        λ (xs : List Hash) (i : ℕ) (h : Hash). inclusion_loop rounds xs i (p ++ (h ∷ [])) in
      if leb (length leaves) 1 then ok p else do
        k ← split (length leaves)
        if ltb m k
            then next (take k leaves) m (root_of sha (drop k leaves))
            else next (drop k leaves) (m - k) (root_of sha (take k leaves))

  unfoldable pub inclusion : List Hash → ℕ → List Hash → ℕ → Result (List Hash)
  inclusion leaves m c_range size = do
    s ← inclusion_reuse c_range (record {
      leaves = leaves;
      m = m;
      c_range = c_range;
      size = size;
      path = [];
      complete = true;
    })
    inclusion_loop 64 s.leaves s.m s.path

  -- `reverse` is reversePath; `t.c_range` is turned round since it stands last element first.
  unfoldable pub prove_inclusion : Tree → ℕ → ℕ → Result (List Hash)
  prove_inclusion t index n =
      if leb n index || ltb (size t) n
      then err (errorf "invalid argument index %d, size %d, tree %d")
      else do p ← inclusion (take n t.leaves) index (reverse t.c_range) (size t); ok (reverse p)

  -- 64 rounds reach a single leaf, where `m == n`; the round after that returns.
  unfoldable pub consistency_loop : ℕ → List Hash → ℕ → Bool → List Hash → Result (List Hash)
  consistency_loop zero leaves m complete p = panic
  consistency_loop (suc rounds) leaves m complete p =
      let next = λ (xs : List Hash) (i : ℕ) (c : Bool) (h : Hash).
        consistency_loop rounds xs i c (p ++ (h ∷ [])) in
      if ltb (length leaves) m
      then panic
      else if m == length leaves
      then (if complete then ok p else ok (p ++ (root_of sha leaves ∷ [])))
      else do
        k ← split (length leaves)
        if leb m k
            then next (take k leaves) m complete (root_of sha (drop k leaves))
            else next (drop k leaves) (m - k) false (root_of sha (take k leaves))

  unfoldable pub consistency : List Hash → ℕ → List Hash → ℕ → Result (List Hash)
  consistency leaves m c_range size = do
    s ← consistency_reuse c_range (record {
      leaves = leaves;
      m = m;
      c_range = c_range;
      size = size;
      path = [];
      complete = true;
    })
    consistency_loop 65 s.leaves s.m s.complete s.path

  unfoldable pub prove_consistency : Tree → ℕ → ℕ → Result (List Hash)
  prove_consistency t m n =
      if ltb (size t) n || ltb n m
      then err (errorf "invalid argument m %d, n %d, tree %d")
      else if m == 0 || m == n
      then ok []
      else do p ← consistency (take n t.leaves) m (reverse t.c_range) (size t); ok (reverse p)
