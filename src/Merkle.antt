-- ===== src/Merkle.antt =====
-- pkg/merkle: trees of leaf hashes, proofs about them, and their verification.
pub mod Node
pub mod Range
pub mod Tree
pub mod Prove
pub mod Verify
pub mod Batch
pub mod Spec
pub mod Levels
pub mod Xor
pub mod PathLength
pub mod Siblings
pub mod Climb
pub mod Inclusion
pub mod InclusionSound
pub mod InclusionLaws
pub mod Consistency
pub mod Trim
pub mod TreeLaws
pub mod Trimmed
pub mod ConsistencySound
pub mod ConsistencyTotal
pub mod RangeRoot
pub mod Halves
pub mod InclusionLoop
pub mod RangeHalves
pub mod ProveLaws
pub mod SplitLaws
pub mod InclusionReuse
pub mod TreeBuild
