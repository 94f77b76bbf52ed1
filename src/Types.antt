-- ===== src/Types.antt =====
-- pkg/types: tree heads, leaves and proofs.
pub mod TreeHead
pub mod ParseTreeHead
pub mod WriteTreeHead
pub mod Leaf
pub mod LeafLaws
pub mod TreeHeadLaws
pub mod Version0
pub mod ParseLeaf
pub mod WriteLeaf
pub mod Proof
pub mod Growth
pub mod ParseProof
pub mod WriteProof
pub mod CosignedLaws
pub mod CosignatureLaws
