-- ===== src/Types/LeafLaws.antt =====
-- The binary form of a leaf.
use sigsum_lib_go.Prelude.{
  ℕ, append_assoc, ◌≡◌, ap, sym, ◌∙◌, arith, ◌++◌, length, take, drop, take-append, drop-append,
  length-append, ◌==◌, true,
}
use sigsum_lib_go.Result.{ok}
use sigsum_lib_go.Crypto.{Bytes, IsHash, Sha256, hash_bytes, signature_size}
use sigsum_lib_go.Merkle.Node.{hash_leaf_node}
use sigsum_lib_go.Types.Leaf.{Leaf, to_binary, to_hash, from_binary}

-- The sizes of the byte arrays of a leaf.
pub record IsLeaf (l : Leaf) : Type 0 where
  pub checksum : IsHash l.checksum
  pub signature : length l.signature ≡ signature_size
  pub key_hash : IsHash l.key_hash

take_front : (n : ℕ) (xs ys : Bytes) → length xs ≡ n → take n (xs ++ ys) ≡ xs
take_front n xs ys e = rw (← e) (take-append xs ys)

drop_front : (n : ℕ) (xs ys : Bytes) → length xs ≡ n → drop n (xs ++ ys) ≡ ys
drop_front n xs ys e = rw (← e) (drop-append xs ys)

-- FromBinary reads back the leaf that ToBinary wrote, for fields of their sizes.
pub from_binary-to_binary : (l : Leaf) → IsLeaf l → from_binary (to_binary l) ≡ ok l
unfolding from_binary to_binary
from_binary-to_binary l v =
    let size : (length (l.checksum ++ (l.signature ++ l.key_hash)) == 128) ≡ true = ground (
      arith,
      length-append l.checksum (l.signature ++ l.key_hash),
      length-append l.signature l.key_hash,
      v.checksum,
      v.signature,
      v.key_hash,
    ) in
    let tail : drop 96 (l.checksum ++ (l.signature ++ l.key_hash)) ≡ l.key_hash =
      ap (drop 96) (sym (append_assoc l.checksum l.signature l.key_hash))
      ∙ drop_front 96 (l.checksum ++ l.signature) l.key_hash
          (omega (arith, length-append l.checksum l.signature, v.checksum, v.signature)) in
    rw (
      size,
      take_front 32 l.checksum (l.signature ++ l.key_hash) v.checksum,
      drop_front 32 l.checksum (l.signature ++ l.key_hash) v.checksum,
      take_front 64 l.signature l.key_hash v.signature,
      tail,
    )

pub to_hash-IsHash : (sha : Sha256) (leaf : Leaf) → IsHash (to_hash sha leaf)
unfolding to_hash hash_leaf_node hash_bytes
to_hash-IsHash sha leaf = sha.length-sum256 _
