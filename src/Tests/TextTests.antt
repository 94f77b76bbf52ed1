-- ===== src/Tests/TextTests.antt =====
-- The theorems on text and binary forms.
use sigsum_lib_go.Prelude.{◌≡◌, refl, arith}
use sigsum_lib_go.Result.{ok}
use sigsum_lib_go.Crypto.{Bytes, zeros}
use sigsum_lib_go.Types.Leaf.{Leaf, to_binary, from_binary}
use sigsum_lib_go.Types.LeafLaws.{from_binary-to_binary}
use sigsum_lib_go.Types.TreeHead.{SignedTreeHead}
use sigsum_lib_go.Types.ParseTreeHead.{signed_tree_head_from_ascii}
use sigsum_lib_go.Types.WriteTreeHead.{signed_tree_head_to_ascii}
use sigsum_lib_go.Types.TreeHeadLaws.{
  IsSignedTreeHead, signed_tree_head_from_ascii-signed_tree_head_to_ascii,
}
use sigsum_lib_go.Tests.Samples.{hash_a, hash_b, zeros-IsByte}

abbrev leaf : Leaf
leaf = record { checksum = hash_a; signature = zeros 64; key_hash = hash_b }

from_binary-to_binary_example : from_binary (to_binary leaf) ≡ ok leaf
from_binary-to_binary_example =
    from_binary-to_binary leaf (record { checksum = refl; signature = refl; key_hash = refl })

abbrev signed : SignedTreeHead
signed = record { tree_head = record { size = 120; root_hash = hash_a }; signature = zeros 64 }

signed-IsSignedTreeHead : IsSignedTreeHead signed
signed-IsSignedTreeHead = record {
  size = omega arith;
  root_hash = refl;
  root_hash_bytes = (omega arith, zeros-IsByte 31);
  signature = refl;
  signature_bytes = zeros-IsByte 64;
}

signed_tree_head_from_ascii-signed_tree_head_to_ascii_example :
    (text : Bytes) × (signed_tree_head_to_ascii signed ≡ ok text)
    × (signed_tree_head_from_ascii text ≡ ok signed)
signed_tree_head_from_ascii-signed_tree_head_to_ascii_example =
    signed_tree_head_from_ascii-signed_tree_head_to_ascii signed signed-IsSignedTreeHead
