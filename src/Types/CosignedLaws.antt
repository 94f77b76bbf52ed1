-- ===== src/Types/CosignedLaws.antt =====
-- The text of a tree head with one cosignature, which is what a witness stores.
use sigsum_lib_go.Types.CosignatureLaws.{
  IsCosignature, line, cosignature_to_ascii-line, parse_cosignatures-line,
}
use sigsum_lib_go.Prelude.{◌≡◌, ap, [], ◌∷◌, ◌++◌}
use sigsum_lib_go.Result.{ok}
use sigsum_lib_go.Crypto.{Bytes, Hash}
use sigsum_lib_go.Types.TreeHead.{SignedTreeHead, Cosignature, CosignedTreeHead}
use sigsum_lib_go.Types.ParseTreeHead.{parse_cosigned_tree_head, cosigned_tree_head_from_ascii}
use sigsum_lib_go.Types.WriteTreeHead.{cosignatures_to_ascii, cosigned_tree_head_to_ascii}
use sigsum_lib_go.Types.TreeHeadLaws.{
  IsSignedTreeHead, text_before, text_of-append, parse-text_before,
  signed_tree_head_to_ascii-text_of,
}

abbrev pub cosigned : SignedTreeHead → Hash → Cosignature → CosignedTreeHead
cosigned sth key_hash cs = record { signed_tree_head = sth; cosignatures = (key_hash, cs) ∷ [] }

cosigned_tree_head_to_ascii-text_before :
    (sth : SignedTreeHead) (key_hash : Hash) (cs : Cosignature)
    → IsSignedTreeHead sth
    → IsCosignature key_hash cs
    → cosigned_tree_head_to_ascii (cosigned sth key_hash cs)
      ≡ ok (text_before sth (line key_hash cs ++ []))
unfolding cosigned_tree_head_to_ascii cosignatures_to_ascii
cosigned_tree_head_to_ascii-text_before sth key_hash cs v c =
    rw (signed_tree_head_to_ascii-text_of sth v, cosignature_to_ascii-line key_hash cs c)
      (ap ok (text_of-append sth (line key_hash cs ++ [])))

cosigned_tree_head_from_ascii-text_before :
    (sth : SignedTreeHead) (key_hash : Hash) (cs : Cosignature)
    → IsSignedTreeHead sth
    → IsCosignature key_hash cs
    → cosigned_tree_head_from_ascii (text_before sth (line key_hash cs ++ []))
      ≡ ok (cosigned sth key_hash cs)
unfolding cosigned_tree_head_from_ascii parse_cosigned_tree_head
cosigned_tree_head_from_ascii-text_before sth key_hash cs v c = rw (
  cosigned_tree_head_from_ascii,
  parse_cosigned_tree_head,
  parse-text_before sth (line key_hash cs ++ []) v,
  parse_cosignatures-line key_hash cs c,
)

-- FromASCII reads back what ToASCII wrote for a tree head with one cosignature, for fields of their sizes,
-- and a size and a timestamp below 2 ^ 63.
pub cosigned_tree_head_from_ascii-cosigned_tree_head_to_ascii :
    (sth : SignedTreeHead) (key_hash : Hash) (cs : Cosignature) (content : Bytes)
    → IsSignedTreeHead sth
    → IsCosignature key_hash cs
    → cosigned_tree_head_to_ascii (cosigned sth key_hash cs) ≡ ok content
    → cosigned_tree_head_from_ascii content ≡ ok (cosigned sth key_hash cs)
cosigned_tree_head_from_ascii-cosigned_tree_head_to_ascii sth key_hash cs content v c e =
    let same : text_before sth (line key_hash cs ++ []) ≡ content =
      cc (cosigned_tree_head_to_ascii-text_before sth key_hash cs v c, e) in
    rw (← same) (cosigned_tree_head_from_ascii-text_before sth key_hash cs v c)
