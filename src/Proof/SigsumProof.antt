-- ===== src/Proof/SigsumProof.antt =====
-- pkg/proof/proof.go
use sigsum_lib_go.Prelude.{
  ℕ, Bool, not, ◌&&◌, none, some, List, [], ◌∷◌, ◌++◌, length, leb, ◌==◌, if◌then◌else◌,
}
use sigsum_lib_go.Prelude.Text.{codes}
use sigsum_lib_go.Prelude.Maps.{Map, lookup}
use sigsum_lib_go.Result.{Result, Error, ok, err, panic, empty_line, errorf, ◌>>=◌, ◌>>◌}
use sigsum_lib_go.Crypto.{Bytes, Hash, Signature, PublicKey, Sha256, Verifier, hash_bytes}
use sigsum_lib_go.Encoding.Hex.{hex_decode}
use sigsum_lib_go.Encoding.Fixed.{hash_from_hex, signature_from_hex}
use sigsum_lib_go.Ascii.Line as Line
use sigsum_lib_go.Ascii.Line.{Reader, continue, lift, new_line_reader, get_empty_line}
use sigsum_lib_go.Ascii.Parser.{get_int, get_hash, get_values}
use sigsum_lib_go.Ascii.Writer.{bytes, write_line, write_int, write_hash}
use sigsum_lib_go.Types.Leaf.{Leaf, verify_leaf, to_hash}
use sigsum_lib_go.Types.Proof.{InclusionProof, verify_inclusion_proof}
use sigsum_lib_go.Types.ParseProof.{parse_inclusion_proof}
use sigsum_lib_go.Types.WriteProof.{inclusion_proof_to_ascii}
use sigsum_lib_go.Types.TreeHead.{CosignedTreeHead}
use sigsum_lib_go.Types.ParseTreeHead.{parse_cosigned_tree_head}
use sigsum_lib_go.Types.WriteTreeHead.{cosigned_tree_head_to_ascii}
use sigsum_lib_go.Policy.Policy.{Policy, verify_cosigned_tree_head, new_k_of_n_policy}

abbrev pub sigsum_proof_version : ℕ
sigsum_proof_version = 2

abbrev pub short_checksum_size : ℕ
short_checksum_size = 2

pub record ShortLeaf : Type 0 where
  pub signature : Signature
  pub key_hash : Hash

unfoldable pub new_short_leaf : Leaf → ShortLeaf
new_short_leaf leaf = record { signature = leaf.signature; key_hash = leaf.key_hash }

unfoldable pub to_leaf : ShortLeaf → Hash → Leaf
to_leaf l checksum = record { checksum = checksum; signature = l.signature; key_hash = l.key_hash }

-- The error of a step with another text in front.
abbrev pub wrap {ℓ} : {A : Type ℓ} → Error → Result A → Result A
wrap text (ok a) = ok a
wrap text (err e) = err text
wrap text panic = panic

unfoldable pub short_leaf_of : Bytes → Bytes → Result ShortLeaf
short_leaf_of k s = do
  key_hash ← wrap (errorf "invalid submitter key hash: %v") (hash_from_hex k)
  sig ← wrap (errorf "invalid leaf signature: %v") (signature_from_hex s)
  ok (record { signature = sig; key_hash = key_hash })

unfoldable pub short_leaf_of_values : List Bytes → Result ShortLeaf
short_leaf_of_values (k ∷ s ∷ []) = short_leaf_of k s
short_leaf_of_values _ = panic

unfoldable pub check_short_checksum : Bytes → Result (Unit {0})
check_short_checksum s = do
  b ← hex_decode s
  if length b == short_checksum_size
      then ok tt
      else err (errorf "unexpected checksum length, got %d, expected %d")

unfoldable pub short_leaf_of_values_version1 : List Bytes → Result ShortLeaf
short_leaf_of_values_version1 (c ∷ k ∷ s ∷ []) =
    wrap (errorf "invalid (version 1) checksum: %v") (check_short_checksum c) >>= λ _.
    short_leaf_of k s
short_leaf_of_values_version1 _ = panic

unfoldable pub parse_short_leaf : Reader ShortLeaf
parse_short_leaf = Line.◌>>=◌ (get_values (codes "leaf") 2) (λ v. lift (short_leaf_of_values v))

unfoldable pub parse_short_leaf_version1 : Reader ShortLeaf
parse_short_leaf_version1 =
    Line.◌>>=◌ (get_values (codes "leaf") 3) (λ v. lift (short_leaf_of_values_version1 v))

unfoldable pub short_leaf_to_ascii : ShortLeaf → Result Bytes
short_leaf_to_ascii l = write_line (codes "leaf") (bytes l.key_hash) (bytes l.signature ∷ [])

pub record SigsumProof : Type 0 where
  pub log_key_hash : Hash
  pub leaf : ShortLeaf
  pub tree_head : CosignedTreeHead
  pub inclusion : InclusionProof

-- A step of the reader whose error gets another text in front.
abbrev pub wrap_reader {ℓ} : {A : Type ℓ} → Error → Reader A → Reader A
wrap_reader text m r = (wrap text (m r).0, (m r).1)

abbrev pub check_version : ℕ → Result (Unit {0})
check_version version =
    if not (version == sigsum_proof_version) && not (version == 1)
    then err (errorf "unknown version %d, wanted %d or %d")
    else ok tt

-- The inclusion proof, which a tree of one leaf does not have.
unfoldable pub parse_inclusion : ℕ → Bool → Reader InclusionProof
parse_inclusion size ended_by_empty_line r =
    if size == 0
    then (err (errorf "invalid tree: empty"), r)
    else if size == 1
    then (if ended_by_empty_line
        then (err empty_line, r)
        else (ok (record { leaf_index = 0; path = [] }), r))
    else if not ended_by_empty_line
    then (err (errorf "missing inclusion proof part: %v"), r)
    else parse_inclusion_proof r

unfoldable pub parse_leaf_line : ℕ → Reader ShortLeaf
parse_leaf_line version r = if version == 1 then parse_short_leaf_version1 r else parse_short_leaf r

unfoldable pub parse_sigsum_proof : Reader SigsumProof
parse_sigsum_proof =
    Line.◌>>=◌ (wrap_reader (errorf "invalid version line: %v") (get_int (codes "version")))
      (λ version. Line.◌>>=◌ (lift (check_version version)) (λ _.
        Line.◌>>=◌ (wrap_reader (errorf "invalid log line: %v") (get_hash (codes "log"))) (λ log.
          Line.◌>>=◌ (parse_leaf_line version) (λ leaf. Line.◌>>=◌ get_empty_line (λ _.
            Line.◌>>=◌ parse_cosigned_tree_head (λ cth.
              Line.◌>>=◌ (parse_inclusion cth.0.size cth.1) (λ inclusion. lift (
                ok (record {
                  log_key_hash = log;
                  leaf = leaf;
                  tree_head = cth.0;
                  inclusion = inclusion;
                })))))))))

unfoldable pub sigsum_proof_from_ascii : Bytes → Result SigsumProof
sigsum_proof_from_ascii input = (parse_sigsum_proof (new_line_reader input)).0

unfoldable pub inclusion_to_ascii : SigsumProof → Result Bytes
inclusion_to_ascii sp =
    if leb sp.tree_head.size 1
    then ok []
    else (do inclusion ← inclusion_proof_to_ascii sp.inclusion; ok (10 ∷ inclusion))

unfoldable pub sigsum_proof_to_ascii : SigsumProof → Result Bytes
sigsum_proof_to_ascii sp = do
  version ← write_int (codes "version") sigsum_proof_version
  log ← write_hash (codes "log") sp.log_key_hash
  leaf ← short_leaf_to_ascii sp.leaf
  cth ← cosigned_tree_head_to_ascii sp.tree_head
  inclusion ← inclusion_to_ascii sp
  ok (version ++ (log ++ (leaf ++ 10 ∷ (cth ++ inclusion))))

module _ (sha : Sha256) (verify : Verifier) where
  unfoldable pub verify_sigsum_proof :
      SigsumProof → Hash → Map PublicKey → Policy → Result (Unit {0})
  verify_sigsum_proof sp msg submit_keys policy =
      let leaf : Leaf = to_leaf sp.leaf (hash_bytes sha msg) in
      elim (lookup sp.leaf.key_hash submit_keys) [
        | none ↦ err (errorf "unknown leaf key hash")
        | some key ↦
            if not (verify_leaf sha verify leaf key)
            then err (errorf "leaf signature not valid")
            else (do
              verify_cosigned_tree_head sha verify policy sp.log_key_hash sp.tree_head
              verify_inclusion_proof sha sp.inclusion (to_hash sha leaf) sp.tree_head.tree_head)
      ]

  unfoldable pub verify_no_cosignatures :
      SigsumProof → Hash → Map PublicKey → PublicKey → Result (Unit {0})
  verify_no_cosignatures sp msg submit_keys log_key = do
    policy ← wrap (errorf "internal error: %v") (new_k_of_n_policy sha (log_key ∷ []) [] 0)
    verify_sigsum_proof sp msg submit_keys policy
