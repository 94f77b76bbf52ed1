-- ===== src/Witness/State.antt =====
-- cmd/sigsum-witness/sigsum-witness.go: the witness and its stored tree head.
use sigsum_lib_go.Prelude.{ℕ, not, Option, none, some, [], ◌∷◌, ltb, ◌==◌, if◌then◌else◌}
use sigsum_lib_go.Prelude.Maps.{lookup}
use sigsum_lib_go.Result.{Result, ok, err, panic, errorf, ◌>>=◌, ◌>>◌}
use sigsum_lib_go.Crypto.{
  zeros, Bytes, Hash, Sha256, Verifier, PublicKey, signature_size, hash_bytes,
}
use sigsum_lib_go.Types.TreeHead.{
  TreeHead, SignedTreeHead, Cosignature, CosignedTreeHead, sigsum_checkpoint_origin,
  verify_signed_tree_head, verify_cosignature,
}
use sigsum_lib_go.Types.ParseTreeHead.{cosigned_tree_head_from_ascii}
use sigsum_lib_go.Types.WriteTreeHead.{cosigned_tree_head_to_ascii}
use sigsum_lib_go.Types.Proof.{ConsistencyProof, verify_consistency_proof}
use sigsum_lib_go.Api.Errors.{err_conflict, err_unprocessable_entity, with_old_size}

-- The tree head in memory, and the contents of the state file.
pub record State : Type 0 where
  pub th : TreeHead
  pub file : Option Bytes

-- What the file system does in one call of Store: safefile.Create, and the writes and Commit.
pub record Disk : Type 0 where
  pub create : Result (Unit {0})
  pub commit : Result (Unit {0})

-- The file is replaced at the commit, and a step that fails before it leaves it.
unfoldable pub store_bytes : Disk → State → Bytes → Result (Unit {0}) × State
store_bytes disk s content = elim (disk.create >> disk.commit) [
  | ok _ ↦ (ok tt, record s { file = some content })
  | err e ↦ (err e, s)
  | panic ↦ (panic, s)
]

unfoldable pub store : Disk → State → CosignedTreeHead → Result (Unit {0}) × State
store disk s cth =
    if ltb cth.size s.th.size
    then (err (errorf "cosigning an old tree, internal error"), s)
    else elim (cosigned_tree_head_to_ascii cth) [
      | ok content ↦ store_bytes disk s content
      | err e ↦ (disk.create >> err e, s)
      | panic ↦ (disk.create >> panic, s)
    ]

-- `s.th = sth.TreeHead; return cs, nil` after a Store that succeeded.
abbrev pub keep_tree_head :
    TreeHead → Cosignature → Result (Unit {0}) × State → Result Cosignature × State
keep_tree_head th cs (ok _, s) = (ok cs, record s { th = th })
keep_tree_head th cs (err e, s) = (err e, s)
keep_tree_head th cs (panic, s) = (panic, s)

module _ (sha : Sha256) where
  unfoldable pub update :
      Disk
      → State
      → SignedTreeHead
      → ℕ
      → ConsistencyProof
      → Hash
      → Result Cosignature
      → Result Cosignature × State
  update disk s sth old_size pr key_hash cosigned =
      if not (s.th.size == old_size)
      then (with_old_size err_conflict s.th.size >>= err, s)
      else elim (verify_consistency_proof sha pr s.th sth.tree_head) [
        | err e ↦ (err err_unprocessable_entity, s)
        | panic ↦ (panic, s)
        | ok _ ↦ elim cosigned [
          | err e ↦ (err e, s)
          | panic ↦ (panic, s)
          | ok cs ↦
              keep_tree_head sth.tree_head cs (
                store disk s
                  (record { signed_tree_head = sth; cosignatures = (key_hash, cs) ∷ [] }))
        ]
      ]

-- What a Go struct of type Cosignature holds before it is set.
abbrev pub zero_cosignature : Cosignature
zero_cosignature = record { timestamp = 0; signature = zeros signature_size }

module _ (sha : Sha256) (verify : Verifier) where
  -- Load, on the state file's contents; the cosignature's absence is not an error of its own.
  unfoldable pub load_content : PublicKey → PublicKey → Bytes → Result TreeHead
  load_content key log_pub content = do
    cth ← cosigned_tree_head_from_ascii content
    if not (verify_signed_tree_head sha verify cth.signed_tree_head log_pub)
        then err (errorf "Invalid log signature on stored tree head")
        else (let cs : Cosignature = elim (lookup (hash_bytes sha key) cth.cosignatures) [
          | none ↦ zero_cosignature
          | some cs ↦ cs
        ] in
            if not (
              verify_cosignature verify cs key (sigsum_checkpoint_origin sha log_pub) cth.tree_head)
            then err (errorf "Invalid cosignature on stored tree head")
            else ok cth.tree_head)

  -- os.Open: the contents, or `none` for a file that does not exist, or another error.
  unfoldable pub load : PublicKey → PublicKey → Result (Option Bytes) → Result State
  load key log_pub opened = do
    file ← opened
    elim file [
      | none ↦ ok (record { th = record { size = 0; root_hash = hash_bytes sha [] }; file = none })
      | some content ↦
          load_content key log_pub content >>= λ th. ok (record { th = th; file = some content })
    ]
