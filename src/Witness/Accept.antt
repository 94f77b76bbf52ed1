-- ===== src/Witness/Accept.antt =====
-- The outcomes of Store, Update and AddCheckpoint: a state that is kept, or one that moves forward.
use sigsum_lib_go.Prelude.{
  ℕ, ◌≤◌, ◌≡◌, refl, arith, ◌⊎◌, inl, inr, Bool-cases, some, [], ◌∷◌, ltb, ◌==◌,
}
use sigsum_lib_go.Result.{Result, Error, errorf, ok, err, panic, ◌>>◌, Result-cases}
use sigsum_lib_go.Crypto.{Bytes, Hash, Sha256}
use sigsum_lib_go.Types.TreeHead.{SignedTreeHead, Cosignature, CosignedTreeHead}
use sigsum_lib_go.Types.WriteTreeHead.{cosigned_tree_head_to_ascii}
use sigsum_lib_go.Types.Proof.{ConsistencyProof, verify_consistency_proof}
use sigsum_lib_go.Witness.State.{State, Disk, store_bytes, store, update}
use sigsum_lib_go.Api.Errors.{err_conflict, err_unprocessable_entity, with_old_size}

-- An error or a panic that leaves the state as it was.
abbrev pub Kept {ℓ} : {A : Type ℓ} → State → Result A × State → Type ℓ
Kept s p = ((e : Error) × (p ≡ (err e, s))) ⊎ (p ≡ (panic, s))

store_bytes-cases :
    (disk : Disk) (s : State) (content : Bytes)
    → Kept s (store_bytes disk s content)
      ⊎ (store_bytes disk s content ≡ (ok tt, record s { file = some content }))
unfolding store_bytes
store_bytes-cases disk s content = elim (Result-cases (disk.create >> disk.commit)) [
  | inl (_, done) ↦ inr (rw (store_bytes, done))
  | inr (inl (e, failed)) ↦ inl (inl (e, rw (store_bytes, failed)))
  | inr (inr failed) ↦ inl (inr (rw (store_bytes, failed)))
]

-- Store writes the tree head that it is given, which is not smaller than the one in memory.
store-cases :
    (disk : Disk) (s : State) (cth : CosignedTreeHead)
    → Kept s (store disk s cth)
      ⊎ ((s.th.size ≤ cth.size)
          × (content : Bytes) × (cosigned_tree_head_to_ascii cth ≡ ok content)
          × (store disk s cth ≡ (ok tt, record s { file = some content })))
unfolding store
store-cases disk s cth = elim (Bool-cases (ltb cth.size s.th.size)) [
  | inl older ↦ inl (inl (errorf "cosigning an old tree, internal error", rw (store, older)))
  | inr newer ↦ elim (Result-cases (cosigned_tree_head_to_ascii cth)) [
    | inl (content, written) ↦ elim (store_bytes-cases disk s content) [
      | inl (inl (e, failed)) ↦ inl (inl (e, rw (store, newer, written) failed))
      | inl (inr failed) ↦ inl (inr (rw (store, newer, written) failed))
      | inr done ↦ inr (ground arith, content, written, rw (store, newer, written) done)
    ]
    | inr (inl (e, failed)) ↦ elim (Result-cases (disk.create)) [
      | inl (_, created) ↦ inl (inl (e, rw (store, newer, failed, created)))
      | inr (inl (e', refused)) ↦ inl (inl (e', rw (store, newer, failed, refused)))
      | inr (inr refused) ↦ inl (inr (rw (store, newer, failed, refused)))
    ]
    | inr (inr failed) ↦ elim (Result-cases (disk.create)) [
      | inl (_, created) ↦ inl (inr (rw (store, newer, failed, created)))
      | inr (inl (e', refused)) ↦ inl (inl (e', rw (store, newer, failed, refused)))
      | inr (inr refused) ↦ inl (inr (rw (store, newer, failed, refused)))
    ]
  ]
]

module _ (sha : Sha256) where
  -- A step from `s` to `t` that takes the tree head `th`: the proof `pr` ties it to the old one, the
  -- size does not shrink, and the file holds the tree head with the cosignature `cs`.
  pub record Accepts (s : State) (sth : SignedTreeHead) (pr : ConsistencyProof) (key_hash : Hash)
      (cs : Cosignature) (t : State) : Type 0 where
    pub new_tree_head : t.th ≡ sth.tree_head
    pub no_smaller : s.th.size ≤ sth.size
    pub consistent : verify_consistency_proof sha pr s.th sth.tree_head ≡ ok tt
    pub content : Bytes
    pub written :
        cosigned_tree_head_to_ascii
          (record { signed_tree_head = sth; cosignatures = (key_hash, cs) ∷ [] })
        ≡ ok content
    pub stored : t.file ≡ some content

  pub update-cases :
      (disk : Disk) (s : State) (sth : SignedTreeHead) (old_size : ℕ) (pr : ConsistencyProof)
      (key_hash : Hash) (cosigned : Result Cosignature)
      → Kept s (update sha disk s sth old_size pr key_hash cosigned)
        ⊎ ((cs : Cosignature) × (t : State) × (update sha disk s sth old_size pr key_hash cosigned
              ≡ (ok cs, t))
            × (s.th.size ≡ old_size)
            × (cosigned ≡ ok cs)
            × Accepts s sth pr key_hash cs t)
  unfolding update
  update-cases disk s sth old_size pr key_hash cosigned =
      elim (Bool-cases (s.th.size == old_size)) [
        | inr other ↦ elim (Result-cases (with_old_size err_conflict s.th.size)) [
          | inl (e, conflict) ↦ inl (inl (e, rw (update, other, conflict)))
          | inr (inl (e, conflict)) ↦ inl (inl (e, rw (update, other, conflict)))
          | inr (inr conflict) ↦ inl (inr (rw (update, other, conflict)))
        ]
        | inl same ↦ elim (Result-cases (verify_consistency_proof sha pr s.th sth.tree_head)) [
          | inr (inl (e, refused)) ↦
              inl (inl (err_unprocessable_entity, rw (update, same, refused)))
          | inr (inr refused) ↦ inl (inr (rw (update, same, refused)))
          | inl (_, consistent) ↦ elim (Result-cases cosigned) [
            | inr (inl (e, failed)) ↦ inl (inl (e, rw (update, same, consistent, failed)))
            | inr (inr failed) ↦ inl (inr (rw (update, same, consistent, failed)))
            | inl (cs, signed) ↦
                elim (store-cases disk s
                  (record { signed_tree_head = sth; cosignatures = (key_hash, cs) ∷ [] })) [
                    | inl (inl (e, failed)) ↦
                        inl (inl (e, rw (update, same, consistent, signed, failed)))
                    | inl (inr failed) ↦ inl (inr (rw (update, same, consistent, signed, failed)))
                    | inr (larger, content, written, done) ↦ inr (
                      cs,
                      record { th = sth.tree_head; file = some content },
                      rw (update, same, consistent, signed, done),
                      ground arith,
                      signed,
                      record {
                        new_tree_head = refl;
                        no_smaller = larger;
                        consistent = consistent;
                        content = content;
                        written = written;
                        stored = refl;
                      },
                    )
                  ]
          ]
        ]
      ]
