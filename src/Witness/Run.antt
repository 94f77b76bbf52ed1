-- ===== src/Witness/Run.antt =====
-- Every run of the witness: a sequence of AddCheckpoint requests, whatever the disk and the clock do.
use sigsum_lib_go.Prelude.{
  ℕ, ◌^◌, ◌≤◌, ◌<◌, ◌≡◌, ap, arith, ◌⊎◌, inl, inr, Bool-cases, List, [], ◌∷◌, length, All, eq_bytes,
  eq_bytes_sound,
}
use sigsum_lib_go.Result.{Result, ok, Result-cases}
use sigsum_lib_go.Crypto.{Hash, Sha256, Verifier, IsHash}
use sigsum_lib_go.Merkle.Spec.{merkle_tree_hash}
use sigsum_lib_go.Types.Growth.{Extends, merkle_tree_hash-Extends, consistent-Extends}
use sigsum_lib_go.Types.TreeHead.{TreeHead, Cosignature}
use sigsum_lib_go.Api.Errors.{err_forbidden, err_not_found, with_error}
use sigsum_lib_go.Checkpoint.Checkpoint.{verify_checkpoint, cosign_checkpoint}
use sigsum_lib_go.Checkpoint.Cosignature.{CosignatureLine}
use sigsum_lib_go.Requests.AddCheckpoint.{AddCheckpoint}
use sigsum_lib_go.Witness.State.{State, Disk}
use sigsum_lib_go.Witness.Accept.{Kept, Accepts, update-cases}
use sigsum_lib_go.Witness.Handler.{Witness, add_checkpoint}

-- The fields of a request that Go's types make arrays of 32 bytes.
pub record IsRequest (req : AddCheckpoint) : Type 0 where
  pub root_hash : IsHash req.checkpoint.signed_tree_head.root_hash
  pub path : All IsHash req.proof.path

module _ (sha : Sha256) (verify : Verifier) (w : Witness) where
  -- What a successful request did: every check passed, and the answer is the one cosignature line.
  abbrev pub Cosigns :
      Disk → ℕ → State → AddCheckpoint → Result (List CosignatureLine) × State → Type 0
  Cosigns disk now s req p =
      (cs : Cosignature) × (t : State) × (p
        ≡ (ok (record { key_name = w.key_name; key_id = w.key_id; cosignature = cs } ∷ []), t))
      × (req.checkpoint.origin ≡ w.origin)
      × (verify_checkpoint sha verify req.checkpoint w.log_pub ≡ ok tt)
      × (s.th.size ≡ req.old_size)
      × (cosign_checkpoint req.checkpoint w.signer now ≡ ok cs)
      × Accepts sha s req.checkpoint.signed_tree_head req.proof w.key_hash cs t

  -- Every outcome of AddCheckpoint: an error or a panic that keeps the state, or a success, for which
  -- the origin, the log's signature, the old size and the consistency proof were right, the size did
  -- not shrink, the signer signed the new tree head, and memory and file hold it.
  pub add_checkpoint-cases :
      (disk : Disk) (now : ℕ) (s : State) (req : AddCheckpoint)
      → Kept s (add_checkpoint sha verify w disk now s req)
        ⊎ Cosigns disk now s req (add_checkpoint sha verify w disk now s req)
  unfolding add_checkpoint
  add_checkpoint-cases disk now s req =
      elim (Bool-cases (eq_bytes req.checkpoint.origin w.origin)) [
        | inr other ↦ inl (inl (err_not_found, rw (add_checkpoint, other)))
        | inl same ↦ elim (Result-cases (verify_checkpoint sha verify req.checkpoint w.log_pub)) [
          | inr (inl (e, refused)) ↦
              inl (inl (with_error err_forbidden e, rw (add_checkpoint, same, refused)))
          | inr (inr refused) ↦ inl (inr (rw (add_checkpoint, same, refused)))
          | inl (_, valid) ↦
              elim (update-cases sha disk s req.checkpoint.signed_tree_head req.old_size req.proof
                w.key_hash (cosign_checkpoint req.checkpoint w.signer now)) [
                  | inl (inl (e, failed)) ↦ inl (inl (e, rw (add_checkpoint, same, valid, failed)))
                  | inl (inr failed) ↦ inl (inr (rw (add_checkpoint, same, valid, failed)))
                  | inr (cs, t, done, size, signed, accepts) ↦ inr (
                    cs,
                    t,
                    rw (add_checkpoint, same, valid, done),
                    eq_bytes_sound _ _ same,
                    valid,
                    size,
                    signed,
                    accepts,
                  )
                ]
        ]
      ]

  -- The states that a sequence of requests leads to.
  pub data Run : State → State → Type 0 where
    done : {s : State} → Run s s
    request :
        {s t : State} (disk : Disk) (now : ℕ) (req : AddCheckpoint)
        → IsRequest req
        → Run (add_checkpoint sha verify w disk now s req).1 t
        → Run s t

  Accepts-Extends :
      (s t : State) (req : AddCheckpoint) (cs : Cosignature) (leaves : List Hash)
      → IsRequest req
      → Accepts sha s req.checkpoint.signed_tree_head req.proof w.key_hash cs t
      → IsHash s.th.root_hash
      → length leaves < 2 ^ 64
      → All IsHash leaves
      → Extends sha t.th leaves
      → Extends sha s.th leaves
  Accepts-Extends s t req cs leaves r a h n hl x =
      consistent-Extends sha leaves req.proof s.th t.th h r.path n hl
        (rw (ap (λ (th : TreeHead). th.size) a.new_tree_head) a.no_smaller)
        (rw a.new_tree_head a.consistent) x

  add_checkpoint-Extends :
      (disk : Disk) (now : ℕ) (s : State) (req : AddCheckpoint) (leaves : List Hash)
      → IsRequest req
      → IsHash s.th.root_hash
      → length leaves < 2 ^ 64
      → All IsHash leaves
      → Extends sha (add_checkpoint sha verify w disk now s req).1.th leaves
      → Extends sha s.th leaves
  add_checkpoint-Extends disk now s req leaves r h n hl x =
      elim (add_checkpoint-cases disk now s req) [
        | inl (inl (e, kept)) ↦ rw kept at x
        | inl (inr kept) ↦ rw kept at x
        | inr (cs, t, moved, _, _, _, _, a) ↦
            Accepts-Extends s t req cs leaves r a h n hl (rw moved at x)
      ]

  add_checkpoint-IsHash :
      (disk : Disk) (now : ℕ) (s : State) (req : AddCheckpoint)
      → IsRequest req
      → IsHash s.th.root_hash
      → IsHash (add_checkpoint sha verify w disk now s req).1.th.root_hash
  add_checkpoint-IsHash disk now s req r h = elim (add_checkpoint-cases disk now s req) [
    | inl (inl (e, kept)) ↦ rw kept h
    | inl (inr kept) ↦ rw kept h
    | inr (cs, t, moved, _, _, _, _, a) ↦ rw (moved, a.new_tree_head) r.root_hash
  ]

  -- Whatever the requests, the disk and the clock of a run, if the tree head at its end is the one of
  -- some leaves, then the one at its start is no larger and its root is the one of the first of these
  -- leaves, or two byte strings with one SHA-256 hash are at hand. The size is a uint64, and roots,
  -- paths and leaf hashes are 32 bytes long.
  pub Run-append_only :
      (s t : State) (leaves : List Hash)
      → Run s t
      → IsHash s.th.root_hash
      → length leaves < 2 ^ 64
      → All IsHash leaves
      → t.th.size ≡ length leaves
      → t.th.root_hash ≡ merkle_tree_hash sha leaves
      → Extends sha s.th leaves
  Run-append_only s t leaves done h n hl size root =
      merkle_tree_hash-Extends sha t.th leaves size root
  Run-append_only s t leaves (request disk now req r run) h n hl size root =
      add_checkpoint-Extends disk now s req leaves r h n hl (
        Run-append_only (add_checkpoint sha verify w disk now s req).1 t leaves run
          (add_checkpoint-IsHash disk now s req r h) n hl size root)

  -- The size of the witness's tree head does not shrink in a run.
  pub Run-no_smaller : (s t : State) → Run s t → s.th.size ≤ t.th.size
  Run-no_smaller s t done = omega arith
  Run-no_smaller s t (request disk now req r run) =
      let later : (add_checkpoint sha verify w disk now s req).1.th.size ≤ t.th.size =
        Run-no_smaller _ t run in
      elim (add_checkpoint-cases disk now s req) [
        | inl (inl (e, kept)) ↦ rw kept at later
        | inl (inr kept) ↦ rw kept at later
        | inr (cs, u, moved, _, _, _, _, a) ↦
            let first : u.th.size ≤ t.th.size = rw moved at later in
            let size : u.th.size ≡ req.checkpoint.signed_tree_head.size =
              ap (λ (th : TreeHead). th.size) a.new_tree_head in
            omega (arith, first, size, a.no_smaller)
      ]
