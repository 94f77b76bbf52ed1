-- ===== src/Witness/Reload.antt =====
-- What the witness loads after a restart is what it had in memory.
use sigsum_lib_go.Prelude.{
  ℕ, ◌^◌, ◌<◌, ◌≡◌, refl, true, Bool-cases, inl, inr, some, List, [], ◌∷◌, All, length, eq_bytes,
  eq_bytes_refl,
}
use sigsum_lib_go.Prelude.Maps.{lookup}
use sigsum_lib_go.Result.{ok, Result-cases}
use sigsum_lib_go.Crypto.{
  Bytes, PublicKey, Signature, Sha256, Verifier, IsByte, hash_bytes, signature_size,
}
use sigsum_lib_go.Types.TreeHead.{
  SignedTreeHead, Cosignature, Signer, cosign, to_cosigned_data, verify_signed_tree_head,
  verify_cosignature, sigsum_checkpoint_origin,
}
use sigsum_lib_go.Types.TreeHeadLaws.{IsSignedTreeHead}
use sigsum_lib_go.Types.CosignatureLaws.{IsCosignature}
use sigsum_lib_go.Types.CosignedLaws.{
  cosigned, cosigned_tree_head_from_ascii-cosigned_tree_head_to_ascii,
}
use sigsum_lib_go.Types.ParseTreeHead.{cosigned_tree_head_from_ascii}
use sigsum_lib_go.Checkpoint.Signature.{new_log_key_id}
use sigsum_lib_go.Checkpoint.Checkpoint.{Checkpoint, verify_checkpoint, cosign_checkpoint}
use sigsum_lib_go.Requests.AddCheckpoint.{AddCheckpoint}
use sigsum_lib_go.Witness.State.{State, Disk, load_content, load}
use sigsum_lib_go.Witness.Accept.{Accepts}
use sigsum_lib_go.Witness.Handler.{new_witness, add_checkpoint}
use sigsum_lib_go.Witness.Run.{add_checkpoint-cases}

verify_checkpoint-verify_signed_tree_head :
    (sha : Sha256) (verify : Verifier) (cp : Checkpoint) (key : PublicKey)
    → verify_checkpoint sha verify cp key ≡ ok tt
    → verify_signed_tree_head sha verify cp.signed_tree_head key ≡ true
unfolding verify_checkpoint
verify_checkpoint-verify_signed_tree_head sha verify cp key e =
    elim (Bool-cases (eq_bytes cp.key_id (new_log_key_id sha cp.origin key))) [
      | inr other ↦ absurd (cc (rw (verify_checkpoint, other) at e))
      | inl same ↦ elim (Bool-cases (verify_signed_tree_head sha verify cp.signed_tree_head key)) [
        | inl valid ↦ valid
        | inr bad ↦ absurd (cc (rw (verify_checkpoint, same, bad) at e))
      ]
    ]

-- A signer whose signatures have 64 bytes and verify under its key.
abbrev pub Signs : Verifier → Signer → PublicKey → Type 0
Signs verify signer key =
    (msg : Bytes) (sig : Signature)
    → signer.sign_message msg ≡ ok sig
    → (verify key msg sig ≡ true) × (length sig ≡ signature_size) × All IsByte sig

-- One request with what the disk does in it and the Unix time.
pub record Served : Type 0 where
  pub disk : Disk
  pub now : ℕ
  pub req : AddCheckpoint

module _ (sha : Sha256) (verify : Verifier) (signer : Signer) (key log_pub : PublicKey) where
  -- Load reads the state back from its file.
  abbrev pub Loads : State → Type 0
  Loads s = load sha verify key log_pub (ok s.file) ≡ ok s

  cosign_checkpoint-IsCosignature :
      (cp : Checkpoint) (now : ℕ) (cs : Cosignature)
      → Signs verify signer key
      → All IsByte (hash_bytes sha key)
      → now < 2 ^ 63
      → cosign_checkpoint cp signer now ≡ ok cs
      → IsCosignature (hash_bytes sha key) cs
        × (verify_cosignature verify cs key cp.origin cp.signed_tree_head.tree_head ≡ true)
  unfolding cosign_checkpoint cosign verify_cosignature hash_bytes
  cosign_checkpoint-IsCosignature cp now cs signs b k e =
      let msg : Bytes = to_cosigned_data cp.signed_tree_head.tree_head cp.origin now in
      elim (Result-cases (signer.sign_message msg)) [
        | inr (inl (x, failed)) ↦ absurd (cc (rw (cosign_checkpoint, cosign, failed) at e))
        | inr (inr failed) ↦ absurd (cc (rw (cosign_checkpoint, cosign, failed) at e))
        | inl (sig, signed) ↦
            let same : record { timestamp = now; signature = sig } ≡ cs =
              cc (rw (cosign_checkpoint, cosign, signed) at e) in
            let (valid, size, sig_bytes) = signs msg sig signed in
            rw (← same) (
              record {
                key_hash_size = sha.length-sum256 key;
                key_hash_bytes = b;
                timestamp = k;
                signature = size;
                signature_bytes = sig_bytes;
              },
              valid,
            )
      ]

  load_content-cosigned :
      (sth : SignedTreeHead) (cs : Cosignature) (content : Bytes)
      → cosigned_tree_head_from_ascii content ≡ ok (cosigned sth (hash_bytes sha key) cs)
      → verify_signed_tree_head sha verify sth log_pub ≡ true
      → verify_cosignature verify cs key (sigsum_checkpoint_origin sha log_pub) sth.tree_head ≡ true
      → load_content sha verify key log_pub content ≡ ok sth.tree_head
  unfolding load_content lookup
  load_content-cosigned sth cs content read valid valid_cs =
      rw (load_content, read, valid, lookup, eq_bytes_refl (hash_bytes sha key), valid_cs)

  Accepts-Loads :
      (s t : State) (req : AddCheckpoint) (now : ℕ) (cs : Cosignature)
      → Signs verify signer key
      → All IsByte (hash_bytes sha key)
      → now < 2 ^ 63
      → IsSignedTreeHead req.checkpoint.signed_tree_head
      → req.checkpoint.origin ≡ sigsum_checkpoint_origin sha log_pub
      → verify_checkpoint sha verify req.checkpoint log_pub ≡ ok tt
      → cosign_checkpoint req.checkpoint signer now ≡ ok cs
      → Accepts sha s req.checkpoint.signed_tree_head req.proof (hash_bytes sha key) cs t
      → Loads t
  unfolding load
  Accepts-Loads s t req now cs signs b k v origin valid signed a =
      let sth = req.checkpoint.signed_tree_head in
      let (c, valid_cs) = cosign_checkpoint-IsCosignature req.checkpoint now cs signs b k signed in
      let read =
        cosigned_tree_head_from_ascii-cosigned_tree_head_to_ascii sth (hash_bytes sha key) cs
          a.content v c a.written in
      let loaded : load_content sha verify key log_pub a.content ≡ ok sth.tree_head =
        load_content-cosigned sth cs a.content read
          (verify_checkpoint-verify_signed_tree_head sha verify req.checkpoint log_pub valid)
          (rw origin at valid_cs) in
      let whole : record { th = sth.tree_head; file = some a.content } ≡ t =
        cc (a.new_tree_head, a.stored) in
      rw (← whole) (rw (load, loaded) refl)

  abbrev pub Ready : Served → Type 0
  Ready r = (r.now < 2 ^ 63) × IsSignedTreeHead r.req.checkpoint.signed_tree_head

  abbrev pub after : State → Served → State
  after s r =
      (add_checkpoint sha verify (new_witness sha signer key log_pub) r.disk r.now s r.req).1

  abbrev pub serve : State → List Served → State
  serve s [] = s
  serve s (r ∷ rs) = serve (after s r) rs

  after-Loads :
      (s : State) (r : Served)
      → Signs verify signer key
      → All IsByte (hash_bytes sha key)
      → Ready r
      → Loads s
      → Loads (after s r)
  unfolding new_witness
  after-Loads s r signs b (k, v) h =
      elim (add_checkpoint-cases sha verify (new_witness sha signer key log_pub) r.disk r.now s
        r.req) [
          | inl (inl (e, kept)) ↦ rw (after, kept) h
          | inl (inr kept) ↦ rw (after, kept) h
          | inr (cs, t, moved, origin, valid, _, signed, a) ↦
              rw (after, moved) (Accepts-Loads s t r.req r.now cs signs b k v origin valid signed a)
        ]

  -- A witness that stops after any sequence of requests, whatever the disk did in them, loads at its
  -- next start exactly the state that it had in memory, if the same was so before the requests. The
  -- signer's signatures have 64 bytes and verify under the witness's key, and the hash of that key is
  -- a string of bytes; the Unix times and the sizes in the requests are below 2 ^ 63, and their roots
  -- and signatures are arrays of 32 and 64 bytes.
  pub serve-Loads :
      (s : State) (requests : List Served)
      → Signs verify signer key
      → All IsByte (hash_bytes sha key)
      → All Ready requests
      → Loads s
      → Loads (serve s requests)
  serve-Loads s [] signs b ready h = h
  serve-Loads s (r ∷ rs) signs b (now, later) h =
      serve-Loads (after s r) rs signs b later (after-Loads s r signs b now h)
