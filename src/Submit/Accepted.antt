-- ===== src/Submit/Accepted.antt =====
-- What comes back from a submission that succeeds.
use sigsum_lib_go.Prelude.{
  ◌≡◌, refl, ap, ◌∙◌, inl, inr, Bool-cases, Option-cases, Option, some, none, true, List, [], ◌∷◌,
  length, ◌==◌, eq_bytes_refl,
}
use sigsum_lib_go.Prelude.Maps.{Map, lookup}
use sigsum_lib_go.Result.{Result, ok, err, panic, Result-cases}
use sigsum_lib_go.Crypto.{Hash, PublicKey, Sha256, Verifier, hash_bytes}
use sigsum_lib_go.Types.TreeHead.{CosignedTreeHead}
use sigsum_lib_go.Types.Leaf.{verify_leaf, verify_leaf_message, to_hash}
use sigsum_lib_go.Types.Leaf as Types
use sigsum_lib_go.Types.Proof.{InclusionProof, verify_inclusion_proof}
use sigsum_lib_go.Policy.Policy.{Policy, Entity, verify_cosigned_tree_head, entities_with_url}
use sigsum_lib_go.Requests.LogRequests.{Leaf, verify_leaf_request}
use sigsum_lib_go.Token.SubmitToken.{SubmitHeader}
use sigsum_lib_go.Proof.SigsumProof.{SigsumProof, new_short_leaf, to_leaf, verify_sigsum_proof}
use sigsum_lib_go.Api.Errors.{is_status}
use sigsum_lib_go.Policy.Verified.{verify_cosigned_tree_head-Trusted}
use sigsum_lib_go.Proof.Logged.{verify_sigsum_proof-Logged}
use sigsum_lib_go.Submit.Submission.{
  Attempt, Config, wait, persist_loop, proof_of, check_inclusion, ask_inclusion, check_tree_head,
  proof_loop, submit_leaf_to_log, header_for, or_next, submit_to_logs, submit_leaf_request,
}

wait-ok {ℓ} :
    {A : Type ℓ} (m : Result (Unit {0})) (next : Option (Result A)) (a : A)
    → wait m next ≡ some (ok a)
    → next ≡ some (ok a)
wait-ok (ok _) next a e = e
wait-ok (err x) next a e = absurd cc
wait-ok panic next a e = absurd cc

module _ (sha : Sha256) (verify : Verifier) (policy : Policy) (leaf_hash : Hash) where
  -- A proof that still needs its leaf: its tree head meets the policy, and the leaf is in the tree.
  pub record Proves (pr : SigsumProof) : Type 0 where
    pub trusted : verify_cosigned_tree_head sha verify policy pr.log_key_hash pr.tree_head ≡ ok tt
    pub included : verify_inclusion_proof sha pr.inclusion leaf_hash pr.tree_head.tree_head ≡ ok tt

  check_inclusion-Proves :
      (h : Hash) (cth : CosignedTreeHead) (inclusion : InclusionProof) (pr : SigsumProof)
      → verify_cosigned_tree_head sha verify policy h cth ≡ ok tt
      → check_inclusion sha verify h leaf_hash cth inclusion ≡ ok pr
      → Proves pr
  unfolding check_inclusion
  check_inclusion-Proves h cth inclusion pr trusted e =
      elim (Result-cases (verify_inclusion_proof sha inclusion leaf_hash cth.tree_head)) [
        | inl (_, included) ↦
            let same : proof_of h cth inclusion ≡ pr = cc (rw (check_inclusion, included) at e) in
            rw (← same) (record { trusted = trusted; included = included })
        | inr (inl (x, failed)) ↦ absurd (cc (rw (check_inclusion, failed) at e))
        | inr (inr failed) ↦ absurd (cc (rw (check_inclusion, failed) at e))
      ]

  ask_inclusion-Proves :
      (a : Attempt) (h : Hash) (cth : CosignedTreeHead) (next : Option (Result SigsumProof))
      (pr : SigsumProof)
      → verify_cosigned_tree_head sha verify policy h cth ≡ ok tt
      → (next ≡ some (ok pr) → Proves pr)
      → ask_inclusion sha verify a h leaf_hash cth next ≡ some (ok pr)
      → Proves pr
  unfolding ask_inclusion
  ask_inclusion-Proves a h cth next pr trusted later e = elim (Bool-cases (cth.size == 0)) [
    | inl empty ↦ later (wait-ok a.sleep next pr (rw (ask_inclusion, empty) at e))
    | inr large ↦
        elim (Result-cases
          (a.log.get_inclusion_proof (record { size = cth.size; leaf_hash = leaf_hash }))) [
            | inl (inclusion, got) ↦
                check_inclusion-Proves h cth inclusion pr trusted
                  (cc (rw (ask_inclusion, large, got) at e))
            | inr (inr failed) ↦ absurd (cc (rw (ask_inclusion, large, failed) at e))
            | inr (inl (x, failed)) ↦ elim (Bool-cases (is_status 404 x)) [
              | inl absent ↦
                  later (wait-ok a.sleep next pr (rw (ask_inclusion, large, failed, absent) at e))
              | inr other ↦ absurd (cc (rw (ask_inclusion, large, failed, other) at e))
            ]
          ]
  ]

  proof_loop-Proves :
      (attempts : List Attempt) (h : Hash) (pr : SigsumProof)
      → proof_loop sha verify attempts policy h leaf_hash ≡ some (ok pr)
      → Proves pr
  unfolding proof_loop check_tree_head
  proof_loop-Proves [] h pr e = absurd cc
  proof_loop-Proves (a ∷ attempts) h pr e = elim (Result-cases (a.log.get_tree_head)) [
    | inr (inl (x, failed)) ↦ absurd (cc (rw (proof_loop, failed) at e))
    | inr (inr failed) ↦ absurd (cc (rw (proof_loop, failed) at e))
    | inl (cth, got) ↦ elim (Result-cases (verify_cosigned_tree_head sha verify policy h cth)) [
      | inr (inl (x, failed)) ↦ absurd (cc (rw (proof_loop, got, check_tree_head, failed) at e))
      | inr (inr failed) ↦ absurd (cc (rw (proof_loop, got, check_tree_head, failed) at e))
      | inl (_, trusted) ↦
          ask_inclusion-Proves a h cth (proof_loop sha verify attempts policy h leaf_hash) pr
            trusted (proof_loop-Proves attempts h pr)
            (rw (proof_loop, got, check_tree_head, trusted) at e)
    ]
  ]

  submit_leaf_to_log-Proves :
      (attempts : List Attempt) (h : Hash) (header : Option SubmitHeader) (req : Leaf)
      (pr : SigsumProof)
      → submit_leaf_to_log sha verify attempts policy h header req leaf_hash ≡ some (ok pr)
      → Proves pr
  unfolding submit_leaf_to_log
  submit_leaf_to_log-Proves attempts h header req pr e =
      elim (Option-cases (persist_loop attempts req header)) [
        | inl waiting ↦ absurd (cc (rw (submit_leaf_to_log, waiting) at e))
        | inr (r, got) ↦ elim (Result-cases r) [
          | inr (inl (x, failed)) ↦ absurd (cc (rw (submit_leaf_to_log, got, failed) at e))
          | inr (inr failed) ↦ absurd (cc (rw (submit_leaf_to_log, got, failed) at e))
          | inl (rest, done) ↦ proof_loop-Proves rest h pr (rw (submit_leaf_to_log, got, done) at e)
        ]
      ]

module _ (sha : Sha256) (verify : Verifier) (attempts : Entity → List Attempt)
    (shuffle : List Entity → List Entity) (config : Config) (req : Leaf) where
  -- The leaf that a log's result gets.
  abbrev Completed : Types.Leaf → SigsumProof → Type 0
  Completed leaf pr =
      (pr.leaf ≡ new_short_leaf leaf) × Proves sha verify config.policy (to_hash sha leaf) pr

  or_next-Completed :
      (leaf : Types.Leaf) (r next : Option (Result SigsumProof)) (pr : SigsumProof)
      → ((p : SigsumProof) → r ≡ some (ok p) → Proves sha verify config.policy (to_hash sha leaf) p)
      → (next ≡ some (ok pr) → Completed leaf pr)
      → or_next sha verify leaf r next ≡ some (ok pr)
      → Completed leaf pr
  unfolding or_next
  or_next-Completed leaf none next pr now later e = absurd cc
  or_next-Completed leaf (some panic) next pr now later e = absurd cc
  or_next-Completed leaf (some (err x)) next pr now later e = later e
  or_next-Completed leaf (some (ok p)) next pr now later e =
      let same : record p { leaf = new_short_leaf leaf } ≡ pr = cc e in
      let proves = now p refl in
      rw (← same) (refl, record { trusted = proves.trusted; included = proves.included })

  submit_to_logs-Completed :
      (logs : List Entity) (leaf : Types.Leaf) (pr : SigsumProof)
      → submit_to_logs sha verify attempts shuffle config req logs leaf ≡ some (ok pr)
      → Completed leaf pr
  unfolding submit_to_logs
  submit_to_logs-Completed [] leaf pr e = absurd cc
  submit_to_logs-Completed (entity ∷ logs) leaf pr e =
      elim (Result-cases (header_for sha verify config entity)) [
        | inr (inl (x, failed)) ↦ absurd (cc (rw (submit_to_logs, failed) at e))
        | inr (inr failed) ↦ absurd (cc (rw (submit_to_logs, failed) at e))
        | inl (header, made) ↦
            or_next-Completed leaf
              (submit_leaf_to_log sha verify (attempts entity) config.policy
                (hash_bytes sha entity.public_key) header req (to_hash sha leaf))
              (submit_to_logs sha verify attempts shuffle config req logs leaf) pr
              (submit_leaf_to_log-Proves sha verify config.policy (to_hash sha leaf)
                (attempts entity) (hash_bytes sha entity.public_key) header req)
              (submit_to_logs-Completed logs leaf pr) (rw (submit_to_logs, made) at e)
      ]

  abbrev leaf_of_request : Types.Leaf
  leaf_of_request = record {
    checksum = hash_bytes sha req.message;
    signature = req.signature;
    key_hash = hash_bytes sha req.public_key;
  }

  verify_leaf_request-ok :
      (leaf : Types.Leaf)
      → verify_leaf_request sha verify req ≡ ok leaf
      → (leaf_of_request ≡ leaf) × (verify_leaf sha verify leaf_of_request req.public_key ≡ true)
  unfolding verify_leaf_request verify_leaf verify_leaf_message
  verify_leaf_request-ok leaf e =
      elim (Bool-cases (verify_leaf_message sha verify req.public_key req.message req.signature)) [
        | inr invalid ↦ absurd (cc (rw (verify_leaf_request, invalid) at e))
        | inl valid ↦ (
          cc (rw (verify_leaf_request, valid) at e),
          rw (verify_leaf, eq_bytes_refl (hash_bytes sha req.public_key)) valid,
        )
      ]

  Completed-verify_sigsum_proof :
      (keys : Map PublicKey) (pr : SigsumProof)
      → lookup (hash_bytes sha req.public_key) keys ≡ some req.public_key
      → verify_leaf sha verify leaf_of_request req.public_key ≡ true
      → Completed leaf_of_request pr
      → verify_sigsum_proof sha verify pr req.message keys config.policy ≡ ok tt
  unfolding to_leaf new_short_leaf
  Completed-verify_sigsum_proof keys pr known signed (leaf, proves) =
      let same : to_leaf pr.leaf (hash_bytes sha req.message) ≡ leaf_of_request =
        ap (λ l. to_leaf l (hash_bytes sha req.message)) leaf in
      (verify_sigsum_proof-Logged sha verify pr req.message keys config.policy).1 (record {
        key = req.public_key;
        known = ap (λ l. lookup l.key_hash keys) leaf ∙ known;
        signed = ap (λ l. verify_leaf sha verify l req.public_key) same ∙ signed;
        trusted =
            (verify_cosigned_tree_head-Trusted sha verify config.policy pr.log_key_hash
                pr.tree_head).0
              proves.trusted;
        included =
            ap (λ l. verify_inclusion_proof sha pr.inclusion (to_hash sha l) pr.tree_head.tree_head)
              same
            ∙ proves.included;
      })

  -- A proof that SubmitLeafRequest returns is accepted by SigsumProof.Verify for the request's message
  -- under the same policy, with any submit keys that have the request's key under its hash, whatever the
  -- logs answer.
  pub submit_leaf_request-verify_sigsum_proof :
      (keys : Map PublicKey) (pr : SigsumProof)
      → lookup (hash_bytes sha req.public_key) keys ≡ some req.public_key
      → submit_leaf_request sha verify attempts shuffle config req ≡ some (ok pr)
      → verify_sigsum_proof sha verify pr req.message keys config.policy ≡ ok tt
  unfolding submit_leaf_request
  submit_leaf_request-verify_sigsum_proof keys pr known e =
      elim (Result-cases (verify_leaf_request sha verify req)) [
        | inr (inl (x, failed)) ↦ absurd (cc (rw (submit_leaf_request, failed) at e))
        | inr (inr failed) ↦ absurd (cc (rw (submit_leaf_request, failed) at e))
        | inl (leaf, verified) ↦
            let logs = shuffle (entities_with_url config.policy.logs) in
            let (same, signed) = verify_leaf_request-ok leaf verified in
            elim (Bool-cases (length logs == 0)) [
              | inl none_left ↦ absurd (cc (rw (submit_leaf_request, verified, none_left) at e))
              | inr some_left ↦
                  let completed : Completed leaf pr =
                    submit_to_logs-Completed logs leaf pr
                      (rw (submit_leaf_request, verified, some_left) at e) in
                  Completed-verify_sigsum_proof keys pr known signed (rw same completed)
            ]
      ]
