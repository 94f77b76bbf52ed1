-- ===== src/Submit/Submission.antt =====
-- pkg/submit/submit.go. The log may answer differently at each round of a loop, so that each round has an
-- `Attempt` of its own, the log's answers and the end of the sleep after them; `none` is a submission that is
-- still waiting when the attempts are over. The shuffle of the logs is a parameter.
use sigsum_lib_go.Prelude.{
  zero, suc, true, false, Option, none, some, List, [], ◌∷◌, length, ltb, ◌==◌, if◌then◌else◌,
}
use sigsum_lib_go.Prelude.Int.{ℤ, pos, negsuc}
use sigsum_lib_go.Prelude.Text.{codes}
use sigsum_lib_go.Result.{Result, ok, err, panic, errorf}
use sigsum_lib_go.Crypto.{Bytes, Hash, Sha256, Verifier, hash_bytes, zeros}
use sigsum_lib_go.Types.TreeHead.{CosignedTreeHead, Signer}
use sigsum_lib_go.Types.Leaf.{sign_leaf_message, to_hash}
use sigsum_lib_go.Types.Leaf as Types
use sigsum_lib_go.Types.Proof.{InclusionProof, verify_inclusion_proof}
use sigsum_lib_go.Policy.Policy.{Policy, Entity, verify_cosigned_tree_head, entities_with_url}
use sigsum_lib_go.Requests.LogRequests.{Leaf, verify_leaf_request}
use sigsum_lib_go.Token.SubmitToken.{SubmitHeader, make_token}
use sigsum_lib_go.Api.Errors.{is_status}
use sigsum_lib_go.Api.Interfaces.{Log}
use sigsum_lib_go.Proof.SigsumProof.{SigsumProof, new_short_leaf}

-- 2 and 45 seconds, in nanoseconds
abbrev pub default_poll_delay : ℤ
default_poll_delay = pos 2000000000

abbrev pub default_timeout : ℤ
default_timeout = pos 45000000000

abbrev pub default_user_agent : Bytes
default_user_agent = codes "sigsum-go submit"

-- The HTTP client of the configuration stands in the attempts.
pub record Config : Type 0 where
  pub domain : Bytes
  pub rate_limit_signer : Option Signer
  pub per_log_timeout : ℤ
  pub poll_delay : ℤ
  pub user_agent : Bytes
  pub policy : Policy

abbrev pub positive_or : ℤ → ℤ → ℤ
positive_or default (pos zero) = default
positive_or default (pos (suc n)) = pos (suc n)
positive_or default (negsuc n) = default

unfoldable pub get_poll_delay : Config → ℤ
get_poll_delay c = positive_or default_poll_delay c.poll_delay

unfoldable pub get_timeout : Config → ℤ
get_timeout c = positive_or default_timeout c.per_log_timeout

unfoldable pub get_user_agent : Config → Bytes
get_user_agent c = if length c.user_agent == 0 then default_user_agent else c.user_agent

pub record Attempt : Type 0 where
  pub log : Log
  pub sleep : Result (Unit {0})

-- After a sleep that the context did not cut short.
abbrev pub wait {ℓ} : {A : Type ℓ} → Result (Unit {0}) → Option (Result A) → Option (Result A)
wait (ok _) next = next
wait (err e) next = some (err e)
wait panic next = some panic

-- The first loop: until the leaf is persisted; the attempts that are left.
unfoldable pub persist_loop :
    List Attempt → Leaf → Option SubmitHeader → Option (Result (List Attempt))
persist_loop [] req header = none
persist_loop (a ∷ attempts) req header =
    let next = persist_loop attempts req header in
    elim (a.log.add_leaf req header) [
      | ok true ↦ some (ok attempts)
      | ok false ↦ wait a.sleep next
      | err e ↦ some (err e)
      | panic ↦ some panic
    ]

-- The proof before its caller sets the leaf.
abbrev pub proof_of : Hash → CosignedTreeHead → InclusionProof → SigsumProof
proof_of log_key_hash cth inclusion = record {
  log_key_hash = log_key_hash;
  leaf = record { signature = zeros 64; key_hash = zeros 32 };
  tree_head = cth;
  inclusion = inclusion;
}

module _ (sha : Sha256) (verify : Verifier) where
  -- The end of a round of the second loop.
  unfoldable pub check_inclusion :
      Hash → Hash → CosignedTreeHead → InclusionProof → Result SigsumProof
  check_inclusion log_key_hash leaf_hash cth inclusion =
      elim (verify_inclusion_proof sha inclusion leaf_hash cth.tree_head) [
        | ok _ ↦ ok (proof_of log_key_hash cth inclusion)
        | err _ ↦ err (errorf "inclusion proof invalid: %v")
        | panic ↦ panic
      ]

  -- From the tree head on that the policy accepts.
  unfoldable pub ask_inclusion :
      Attempt
      → Hash
      → Hash
      → CosignedTreeHead
      → Option (Result SigsumProof)
      → Option (Result SigsumProof)
  ask_inclusion a log_key_hash leaf_hash cth next =
      if cth.size == 0
      then wait a.sleep next
      else elim (a.log.get_inclusion_proof (record { size = cth.size; leaf_hash = leaf_hash })) [
        | ok inclusion ↦ some (check_inclusion log_key_hash leaf_hash cth inclusion)
        | err e ↦
            if is_status 404 e
            then wait a.sleep next
            else some (err (errorf "failed to get inclusion proof: %v"))
        | panic ↦ some panic
      ]

  unfoldable pub check_tree_head :
      Policy
      → Attempt
      → Hash
      → Hash
      → CosignedTreeHead
      → Option (Result SigsumProof)
      → Option (Result SigsumProof)
  check_tree_head policy a log_key_hash leaf_hash cth next =
      elim (verify_cosigned_tree_head sha verify policy log_key_hash cth) [
        | ok _ ↦ ask_inclusion a log_key_hash leaf_hash cth next
        | err _ ↦ some (err (errorf "verifying tree head failed: %v"))
        | panic ↦ some panic
      ]

  -- The second loop: until there is an inclusion proof.
  unfoldable pub proof_loop : List Attempt → Policy → Hash → Hash → Option (Result SigsumProof)
  proof_loop [] policy log_key_hash leaf_hash = none
  proof_loop (a ∷ attempts) policy log_key_hash leaf_hash =
      let next = proof_loop attempts policy log_key_hash leaf_hash in
      elim a.log.get_tree_head [
        | ok cth ↦ check_tree_head policy a log_key_hash leaf_hash cth next
        | err e ↦ some (err e)
        | panic ↦ some panic
      ]

  unfoldable pub submit_leaf_to_log :
      List Attempt → Policy → Hash → Option SubmitHeader → Leaf → Hash → Option (Result SigsumProof)
  submit_leaf_to_log attempts policy log_key_hash header req leaf_hash =
      elim (persist_loop attempts req header) [
        | some (ok rest) ↦ proof_loop rest policy log_key_hash leaf_hash
        | some (err e) ↦ some (err e)
        | some panic ↦ some panic
        | none ↦ none
      ]

  -- The submit header for a log, if there is a rate limit signer and a domain.
  unfoldable pub header_for : Config → Entity → Result (Option SubmitHeader)
  header_for config entity = elim config.rate_limit_signer [
    | none ↦ ok none
    | some signer ↦
        if ltb 0 (length config.domain)
        then (elim (make_token signer entity.public_key) [
          | ok sig ↦ ok (some (record { domain = config.domain; token = sig }))
          | err _ ↦ err (errorf "creating submit token failed: %v")
          | panic ↦ panic
        ])
        else ok none
  ]

  -- A log's result, or the logs after it when it failed.
  unfoldable pub or_next :
      Types.Leaf
      → Option (Result SigsumProof)
      → Option (Result SigsumProof)
      → Option (Result SigsumProof)
  or_next leaf (some (ok pr)) next = some (ok (record pr { leaf = new_short_leaf leaf }))
  or_next leaf (some (err e)) next = next
  or_next leaf (some panic) next = some panic
  or_next leaf none next = none

  module _ (attempts : Entity → List Attempt) (shuffle : List Entity → List Entity)
      (config : Config) (req : Leaf) where
    unfoldable pub submit_to_logs : List Entity → Types.Leaf → Option (Result SigsumProof)
    submit_to_logs [] leaf = some (err (errorf "all logs failed, giving up"))
    submit_to_logs (entity ∷ logs) leaf =
        let next = submit_to_logs logs leaf in
        elim (header_for config entity) [
          | err e ↦ some (err e)
          | panic ↦ some panic
          | ok header ↦
              or_next leaf
                (submit_leaf_to_log (attempts entity) config.policy
                  (hash_bytes sha entity.public_key) header req (to_hash sha leaf))
                next
        ]

    unfoldable pub submit_leaf_request : Option (Result SigsumProof)
    submit_leaf_request = elim (verify_leaf_request sha verify req) [
      | err _ ↦ some (err (errorf "verifying leaf request failed: %v"))
      | panic ↦ some panic
      | ok leaf ↦
          let logs = shuffle (entities_with_url config.policy.logs) in
          if length logs == 0
          then some (err (errorf "no logs defined in policy"))
          else submit_to_logs logs leaf
    ]

  unfoldable pub submit_message :
      (Entity → List Attempt)
      → (List Entity → List Entity)
      → Config
      → Signer
      → Hash
      → Option (Result SigsumProof)
  submit_message attempts shuffle config signer message =
      elim (sign_leaf_message sha signer message) [
        | err e ↦ some (err e)
        | panic ↦ some panic
        | ok sig ↦
            submit_leaf_request attempts shuffle config
              (record { message = message; signature = sig; public_key = signer.public })
      ]
