-- ===== src/Monitor/Update.antt =====
-- What a round of MonitorLog does to the tree head and the next leaf.
use sigsum_lib_go.Prelude.{
  ◌^◌, ◌≤◌, ◌<◌, ◌≡◌, sym, ap, ◌∙◌, true, arith, inl, inr, ◌⊎◌, Bool-cases, none, List, All, ltb,
  ◌==◌, ==_iff,
}
use sigsum_lib_go.Result.{ok, Result-cases, >>=-ok, alert_log_error, alert_inconsistent_tree_head}
use sigsum_lib_go.Crypto.{PublicKey, Sha256, Verifier, IsHash}
use sigsum_lib_go.Types.TreeHead.{
  TreeHead, SignedTreeHead, CosignedTreeHead, verify_signed_tree_head,
}
use sigsum_lib_go.Types.Proof.{ConsistencyProof, verify_consistency_proof}
use sigsum_lib_go.Requests.LogRequests as Requests
use sigsum_lib_go.Api.Interfaces.{Log}
use sigsum_lib_go.Monitor.Client.{or_alert, check_tree_head, get_tree_head}
use sigsum_lib_go.Monitor.Range.{or_alert-ok}
use sigsum_lib_go.Monitor.Loop.{
  MonitorState, Event, Config, Progress, looping, state_of, update_tree_head, fetch_loop,
  monitor_round, apply_defaults,
}
use sigsum_lib_go.Monitor.Fetch.{InRange, and_then-ok, fetch_loop-Within}

-- What Go's types say of a log's answers: sizes are uint64, and hashes are arrays of 32 bytes.
pub record IsLog (log : Log) : Type 0 where
  pub tree_head :
      (cth : CosignedTreeHead)
      → log.get_tree_head ≡ ok cth
      → IsHash cth.root_hash × (cth.size < 2 ^ 64)
  pub path :
      (req : Requests.ConsistencyProof) (p : ConsistencyProof)
      → log.get_consistency_proof req ≡ ok p
      → All IsHash p.path

module _ (sha : Sha256) (verify : Verifier) (log_key : PublicKey) where
  -- A tree head that the monitor takes over: signed by the log, and shown to extend the old one.
  pub record Checked (old : TreeHead) (sth : SignedTreeHead) : Type 0 where
    pub signed : verify_signed_tree_head sha verify sth log_key ≡ true
    pub no_smaller : old.size ≤ sth.size
    pub root_hash : IsHash sth.root_hash
    pub bounded : sth.size < 2 ^ 64
    pub proof : ConsistencyProof
    pub path : All IsHash proof.path
    pub consistent : verify_consistency_proof sha proof old sth.tree_head ≡ ok tt

  check_tree_head-Checked :
      (log : Log) (old : TreeHead) (sth : SignedTreeHead) (cth : CosignedTreeHead)
      → IsLog log
      → log.get_tree_head ≡ ok cth
      → check_tree_head sha verify log log_key old cth ≡ ok sth
      → Checked old sth
  unfolding check_tree_head
  check_tree_head-Checked log old sth cth is got e =
      elim (Bool-cases (verify_signed_tree_head sha verify cth.signed_tree_head log_key)) [
        | inr invalid ↦ absurd (cc (rw (check_tree_head, invalid) at e))
        | inl signed ↦ elim (Bool-cases (ltb cth.size old.size)) [
          | inl shrunk ↦ absurd (cc (rw (check_tree_head, signed, shrunk) at e))
          | inr larger ↦
              let (proof, given, e1) =
                >>=-ok
                  (or_alert alert_log_error "get-consistency-proof failed: %v" (
                    log.get_consistency_proof
                      (record { old_size = old.size; new_size = cth.size })))
                  _ sth (rw (check_tree_head, signed, larger) at e) in
              let (_, valid, e2) =
                >>=-ok
                  (or_alert alert_inconsistent_tree_head "consistency proof not valid: %v"
                    (verify_consistency_proof sha proof old cth.tree_head))
                  _ sth e1 in
              let same : cth.signed_tree_head ≡ sth = cc e2 in
              let (root, size) = is.tree_head cth got in
              rw (← same) (record {
                signed = signed;
                no_smaller = ground arith;
                root_hash = root;
                bounded = size;
                proof = proof;
                path =
                    is.path _ proof (
                      or_alert-ok alert_log_error "get-consistency-proof failed: %v" _ proof given);
                consistent =
                    or_alert-ok alert_inconsistent_tree_head "consistency proof not valid: %v" _ tt
                      valid;
              })
        ]
      ]

  get_tree_head-Checked :
      (log : Log) (old : TreeHead) (sth : SignedTreeHead)
      → IsLog log
      → get_tree_head sha verify log log_key old ≡ ok sth
      → Checked old sth
  unfolding get_tree_head
  get_tree_head-Checked log old sth is e =
      let (cth, got, e1) =
        >>=-ok (or_alert alert_log_error "get-tree-head failed: %v" log.get_tree_head) _ sth e in
      check_tree_head-Checked log old sth cth is
        (or_alert-ok alert_log_error "get-tree-head failed: %v" _ cth got) e1

  update_tree_head-cases :
      (log : Log) (s t : MonitorState) (events : List Event)
      → IsLog log
      → update_tree_head sha verify log_key log s ≡ ok (t, events)
      → (s ≡ t)
        ⊎ ((sth : SignedTreeHead) × Checked s.tree_head sth
            × (s.next_leaf_index ≡ s.tree_head.size)
            × (record s { tree_head = sth.tree_head } ≡ t))
  unfolding update_tree_head
  update_tree_head-cases log s t events is e =
      elim (Bool-cases (s.tree_head.size == s.next_leaf_index)) [
        | inr busy ↦ inl (cc (rw (update_tree_head, busy) at e))
        | inl ready ↦ elim (Result-cases (get_tree_head sha verify log log_key s.tree_head)) [
          | inr (inl (x, failed)) ↦ inl (cc (rw (update_tree_head, ready, failed) at e))
          | inr (inr failed) ↦ absurd (cc (rw (update_tree_head, ready, failed) at e))
          | inl (sth, done) ↦ elim (Bool-cases (ltb s.tree_head.size sth.size)) [
            | inr same ↦ inl (cc (rw (update_tree_head, ready, done, same) at e))
            | inl grown ↦ inr (
              sth,
              get_tree_head-Checked log s.tree_head sth is done,
              sym ((==_iff s.tree_head.size s.next_leaf_index).0 ready),
              cc (rw (update_tree_head, ready, done, grown) at e),
            )
          ]
        ]
      ]

  -- A round is the update of the tree head, and the inner loop from there.
  monitor_round-cases :
      (config : Config) (log : Log) (logs : List Log) (s : MonitorState) (p : Progress)
      (events : List Event)
      → monitor_round sha verify config log_key log logs s ≡ ok (p, events)
      → (t : MonitorState) × (first : List Event) × (rest : List Event) × (update_tree_head sha
            verify log_key log s
          ≡ ok (t, first))
        × (fetch_loop sha verify (apply_defaults config) logs (looping t none) ≡ ok (p, rest))
  unfolding monitor_round
  monitor_round-cases config log logs s p events e =
      elim (Result-cases (update_tree_head sha verify log_key log s)) [
        | inr (inl (x, failed)) ↦ absurd (cc (rw (monitor_round, failed) at e))
        | inr (inr failed) ↦ absurd (cc (rw (monitor_round, failed) at e))
        | inl ((t, first), done) ↦
            let (q, one, rest, now, later) =
              and_then-ok (ok (looping t none, first))
                (λ p. fetch_loop sha verify (apply_defaults config) logs p) p events
                (rw (monitor_round, done) at e) in
            let same : looping t none ≡ q = cc now in (t, first, rest, done, rw (← same) at later)
      ]

  -- What a round does to the tree head: nothing, or it takes over one that it checked.
  pub round_tree_head :
      (config : Config) (log : Log) (logs : List Log) (s : MonitorState) (p : Progress)
      (events : List Event)
      → IsLog log
      → InRange s
      → monitor_round sha verify config log_key log logs s ≡ ok (p, events)
      → InRange (state_of p)
        × ((s.tree_head ≡ (state_of p).tree_head)
            ⊎ ((sth : SignedTreeHead) × Checked s.tree_head sth
                × (sth.tree_head ≡ (state_of p).tree_head)))
  round_tree_head config log logs s p events is (h, k) e =
      let (t, first, rest, updated, fetched) = monitor_round-cases config log logs s p events e in
      elim (update_tree_head-cases log s t first is updated) [
        | inl same ↦
            let start : InRange t = rw (← same) (h, k) in
            let (kept, inside) =
              fetch_loop-Within sha verify (apply_defaults config) logs (looping t none) p rest
                start fetched in
            (
              (rw (← kept) inside, rw (← kept, ← same) k),
              inl (ap (λ (m : MonitorState). m.tree_head) same ∙ kept),
            )
        | inr (sth, checked, caught_up, moved) ↦
            let start : InRange t =
              rw (← moved) (omega (arith, caught_up, checked.no_smaller), checked.bounded) in
            let (kept, inside) =
              fetch_loop-Within sha verify (apply_defaults config) logs (looping t none) p rest
                start fetched in
            (
              (rw (← kept) inside, rw (← kept, ← moved) checked.bounded),
              inr (sth, checked, ap (λ (m : MonitorState). m.tree_head) moved ∙ kept),
            )
      ]
