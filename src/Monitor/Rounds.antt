-- ===== src/Monitor/Rounds.antt =====
-- Every run of MonitorLog: a sequence of rounds, whatever the log answers.
use sigsum_lib_go.Prelude.{
  ◌^◌, ◌≤◌, ◌<◌, ◌≡◌, refl, ap, ◌∙◌, true, arith, inl, inr, ◌⊎◌, List, length, All,
}
use sigsum_lib_go.Result.{ok}
use sigsum_lib_go.Crypto.{Hash, PublicKey, Sha256, Verifier, IsHash}
use sigsum_lib_go.Merkle.Spec.{merkle_tree_hash}
use sigsum_lib_go.Types.TreeHead.{TreeHead, SignedTreeHead, verify_signed_tree_head}
use sigsum_lib_go.Types.Growth.{Extends, merkle_tree_hash-Extends, consistent-Extends}
use sigsum_lib_go.Api.Interfaces.{Log}
use sigsum_lib_go.Monitor.Loop.{MonitorState, Event, Config, Progress, state_of, monitor_round}
use sigsum_lib_go.Monitor.Update.{IsLog, round_tree_head}
use sigsum_lib_go.Monitor.Fetch.{InRange}

module _ (sha : Sha256) (verify : Verifier) (config : Config) (log_key : PublicKey) where
  -- The states that rounds lead to, with the logs that answered in them.
  pub data Rounds : MonitorState → MonitorState → Type 0 where
    done : {s : MonitorState} → Rounds s s
    round :
        {s t : MonitorState} (log : Log) (logs : List Log) (p : Progress) (events : List Event)
        → IsLog log
        → monitor_round sha verify config log_key log logs s ≡ ok (p, events)
        → Rounds (state_of p) t
        → Rounds s t

  -- In any run of the monitor, whatever the log answers, the next leaf stays inside the tree and the
  -- tree does not shrink, if the next leaf is inside the tree at the start.
  pub Rounds-InRange :
      (s t : MonitorState)
      → InRange s
      → Rounds s t
      → InRange t × (s.tree_head.size ≤ t.tree_head.size)
  Rounds-InRange s t h done = (h, omega arith)
  Rounds-InRange s t h (round log logs p events is now run) =
      let (inside, moved) =
        round_tree_head sha verify log_key config log logs s p events is h now in
      let (end, later) = Rounds-InRange (state_of p) t inside run in
      elim moved [
        | inl same ↦ (end, rw same later)
        | inr (sth, checked, new) ↦
            (end, omega (arith, checked.no_smaller, ap (λ (th : TreeHead). th.size) new, later))
      ]

  -- In any run of the monitor, whatever the log answers, the tree head at the end is the one at the
  -- start, or one with a signature that verifies under the log's key, if the next leaf is inside the
  -- tree at the start.
  pub Rounds-signed :
      (s t : MonitorState)
      → InRange s
      → Rounds s t
      → (s.tree_head ≡ t.tree_head)
        ⊎ ((sth : SignedTreeHead) × (sth.tree_head ≡ t.tree_head)
            × (verify_signed_tree_head sha verify sth log_key ≡ true))
  Rounds-signed s t h done = inl refl
  Rounds-signed s t h (round log logs p events is now run) =
      let (inside, moved) =
        round_tree_head sha verify log_key config log logs s p events is h now in
      elim (Rounds-signed (state_of p) t inside run) [
        | inr signed ↦ inr signed
        | inl kept ↦ elim moved [
          | inl same ↦ inl (same ∙ kept)
          | inr (sth, checked, new) ↦ inr (sth, new ∙ kept, checked.signed)
        ]
      ]

  -- In any run of the monitor, whatever the log answers, if the tree head at the end is the one of some
  -- leaf hashes, then the one at the start is no larger and its root is the one of the first of these
  -- leaves, or two byte strings with one SHA-256 hash are at hand. Sizes are uint64, hashes are 32
  -- bytes long, and the next leaf is inside the tree at the start.
  pub Rounds-append_only :
      (s t : MonitorState) (leaves : List Hash)
      → InRange s
      → Rounds s t
      → IsHash s.tree_head.root_hash
      → length leaves < 2 ^ 64
      → All IsHash leaves
      → t.tree_head.size ≡ length leaves
      → t.tree_head.root_hash ≡ merkle_tree_hash sha leaves
      → Extends sha s.tree_head leaves
  Rounds-append_only s t leaves h done hr n hl size root =
      merkle_tree_hash-Extends sha t.tree_head leaves size root
  Rounds-append_only s t leaves h (round log logs p events is now run) hr n hl size root =
      let (inside, moved) =
        round_tree_head sha verify log_key config log logs s p events is h now in
      elim moved [
        | inl same ↦
            rw same
              (Rounds-append_only (state_of p) t leaves inside run (rw (← same) hr) n hl size root)
        | inr (sth, checked, new) ↦
            let later =
              Rounds-append_only (state_of p) t leaves inside run (rw (← new) checked.root_hash) n
                hl size root in
            consistent-Extends sha leaves checked.proof s.tree_head sth.tree_head hr checked.path n
              hl checked.no_smaller checked.consistent (rw new later)
      ]
