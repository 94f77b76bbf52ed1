-- ===== src/Monitor/Loop.antt =====
-- pkg/monitor/monitor.go: the loop that follows one log. A log may answer differently at each call,
-- so that each call of getTreeHead and each round of the inner loop has a `Log` of its own; the
-- callbacks are the events that a round appends. The timer and the context are left out.
use sigsum_lib_go.Prelude.{
  ℕ, zero, suc, ◌+◌, ◌-◌, Option, none, some, List, [], ◌∷◌, ◌++◌, length, ltb, ◌==◌, if◌then◌else◌,
}
use sigsum_lib_go.Prelude.Bits.{u64}
use sigsum_lib_go.Prelude.Int.{ℤ, pos, negsuc}
use sigsum_lib_go.Prelude.Maps.{Map, lookup}
use sigsum_lib_go.Result.{Result, Error, alert_log_error, ok, err, panic}
use sigsum_lib_go.Crypto.{PublicKey, Sha256, Verifier, hash_bytes}
use sigsum_lib_go.Types.TreeHead.{TreeHead, SignedTreeHead, new_empty_tree_head}
use sigsum_lib_go.Types.Leaf.{Leaf, verify_leaf}
use sigsum_lib_go.Api.Interfaces.{Log}
use sigsum_lib_go.Monitor.Client.{GetLeavesState, new_alert, get_tree_head, get_leaves}

abbrev pub default_batch_size : ℕ
default_batch_size = 512

-- 10 minutes, in nanoseconds
abbrev pub default_query_interval : ℤ
default_query_interval = pos 600000000000

pub record MonitorState : Type 0 where
  pub tree_head : TreeHead
  pub next_leaf_index : ℕ

-- The callbacks of a monitor; an alert's error may be nil.
pub data Event : Type 0 where
  new_tree_head : SignedTreeHead → Event
  new_leaves : ℕ → List ℕ → List Leaf → Event
  alerted : Option Error → Event

-- A nil SubmitKeys is `none`.
pub record Config : Type 0 where
  pub query_interval : ℤ
  pub batch_size : ℕ
  pub submit_keys : Option (Map PublicKey)

abbrev pub positive_interval : ℤ → ℤ
positive_interval (pos zero) = default_query_interval
positive_interval (pos (suc n)) = pos (suc n)
positive_interval (negsuc n) = default_query_interval

unfoldable pub apply_defaults : Config → Config
apply_defaults c = record {
  query_interval = positive_interval c.query_interval;
  batch_size = if c.batch_size == 0 then default_batch_size else c.batch_size;
  submit_keys = c.submit_keys;
}

-- The indices, the leaves and the alerts of filterLeaves.
pub record Filtered : Type 0 where
  pub indices : List ℕ
  pub leaves : List Leaf
  pub alerts : List Error

abbrev pub no_leaves : Filtered
no_leaves = record { indices = []; leaves = []; alerts = [] }

unfoldable pub all_indices : ℕ → List Leaf → List ℕ
all_indices index [] = []
all_indices index (leaf ∷ leaves) = u64 index ∷ all_indices (index + 1) leaves

module _ (sha : Sha256) (verify : Verifier) where
  -- One leaf, in front of what the ones after it gave.
  unfoldable pub add_filtered : Option PublicKey → ℕ → Leaf → Filtered → Filtered
  add_filtered none index leaf rest = rest
  add_filtered (some key) index leaf rest =
      if verify_leaf sha verify leaf key
      then record rest { indices = u64 index ∷ rest.indices; leaves = leaf ∷ rest.leaves }
      else record rest {
        alerts = new_alert alert_log_error "invalid signature on leaf %d, keyhash %x" ∷ rest.alerts;
      }

  unfoldable pub filter_known : Map PublicKey → ℕ → List Leaf → Filtered
  filter_known keys index [] = no_leaves
  filter_known keys index (leaf ∷ leaves) =
      add_filtered (lookup leaf.key_hash keys) index leaf (filter_known keys (index + 1) leaves)

  unfoldable pub filter_leaves : Option (Map PublicKey) → List Leaf → ℕ → Filtered
  filter_leaves none leaves start = record {
    indices = all_indices start leaves;
    leaves = leaves;
    alerts = [];
  }
  filter_leaves (some keys) leaves start = filter_known keys start leaves

  -- The first half of a round: a new tree head, when all leaves of the last one are processed.
  unfoldable pub update_tree_head :
      PublicKey → Log → MonitorState → Result (MonitorState × List Event)
  update_tree_head log_key log s =
      if s.tree_head.size == s.next_leaf_index
      then elim (get_tree_head sha verify log log_key s.tree_head) [
        | panic ↦ panic
        | err e ↦ ok (s, alerted (some e) ∷ [])
        | ok sth ↦
            if ltb s.tree_head.size sth.size
            then ok (record s { tree_head = sth.tree_head }, new_tree_head sth ∷ [])
            else ok (s, [])
      ]
      else ok (s, [])

unfoldable pub end_index : Config → MonitorState → ℕ
end_index config s =
    if ltb config.batch_size (s.tree_head.size - s.next_leaf_index)
    then u64 (s.next_leaf_index + config.batch_size)
    else s.tree_head.size

-- MonitorLog hands `err`, which is nil at that point, to the alert callback.
abbrev pub nil_alerts : List Error → List Event
nil_alerts [] = []
nil_alerts (a ∷ alerts) = alerted none ∷ nil_alerts alerts

-- Where the inner loop stands: still in the loop, with the state of getLeaves, or out of it.
pub data Progress : Type 0 where
  looping : MonitorState → Option GetLeavesState → Progress
  left : MonitorState → Progress

abbrev pub state_of : Progress → MonitorState
state_of (looping s gl) = s
state_of (left s) = s

-- The rounds after `m`, with the events in order.
unfoldable pub and_then :
    Result (Progress × List Event)
    → (Progress → Result (Progress × List Event))
    → Result (Progress × List Event)
and_then panic k = panic
and_then (err e) k = err e
and_then (ok (p, events)) k = elim (k p) [
  | panic ↦ panic
  | err e ↦ err e
  | ok (p', events') ↦ ok (p', events ++ events')
]

module _ (sha : Sha256) (verify : Verifier) (config : Config) where
  -- The body of the inner loop.
  unfoldable pub fetch : Log → MonitorState → Option GetLeavesState → Result (Progress × List Event)
  fetch log s gl =
      elim (get_leaves sha log gl s.tree_head
        (record { start_index = s.next_leaf_index; end_index = end_index config s })) [
          | panic ↦ panic
          | err e ↦ ok (left s, alerted (some e) ∷ [])
          | ok (all_leaves, gl') ↦
              let f = filter_leaves sha verify config.submit_keys all_leaves s.next_leaf_index in
              let next = u64 (s.next_leaf_index + length all_leaves) in
              ok (
                looping (record s { next_leaf_index = next }) gl',
                nil_alerts f.alerts ++ new_leaves next f.indices f.leaves ∷ [],
              )
        ]

  -- The inner loop, for as long as the list of logs has one for the next round.
  unfoldable pub fetch_loop : List Log → Progress → Result (Progress × List Event)
  fetch_loop logs (left s) = ok (left s, [])
  fetch_loop [] (looping s gl) =
      if ltb s.next_leaf_index s.tree_head.size then ok (looping s gl, []) else ok (left s, [])
  fetch_loop (log ∷ logs) (looping s gl) =
      if ltb s.next_leaf_index s.tree_head.size
      then and_then (fetch log s gl) (λ p. fetch_loop logs p)
      else ok (left s, [])

-- One round of MonitorLog. The defaults are filled in at each round here and once in the code: filling
-- them in again changes nothing.
unfoldable pub monitor_round :
    Sha256
    → Verifier
    → Config
    → PublicKey
    → Log
    → List Log
    → MonitorState
    → Result (Progress × List Event)
monitor_round sha verify c log_key log logs s =
    let config = apply_defaults c in
    elim (update_tree_head sha verify log_key log s) [
      | panic ↦ panic
      | err e ↦ err e
      | ok (s', events) ↦
          and_then (ok (looping s' none, events)) (λ p. fetch_loop sha verify config logs p)
    ]

-- The state that StartMonitoring starts a log from.
unfoldable pub initial_state : Sha256 → Map MonitorState → PublicKey → MonitorState
initial_state sha states log_key = elim (lookup (hash_bytes sha log_key) states) [
  | some s ↦ s
  | none ↦ record { tree_head = new_empty_tree_head sha; next_leaf_index = 0 }
]
