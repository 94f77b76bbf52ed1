-- ===== src/Monitor/Fetch.antt =====
-- The inner loop of MonitorLog.
use sigsum_lib_go.Prelude.{
  ◌+◌, ◌-◌, ◌^◌, ◌≤◌, ◌<◌, ◌≡◌, ◌≢◌, refl, ◌∙◌, arith, inl, inr, ◌⊎◌, Bool-cases, Option, List, [],
  ◌∷◌, length, All, false, ltb, ltb→lt,
}
use sigsum_lib_go.Prelude.Bits.{u64}
use sigsum_lib_go.Result.{Result, ok, err, panic, Result-cases}
use sigsum_lib_go.Crypto.{Sha256, Verifier}
use sigsum_lib_go.Types.Leaf.{Leaf}
use sigsum_lib_go.Requests.LogRequests.{Leaves}
use sigsum_lib_go.Api.Interfaces.{Log}
use sigsum_lib_go.Monitor.Client.{GetLeavesState, get_leaves}
use sigsum_lib_go.Monitor.Range.{get_leaves-end, get_leaves-answer}
use sigsum_lib_go.Monitor.Loop.{
  MonitorState, Event, Config, Progress, looping, left, state_of, end_index, fetch, and_then,
  fetch_loop,
}

-- The next leaf is at most at the end of the tree.
abbrev pub InRange : MonitorState → Type 0
InRange s = (s.next_leaf_index ≤ s.tree_head.size) × (s.tree_head.size < 2 ^ 64)

-- An answer has at least one leaf, and its end is a uint64.
abbrev pub AnswersLeaves : Log → Type 0
AnswersLeaves log =
    (req : Leaves) (leaves : List Leaf)
    → log.get_leaves req ≡ ok leaves
    → (1 ≤ length leaves) × (req.start_index + length leaves < 2 ^ 64)

pub and_then-ok :
    (m : Result (Progress × List Event)) (k : Progress → Result (Progress × List Event))
    (q : Progress) (events : List Event)
    → and_then m k ≡ ok (q, events)
    → (p : Progress) × (first : List Event) × (rest : List Event) × (m ≡ ok (p, first))
      × (k p ≡ ok (q, rest))
unfolding and_then
and_then-ok panic k q events e = absurd cc
and_then-ok (err x) k q events e = absurd cc
and_then-ok (ok (p, first)) k q events e = elim (Result-cases (k p)) [
  | inl ((p', rest), done) ↦
      let same : p' ≡ q = cc (rw (and_then, done) at e) in (p, first, rest, refl, rw (← same) done)
  | inr (inl (x, failed)) ↦ absurd (cc (rw (and_then, failed) at e))
  | inr (inr failed) ↦ absurd (cc (rw (and_then, failed) at e))
]

module _ (sha : Sha256) (verify : Verifier) (config : Config) where
  abbrev pub request_of : MonitorState → Leaves
  request_of s = record { start_index = s.next_leaf_index; end_index = end_index config s }

  -- A round of the inner loop leaves it, or moves forward by the leaves that it got.
  pub fetch-cases :
      (log : Log) (s : MonitorState) (gl : Option GetLeavesState) (p : Progress)
      (events : List Event)
      → fetch sha verify config log s gl ≡ ok (p, events)
      → (left s ≡ p)
        ⊎ ((leaves : List Leaf) × (next : Option GetLeavesState) × (get_leaves sha log gl
                s.tree_head
                (request_of s)
              ≡ ok (leaves, next))
            × (looping (record s { next_leaf_index = u64 (s.next_leaf_index + length leaves) }) next
                ≡ p))
  unfolding fetch
  fetch-cases log s gl p events e =
      elim (Result-cases (get_leaves sha log gl s.tree_head (request_of s))) [
        | inl ((leaves, next), done) ↦ inr (leaves, next, done, cc (rw (fetch, done) at e))
        | inr (inl (x, failed)) ↦ inl (cc (rw (fetch, failed) at e))
        | inr (inr failed) ↦ absurd (cc (rw (fetch, failed) at e))
      ]

  pub fetch_loop-cases :
      (log : Log) (logs : List Log) (s : MonitorState) (gl : Option GetLeavesState) (q : Progress)
      (events : List Event)
      → fetch_loop sha verify config (log ∷ logs) (looping s gl) ≡ ok (q, events)
      → (left s ≡ q)
        ⊎ ((s.next_leaf_index < s.tree_head.size)
            × (p : Progress) × (first : List Event) × (rest : List Event) × (fetch sha verify config
                  log s gl
                ≡ ok (p, first))
            × (fetch_loop sha verify config logs p ≡ ok (q, rest)))
  unfolding fetch_loop
  fetch_loop-cases log logs s gl q events e =
      elim (Bool-cases (ltb s.next_leaf_index s.tree_head.size)) [
        | inr done ↦ inl (cc (rw (fetch_loop, done) at e))
        | inl more ↦
            let (p, first, rest, now, later) =
              and_then-ok (fetch sha verify config log s gl)
                (λ p. fetch_loop sha verify config logs p) q events (rw (fetch_loop, more) at e) in
            inr (ltb→lt _ _ more, p, first, rest, now, later)
      ]

  -- In the inner loop the tree head stays, and the next leaf stays in range.
  abbrev Within : MonitorState → MonitorState → Type 0
  Within s t = (s.tree_head ≡ t.tree_head) × (t.next_leaf_index ≤ s.tree_head.size)

  fetch-Within :
      (log : Log) (s : MonitorState) (gl : Option GetLeavesState) (p : Progress)
      (events : List Event)
      → s.next_leaf_index < s.tree_head.size
      → s.tree_head.size < 2 ^ 64
      → fetch sha verify config log s gl ≡ ok (p, events)
      → Within s (state_of p)
  fetch-Within log s gl p events more h e = elim (fetch-cases log s gl p events e) [
    | inl out ↦ rw (← out) (refl, omega (arith, more))
    | inr (leaves, next, done, on) ↦
        rw (← on)
          (refl, get_leaves-end sha log gl s.tree_head (request_of s) leaves next h more done)
  ]

  pub fetch_loop-Within :
      (logs : List Log) (p q : Progress) (events : List Event)
      → InRange (state_of p)
      → fetch_loop sha verify config logs p ≡ ok (q, events)
      → Within (state_of p) (state_of q)
  unfolding fetch_loop
  fetch_loop-Within logs (left s) q events (h, k) e =
      let same : left s ≡ q = cc e in rw (← same) (refl, h)
  fetch_loop-Within [] (looping s gl) q events (h, k) e =
      elim (Bool-cases (ltb s.next_leaf_index s.tree_head.size)) [
        | inl more ↦
            let same : looping s gl ≡ q = cc (rw (fetch_loop, more) at e) in rw (← same) (refl, h)
        | inr done ↦
            let same : left s ≡ q = cc (rw (fetch_loop, done) at e) in rw (← same) (refl, h)
      ]
  fetch_loop-Within (log ∷ logs) (looping s gl) q events (h, k) e =
      elim (fetch_loop-cases log logs s gl q events e) [
        | inl same ↦ rw (← same) (refl, h)
        | inr (more, p, first, rest, now, later) ↦
            let (kept, inside) = fetch-Within log s gl p first more k now in
            let (kept', inside') =
              fetch_loop-Within logs p q rest (rw (← kept) inside, rw (← kept) k) later in
            (kept ∙ kept', rw kept inside')
      ]

  -- Enough answers end the inner loop: with one for each leaf that is missing, if the log answers each
  -- request with at least one leaf and the indices of its leaves are uint64, then the loop has left
  -- or panicked, and does not go on.
  pub fetch_loop-ends :
      (logs : List Log) (s t : MonitorState) (gl gl' : Option GetLeavesState) (events : List Event)
      → InRange s
      → All AnswersLeaves logs
      → s.tree_head.size - s.next_leaf_index ≤ length logs
      → fetch_loop sha verify config logs (looping s gl) ≢ ok (looping t gl', events)
  unfolding fetch_loop
  fetch_loop-ends [] s t gl gl' events (h, k) answers n e =
      let done : ltb s.next_leaf_index s.tree_head.size ≡ false = ground arith in
      cc (rw (fetch_loop, done) at e)
  fetch_loop-ends (log ∷ logs) s t gl gl' events (h, k) (answer, answers) n e =
      elim (fetch_loop-cases log logs s gl (looping t gl') events e) [
        | inl same ↦ cc same
        | inr (more, p, first, rest, now, later) ↦ elim (fetch-cases log s gl p first now) [
          | inl out ↦ cc (rw (← out, fetch_loop) at later)
          | inr (leaves, next, done, on) ↦
              let (some_leaves, few) =
                answer (request_of s) leaves
                  (get_leaves-answer sha log gl s.tree_head (request_of s) leaves next done) in
              fetch_loop-ends logs
                (record s { next_leaf_index = u64 (s.next_leaf_index + length leaves) }) t next gl'
                rest
                (get_leaves-end sha log gl s.tree_head (request_of s) leaves next k more done, k)
                answers (omega (arith, some_leaves, few, h, k, n)) (rw (← on) at later)
        ]
      ]
