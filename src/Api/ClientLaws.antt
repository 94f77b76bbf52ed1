-- ===== src/Api/ClientLaws.antt =====
-- How many leaves the HTTP client takes from an answer.
use sigsum_lib_go.Prelude.{
  ℕ, zero, suc, ◌-◌, ◌^◌, ◌≤◌, ◌<◌, ◌≡◌, refl, arith, true, false, ◌⊎◌, inl, inr, Bool-cases, List,
  [], ◌∷◌, ◌++◌, length, length-append, leb, ◌==◌,
}
use sigsum_lib_go.Result.{
  Result, eof, unexpected_eof, empty_line, unwanted_signature, errorf, api_error,
  error_with_old_size, alert, ok, err, panic,
}
use sigsum_lib_go.Crypto.{Bytes}
use sigsum_lib_go.Ascii.Line.{LineReader, new_line_reader}
use sigsum_lib_go.Types.Leaf.{Leaf}
use sigsum_lib_go.Types.ParseLeaf.{
  parse_leaf, some_leaves, add_leaf, leaves_loop, leaves_from_ascii,
}
use sigsum_lib_go.Requests.LogRequests.{Leaves}
use sigsum_lib_go.Api.Http.{Request, Response}
use sigsum_lib_go.Api.Client.{do_request, get, max_leaves, client_get_leaves}

some_leaves-ok : (xs ys : List Leaf) → some_leaves xs ≡ ok ys → xs ≡ ys
some_leaves-ok [] ys e = absurd cc
some_leaves-ok (x ∷ xs) ys e = cc e

-- The outcomes of a round that ends well: the end of the input, or one more leaf under the limit.
add_leaf-cases :
    (next : List Leaf → LineReader → Result (List Leaf) × LineReader) (m : ℕ)
    (leaves found : List Leaf) (one : Result Leaf) (r : LineReader)
    → (add_leaf next m leaves one r).0 ≡ ok found
    → ((one ≡ err eof) × (some_leaves leaves ≡ ok found))
      ⊎ ((leaf : Leaf) × (one ≡ ok leaf)
          × (length leaves < m)
          × ((next (leaves ++ leaf ∷ []) r).0 ≡ ok found))
unfolding add_leaf
add_leaf-cases next m leaves found (ok leaf) r e = elim (Bool-cases (leb m (length leaves))) [
  | inl full ↦ absurd (cc (rw (add_leaf, full) at e))
  | inr room ↦ inr (leaf, refl, ground arith, rw (add_leaf, room) at e)
]
add_leaf-cases next m leaves found (err eof) r e = inl (refl, e)
add_leaf-cases next m leaves found (err unexpected_eof) r e = absurd cc
add_leaf-cases next m leaves found (err empty_line) r e = absurd cc
add_leaf-cases next m leaves found (err unwanted_signature) r e = absurd cc
add_leaf-cases next m leaves found (err (errorf s)) r e = absurd cc
add_leaf-cases next m leaves found (err (api_error n x)) r e = absurd cc
add_leaf-cases next m leaves found (err (error_with_old_size n)) r e = absurd cc
add_leaf-cases next m leaves found (err (alert t x)) r e = absurd cc
add_leaf-cases next m leaves found panic r e = absurd cc

-- The leaves that are found are at least those so far.
leaves_loop-length :
    (rounds m : ℕ) (leaves found : List Leaf) (r : LineReader)
    → (leaves_loop rounds m leaves r).0 ≡ ok found
    → length leaves ≤ length found
unfolding leaves_loop
leaves_loop-length zero m leaves found r e = absurd cc
leaves_loop-length (suc rounds) m leaves found r e =
    elim (add_leaf-cases (leaves_loop rounds m) m leaves found (parse_leaf r).0 (parse_leaf r).1
      e) [
        | inl (_, all) ↦ rw (some_leaves-ok leaves found all) (omega arith)
        | inr (leaf, _, _, later) ↦ omega (
          arith,
          length-append leaves (leaf ∷ []),
          leaves_loop-length rounds m (leaves ++ leaf ∷ []) found (parse_leaf r).1 later,
        )
      ]

-- Another limit that is not below their number changes nothing.
leaves_loop_limit :
    (rounds m limit : ℕ) (leaves found : List Leaf) (r : LineReader)
    → (leaves_loop rounds m leaves r).0 ≡ ok found
    → length found ≤ limit
    → (leaves_loop rounds limit leaves r).0 ≡ ok found
unfolding leaves_loop add_leaf
leaves_loop_limit zero m limit leaves found r e h = absurd cc
leaves_loop_limit (suc rounds) m limit leaves found r e h =
    elim (add_leaf-cases (leaves_loop rounds m) m leaves found (parse_leaf r).0 (parse_leaf r).1
      e) [
        | inl (end, all) ↦ rw (leaves_loop, end, add_leaf) all
        | inr (leaf, one, _, later) ↦
            let more =
              leaves_loop-length rounds m (leaves ++ leaf ∷ []) found (parse_leaf r).1 later in
            let room : leb limit (length leaves) ≡ false =
              ground (arith, length-append leaves (leaf ∷ []), more, h) in
            rw (leaves_loop, one, add_leaf, room)
              (leaves_loop_limit rounds m limit (leaves ++ leaf ∷ []) found (parse_leaf r).1 later
                h)
      ]

leaves_from_ascii_limit :
    (body : Bytes) (m limit : ℕ) (found : List Leaf)
    → leaves_from_ascii body m ≡ ok found
    → length found ≤ limit
    → leaves_from_ascii body limit ≡ ok found
unfolding leaves_from_ascii
leaves_from_ascii_limit body m limit found e h =
    leaves_loop_limit (suc (length (new_line_reader body).lines)) m limit [] found
      (new_line_reader body) e h

-- GetLeaves does not hold an answer to the range of its request: for a range of at most 2 ^ 63 indices
-- that is not empty, it returns all the leaves of a response with status 200, up to 2 ^ 63 of them,
-- whatever number of leaves it asked for.
pub client_get_leaves_all :
    (transport : Request → Result Response) (base : Bytes) (req : Leaves) (rsp : Response) (m : ℕ)
    (found : List Leaf)
    → req.start_index < req.end_index
    → req.end_index < 2 ^ 64
    → req.end_index - req.start_index ≤ 2 ^ 63
    → ((r : Request) → transport r ≡ ok rsp)
    → rsp.status_code ≡ 200
    → leaves_from_ascii rsp.body m ≡ ok found
    → length found ≤ 2 ^ 63
    → client_get_leaves transport base req ≡ ok found
unfolding client_get_leaves get do_request max_leaves
client_get_leaves_all transport base req rsp m found range top wide answer status read few =
    let some_range : leb req.end_index req.start_index ≡ false = ground arith in
    let good : (rsp.status_code == 200) ≡ true = ground arith in
    let taken =
      leaves_from_ascii_limit rsp.body m (max_leaves req) found read
        (omega (arith, range, top, wide, few)) in
    rw (client_get_leaves, some_range, get, do_request, answer _, good) taken
