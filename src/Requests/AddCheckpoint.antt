-- ===== src/Requests/AddCheckpoint.antt =====
-- pkg/requests/witness.go
use sigsum_lib_go.Prelude.{
  ℕ, Bool, true, false, not, ◌||◌, Option, none, some, List, [], ◌∷◌, ◌++◌, ltb, ◌==◌,
  if◌then◌else◌,
}
use sigsum_lib_go.Prelude.Text.{codes}
use sigsum_lib_go.Result.{Result, ok, err, errorf}
use sigsum_lib_go.Crypto.{Bytes}
use sigsum_lib_go.Encoding.Decimal.{format_uint}
use sigsum_lib_go.Ascii.Line.{Reader, ◌>>=◌, lift, new_line_reader, get_line}
use sigsum_lib_go.Ascii.Parser.{int_from_decimal}
use sigsum_lib_go.Types.Proof.{ConsistencyProof}
use sigsum_lib_go.Types.ParseProof.{parse_base64}
use sigsum_lib_go.Types.WriteProof.{to_base64}
use sigsum_lib_go.Checkpoint.Checkpoint.{Checkpoint, parse_checkpoint, checkpoint_to_ascii}

pub record AddCheckpoint : Type 0 where
  pub old_size : ℕ
  pub proof : ConsistencyProof
  pub checkpoint : Checkpoint

-- strings.CutPrefix
unfoldable pub cut_prefix : Bytes → Bytes → Option Bytes
cut_prefix [] s = some s
cut_prefix (p ∷ prefix) [] = none
cut_prefix (p ∷ prefix) (c ∷ s) = if p == c then cut_prefix prefix s else none

abbrev pub is_empty : List Bytes → Bool
is_empty [] = true
is_empty (h ∷ path) = false

abbrev pub old_line_size : Option Bytes → Result ℕ
old_line_size none = err (errorf "invalid add-checkpoint request, invalid old line: %q")
old_line_size (some s) = int_from_decimal s

unfoldable pub check_add_checkpoint : AddCheckpoint → Result AddCheckpoint
check_add_checkpoint req =
    let size : ℕ = req.checkpoint.signed_tree_head.size in
    if ltb size req.old_size
    then err (errorf "invalid request, old_size(%d) > size(%d)")
    else if req.old_size == size || req.old_size == 0
    then (if not (is_empty req.proof.path)
        then err (errorf "invalid add-checkpoint request, expected empty consistency proof")
        else ok req)
    else if is_empty req.proof.path
    then err (errorf "invalid add-checkpoint request, consistency proof missing")
    else ok req

unfoldable pub parse_add_checkpoint : Reader AddCheckpoint
parse_add_checkpoint = do
  line ← get_line
  old_size ← lift (old_line_size (cut_prefix (codes "old ") line))
  path ← parse_base64
  if not path.1 then lift (err (errorf "invalid add-checkpoint request: %v")) else (do
    cp ← parse_checkpoint
    lift (check_add_checkpoint (record { old_size = old_size; proof = path.0; checkpoint = cp })))

unfoldable pub add_checkpoint_from_ascii : Bytes → Result AddCheckpoint
add_checkpoint_from_ascii input = (parse_add_checkpoint (new_line_reader input)).0

unfoldable pub add_checkpoint_to_ascii : AddCheckpoint → Result Bytes
add_checkpoint_to_ascii req = ok (
    codes "old "
    ++ (format_uint req.old_size
        ++ 10 ∷ (to_base64 req.proof ++ 10 ∷ checkpoint_to_ascii req.checkpoint)))
