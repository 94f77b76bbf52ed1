-- ===== src/Policy/Config.antt =====
-- pkg/policy/config.go: the policy file.
use sigsum_lib_go.Prelude.{
  ℕ, zero, suc, ◌-◌, ◌^◌, Bool, true, false, ◌&&◌, ◌||◌, none, some, List, [], ◌∷◌, length, reverse,
}
use sigsum_lib_go.Prelude.{ltb, leb, ◌==◌, if◌then◌else◌, eq_bytes}
use sigsum_lib_go.Prelude.Int.{ℤ, pos, negsuc}
use sigsum_lib_go.Prelude.Text.{codes}
use sigsum_lib_go.Prelude.Maps.{Map, lookup, insert}
use sigsum_lib_go.Result.{Result, ok, err, panic, errorf, ◌>>=◌}
use sigsum_lib_go.Crypto.{Bytes, Sha256}
use sigsum_lib_go.Encoding.Decimal.{parse_uint63}
use sigsum_lib_go.Encoding.Fixed.{public_key_from_hex}
use sigsum_lib_go.Policy.Quorum.{Quorum, Quorums, single, k_of_n, nil, cons, quorums_length}
use sigsum_lib_go.Policy.Policy.{Policy, new_empty_policy, add_log, add_witness}

pub record Config : Type 0 where
  pub policy : Policy
  pub names : Map Quorum

-- strconv.Atoi
unfoldable pub atoi : Bytes → Result ℤ
atoi [] = err (errorf "strconv.Atoi: invalid syntax")
atoi (c ∷ s) =
    if c == b'-'
    then (if eq_bytes s (codes "9223372036854775808")
        then ok (negsuc (2 ^ 63 - 1))
        else (parse_uint63 s >>= λ n. ok (elim n [ zero ↦ pos 0 | suc m ↦ negsuc m ])))
    else if c == b'+'
    then (parse_uint63 s >>= λ n. ok (pos n))
    else (parse_uint63 (c ∷ s) >>= λ n. ok (pos n))

abbrev pub optional_url : List Bytes → Bytes
optional_url [] = []
optional_url (url ∷ rest) = url

unfoldable pub ifdef : Config → Bytes → Bool
ifdef c name = elim (lookup name c.names) [ none ↦ false | some _ ↦ true ]

unfoldable pub parse_threshold : Bytes → ℕ → Result ℤ
parse_threshold s n =
    if eq_bytes s (codes "any")
    then ok (pos 1)
    else if eq_bytes s (codes "all")
    then ok (pos n)
    else atoi s

unfoldable pub check_threshold : ℤ → ℕ → Result ℕ
check_threshold (negsuc m) n = err (errorf "threshold out of range")
check_threshold (pos k) n =
    if ltb k 1 || ltb n k then err (errorf "threshold out of range") else ok k

-- The sub-quorums of the members, in their order.
unfoldable pub find_members : Map Quorum → List Bytes → Result Quorums
find_members names [] = ok nil
find_members names (member ∷ members) = elim (lookup member names) [
  | none ↦ err (errorf "undefined name: %q")
  | some q ↦ find_members names members >>= λ qs. ok (cons q qs)
]

module _ (sha : Sha256) where
  unfoldable pub parse_log : Config → List Bytes → Result Config
  parse_log c [] = err (errorf "invalid log policy line, public key required, url optional")
  parse_log c (key_hex ∷ rest) =
      if ltb 2 (length (key_hex ∷ rest))
      then err (errorf "invalid log policy line, public key required, url optional")
      else do
        key ← public_key_from_hex key_hex
        s ← add_log sha c.policy (record { public_key = key; url = optional_url rest })
        ok (record c { policy = s.0 })

  unfoldable pub parse_witness : Config → List Bytes → Result Config
  parse_witness c (name ∷ key_hex ∷ rest) =
      if ltb 3 (length (name ∷ key_hex ∷ rest))
      then err (errorf "invalid witness policy line, public key and name required, url optional")
      else do
        key ← public_key_from_hex key_hex
        if ifdef c name then err (errorf "duplicate name: %q") else (do
          s ← add_witness sha c.policy (record { public_key = key; url = optional_url rest })
          ok (record { policy = s.0; names = insert name (single s.1) c.names }))
  parse_witness c _ =
      err (errorf "invalid witness policy line, public key and name required, url optional")

unfoldable pub parse_group : Config → List Bytes → Result Config
parse_group c (name ∷ threshold ∷ m ∷ members) =
    if ifdef c name then err (errorf "duplicate name %q") else do
      t ← parse_threshold threshold (length (m ∷ members))
      k ← check_threshold t (length (m ∷ members))
      qs ← find_members c.names (m ∷ members)
      if quorums_length qs == length (m ∷ members)
          then ok (record c { names = insert name (k_of_n qs k) c.names })
          else panic
parse_group c _ =
    err (errorf "too few arguments, name, threshold and at least one member is required")

unfoldable pub parse_quorum : Config → List Bytes → Result Config
parse_quorum c (name ∷ []) = elim c.policy.quorum [
  | some _ ↦ err (errorf "quorum can only be set once")
  | none ↦ elim (lookup name c.names) [
    | some q ↦ ok (record c { policy = record (c.policy) { quorum = some q } })
    | none ↦ err (errorf "undefined name %q")
  ]
]
parse_quorum c _ = err (errorf "incorrect number of arguments: group or witness required")

unfoldable pub parse_line : Sha256 → Config → Bytes → List Bytes → Result Config
parse_line sha c keyword args =
    if eq_bytes keyword (codes "log")
    then parse_log sha c args
    else if eq_bytes keyword (codes "witness")
    then parse_witness sha c args
    else if eq_bytes keyword (codes "group")
    then parse_group c args
    else if eq_bytes keyword (codes "quorum")
    then parse_quorum c args
    else err (errorf "unknown keyword: %q")

-- `line[:comment]` for the first "#".
unfoldable pub strip_comment : Bytes → Bytes
strip_comment [] = []
strip_comment (c ∷ line) = let rest = strip_comment line in if c == b'#' then [] else c ∷ rest

abbrev pub is_space : ℕ → Bool
is_space c = c == 32 || leb 9 c && leb c 13

-- strings.Fields, for ASCII white space: the word being read, in reverse, and the rest.
abbrev pub end_word : Bytes → List Bytes → List Bytes
end_word [] fields = fields
end_word (c ∷ word) fields = reverse (c ∷ word) ∷ fields

unfoldable pub fields_from : Bytes → Bytes → List Bytes
fields_from word [] = end_word word []
fields_from word (c ∷ line) =
    let others = fields_from [] line in
    let longer = fields_from (c ∷ word) line in if is_space c then end_word word others else longer

abbrev pub initial_config : Config
initial_config = record { policy = new_empty_policy; names = (codes "none", k_of_n nil 0) ∷ [] }

abbrev pub parse_fields : Sha256 → Config → List Bytes → Result Config
parse_fields sha c [] = ok c
parse_fields sha c (keyword ∷ args) = parse_line sha c keyword args

-- The loop over the lines that the scanner delivers.
unfoldable pub parse_lines : Sha256 → Config → List Bytes → Result Config
parse_lines sha c [] = ok c
parse_lines sha c (line ∷ lines) =
    let next = λ (c' : Config). parse_lines sha c' lines in
    parse_fields sha c (fields_from [] (strip_comment line)) >>= next

abbrev pub require_quorum : Policy → Result Policy
require_quorum p = elim p.quorum [ none ↦ err (errorf "no quorum defined") | some _ ↦ ok p ]

unfoldable pub parse_config : Sha256 → List Bytes → Result Policy
parse_config sha lines = do c ← parse_lines sha initial_config lines; require_quorum c.policy
