-- ===== src/Tests/PolicyTests.antt =====
-- The theorems on policies, for a group of two witnesses of which one is enough.
use sigsum_lib_go.Prelude.{◌≡◌, ◌↔◌, true, some, [], ◌∷◌}
use sigsum_lib_go.Result.{ok}
use sigsum_lib_go.Crypto.{Bytes, hash_bytes, Verifier, zeros}
use sigsum_lib_go.Types.TreeHead.{CosignedTreeHead}
use sigsum_lib_go.Policy.Quorum.{Quorum, single, k_of_n, nil, cons, contains, is_quorum}
use sigsum_lib_go.Policy.Threshold.{Meets, is_quorum-Meets}
use sigsum_lib_go.Policy.Policy.{Entity, Policy, verified_witnesses, verify_cosigned_tree_head}
use sigsum_lib_go.Policy.Verified.{
  Verified, verified_witnesses-Verified, Trusted, verify_cosigned_tree_head-Trusted,
}
use sigsum_lib_go.Prelude.{List, refl, eq_bytes}
use sigsum_lib_go.Prelude.Text.{codes}
use sigsum_lib_go.Prelude.Maps.{lookup, insert}
use sigsum_lib_go.Encoding.Hex.{hex_decode, from_hex_digit}
use sigsum_lib_go.Encoding.Fixed.{public_key_from_hex, decode_hex}
use sigsum_lib_go.Policy.Policy.{add_witness}
use sigsum_lib_go.Policy.Config.{
  parse_config, parse_lines, fields_from, strip_comment, parse_line, parse_witness, parse_group,
  parse_quorum, parse_threshold, check_threshold, find_members, ifdef,
}
use sigsum_lib_go.Policy.Meetable.{witnesses_of, parse_config-is_quorum}
use sigsum_lib_go.Tests.Samples.{sample_sha, hash_a, hash_b}

abbrev one_of_two : Quorum
one_of_two = k_of_n (cons (single hash_a) (cons (single hash_b) nil)) 1

is_quorum-Meets_example :
    (is_quorum one_of_two (hash_b ∷ []) ≡ true) ↔ Meets (hash_b ∷ []) one_of_two
is_quorum-Meets_example = is_quorum-Meets one_of_two (hash_b ∷ [])

abbrev accept_all : Verifier
accept_all = λ key msg sig. true

abbrev entity : Entity
entity = record { public_key = zeros 32; url = [] }

abbrev cosigned : CosignedTreeHead
cosigned = record {
  signed_tree_head = record {
    tree_head = record { size = 1; root_hash = hash_a };
    signature = zeros 64;
  };
  cosignatures = (hash_b, record { timestamp = 3; signature = zeros 64 }) ∷ [];
}

abbrev policy : Policy
policy = record {
  logs = (hash_a, entity) ∷ [];
  witnesses = (hash_b, entity) ∷ [];
  quorum = some one_of_two;
}

verified_witnesses-Verified_example :
    (contains
        (verified_witnesses accept_all policy.witnesses [] cosigned.tree_head cosigned.cosignatures)
        hash_b
      ≡ true)
    ↔ Verified accept_all policy.witnesses [] cosigned.tree_head cosigned.cosignatures hash_b
verified_witnesses-Verified_example =
    verified_witnesses-Verified accept_all policy.witnesses [] cosigned.tree_head
      cosigned.cosignatures hash_b

verify_cosigned_tree_head-Trusted_example :
    (verify_cosigned_tree_head sample_sha accept_all policy hash_a cosigned ≡ ok tt)
    ↔ Trusted sample_sha accept_all policy hash_a cosigned
verify_cosigned_tree_head-Trusted_example =
    verify_cosigned_tree_head-Trusted sample_sha accept_all policy hash_a cosigned

abbrev policy_file : List Bytes
policy_file =
    codes "witness w 0000000000000000000000000000000000000000000000000000000000000000"
    ∷ codes "group g any w # one is enough"
    ∷ codes "quorum g"
    ∷ []

abbrev file_policy : Policy
file_policy = record {
  logs = [];
  witnesses = (zeros 32, entity) ∷ [];
  quorum = some (k_of_n (cons (single (zeros 32)) nil) 1);
}

parse_config-policy_file : parse_config sample_sha policy_file ≡ ok file_policy
unfolding parse_config parse_lines fields_from strip_comment parse_line parse_witness parse_group
    parse_quorum parse_threshold check_threshold find_members ifdef lookup insert eq_bytes
    public_key_from_hex decode_hex hex_decode from_hex_digit add_witness hash_bytes
parse_config-policy_file = refl

parse_config-is_quorum_example :
    (q : Quorum) × (file_policy.quorum ≡ some q) × (is_quorum q (witnesses_of q) ≡ true)
parse_config-is_quorum_example =
    parse_config-is_quorum sample_sha policy_file file_policy parse_config-policy_file
