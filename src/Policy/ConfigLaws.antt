-- ===== src/Policy/ConfigLaws.antt =====
-- Every line of a policy file keeps the quorums well-formed.
use sigsum_lib_go.Prelude.{
  ◌≡◌, refl, sym, ◌∙◌, arith, inl, inr, Bool-cases, Option-cases, List, [], ◌∷◌, length, ltb,
  eq_bytes,
}
use sigsum_lib_go.Prelude.Text.{codes}
use sigsum_lib_go.Prelude.Maps.{lookup, insert}
use sigsum_lib_go.Result.{ok, >>=-ok}
use sigsum_lib_go.Crypto.{Bytes, Hash, Sha256, hash_bytes}
use sigsum_lib_go.Encoding.Fixed.{public_key_from_hex}
use sigsum_lib_go.Policy.Quorum.{single, k_of_n, nil}
use sigsum_lib_go.Policy.Policy.{Policy, Entity, add_log, add_witness}
use sigsum_lib_go.Policy.Config.{
  Config, ifdef, optional_url, parse_log, parse_witness, parse_line, parse_fields, parse_lines,
  initial_config, fields_from, strip_comment,
}
use sigsum_lib_go.Policy.WellFormed.{
  IsMeetable, AreMeetable, IsConfig, named-insert, parse_group-IsConfig, parse_quorum-IsConfig,
}
use sigsum_lib_go.Policy.WellFormed as WellFormed

add_log-quorum :
    (sha : Sha256) (p : Policy) (log : Entity) (s : Policy × Hash)
    → add_log sha p log ≡ ok s
    → s.0.quorum ≡ p.quorum
unfolding add_log
add_log-quorum sha p log s e = elim (Option-cases (lookup (hash_bytes sha log.public_key) p.logs)) [
  | inr (_, known) ↦ absurd (cc (rw (add_log, known) at e))
  | inl new ↦
      let h = hash_bytes sha log.public_key in
      let same : (record p { logs = insert h log p.logs }, h) ≡ s = cc (rw (add_log, new) at e) in
      rw (← same) refl
]

add_witness-quorum :
    (sha : Sha256) (p : Policy) (w : Entity) (s : Policy × Hash)
    → add_witness sha p w ≡ ok s
    → s.0.quorum ≡ p.quorum
unfolding add_witness
add_witness-quorum sha p w s e =
    elim (Option-cases (lookup (hash_bytes sha w.public_key) p.witnesses)) [
      | inr (_, known) ↦ absurd (cc (rw (add_witness, known) at e))
      | inl new ↦
          let h = hash_bytes sha w.public_key in
          let same : (record p { witnesses = insert h w p.witnesses }, h) ≡ s =
            cc (rw (add_witness, new) at e) in
          rw (← same) refl
    ]

parse_log-IsConfig :
    (sha : Sha256) (c d : Config) (args : List Bytes)
    → IsConfig c
    → parse_log sha c args ≡ ok d
    → IsConfig d
unfolding parse_log
parse_log-IsConfig sha c d [] v e = absurd cc
parse_log-IsConfig sha c d (key_hex ∷ rest) v e =
    elim (Bool-cases (ltb 2 (length (key_hex ∷ rest)))) [
      | inl long ↦ absurd (cc (rw (parse_log, long) at e))
      | inr fits ↦
          let (key, _, e1) = >>=-ok (public_key_from_hex key_hex) _ d (rw (parse_log, fits) at e) in
          let (s, added, e2) =
            >>=-ok (add_log sha c.policy (record { public_key = key; url = optional_url rest })) _ d
              e1 in
          let same : record c { policy = s.0 } ≡ d = cc e2 in
          rw (← same) (record {
            named = v.named;
            chosen = λ q h. v.chosen q (sym (add_log-quorum sha c.policy _ s added) ∙ h);
          })
    ]

parse_witness-IsConfig :
    (sha : Sha256) (c d : Config) (args : List Bytes)
    → IsConfig c
    → parse_witness sha c args ≡ ok d
    → IsConfig d
unfolding parse_witness
parse_witness-IsConfig sha c d [] v e = absurd cc
parse_witness-IsConfig sha c d (name ∷ []) v e = absurd cc
parse_witness-IsConfig sha c d (name ∷ key_hex ∷ rest) v e =
    elim (Bool-cases (ltb 3 (length (name ∷ key_hex ∷ rest)))) [
      | inl long ↦ absurd (cc (rw (parse_witness, long) at e))
      | inr fits ↦
          let (key, _, e1) =
            >>=-ok (public_key_from_hex key_hex) _ d (rw (parse_witness, fits) at e) in
          elim (Bool-cases (ifdef c name)) [
            | inl taken ↦ absurd (cc (rw taken at e1))
            | inr new ↦
                let (s, added, e2) =
                  >>=-ok
                    (add_witness sha c.policy
                      (record { public_key = key; url = optional_url rest }))
                    _ d (rw new at e1) in
                let same : record { policy = s.0; names = insert name (single s.1) c.names } ≡ d =
                  cc e2 in
                rw (← same) (record {
                  named = named-insert name (single s.1) c.names WellFormed.witness v.named;
                  chosen = λ q h. v.chosen q (sym (add_witness-quorum sha c.policy _ s added) ∙ h);
                })
          ]
    ]

parse_line-IsConfig :
    (sha : Sha256) (c d : Config) (keyword : Bytes) (args : List Bytes)
    → IsConfig c
    → parse_line sha c keyword args ≡ ok d
    → IsConfig d
unfolding parse_line
parse_line-IsConfig sha c d keyword args v e = elim (Bool-cases (eq_bytes keyword (codes "log"))) [
  | inl log ↦ parse_log-IsConfig sha c d args v (rw (parse_line, log) at e)
  | inr other1 ↦ elim (Bool-cases (eq_bytes keyword (codes "witness"))) [
    | inl is_witness ↦
        parse_witness-IsConfig sha c d args v (rw (parse_line, other1, is_witness) at e)
    | inr other2 ↦ elim (Bool-cases (eq_bytes keyword (codes "group"))) [
      | inl is_group ↦
          parse_group-IsConfig c d args v (rw (parse_line, other1, other2, is_group) at e)
      | inr other3 ↦ elim (Bool-cases (eq_bytes keyword (codes "quorum"))) [
        | inl quorum ↦
            parse_quorum-IsConfig c d args v (rw (parse_line, other1, other2, other3, quorum) at e)
        | inr unknown ↦ absurd (cc (rw (parse_line, other1, other2, other3, unknown) at e))
      ]
    ]
  ]
]

parse_fields-IsConfig :
    (sha : Sha256) (c d : Config) (fields : List Bytes)
    → IsConfig c
    → parse_fields sha c fields ≡ ok d
    → IsConfig d
parse_fields-IsConfig sha c d [] v e = let same : c ≡ d = cc e in rw (← same) v
parse_fields-IsConfig sha c d (keyword ∷ args) v e = parse_line-IsConfig sha c d keyword args v e

pub parse_lines-IsConfig :
    (sha : Sha256) (c d : Config) (lines : List Bytes)
    → IsConfig c
    → parse_lines sha c lines ≡ ok d
    → IsConfig d
unfolding parse_lines
parse_lines-IsConfig sha c d [] v e = let same : c ≡ d = cc e in rw (← same) v
parse_lines-IsConfig sha c d (line ∷ lines) v e =
    let (c', parsed, rest) =
      >>=-ok (parse_fields sha c (fields_from [] (strip_comment line)))
        (λ x. parse_lines sha x lines) d e in
    parse_lines-IsConfig sha c' d lines
      (parse_fields-IsConfig sha c c' (fields_from [] (strip_comment line)) v parsed) rest

pub initial_config-IsConfig : IsConfig initial_config
unfolding lookup
initial_config-IsConfig = record {
  named = λ name q e. elim (Bool-cases (eq_bytes (codes "none") name)) [
    | inl same ↦
        let is : k_of_n nil 0 ≡ q = cc (rw same at e) in
        rw (← is) (WellFormed.group WellFormed.no_member (omega arith))
    | inr other ↦ absurd (cc (rw other at e))
  ];
  chosen = λ q e. absurd cc;
}
