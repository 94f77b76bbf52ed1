-- ===== src/Token/SubmitToken.antt =====
-- pkg/submit-token/token.go. The DNS look-up and the test for its not-found error are parameters.
use sigsum_lib_go.Prelude.{
  ℕ, Bool, List, [], ◌∷◌, ◌++◌, length, take, ltb, ◌==◌, if◌then◌else◌, not,
}
use sigsum_lib_go.Prelude.Text.{codes}
use sigsum_lib_go.Result.{Result, Error, ok, err, panic, errorf, ◌>>=◌}
use sigsum_lib_go.Crypto.{Bytes, Signature, PublicKey, Verifier, attach_namespace}
use sigsum_lib_go.Encoding.Hex.{hex_encode}
use sigsum_lib_go.Encoding.Fixed.{signature_from_hex, public_key_from_hex}
use sigsum_lib_go.Ascii.Parser.{split_on}
use sigsum_lib_go.Types.TreeHead.{Signer}

abbrev pub label : Bytes
label = codes "_sigsum_v1"

abbrev pub old_label : Bytes
old_label = codes "_sigsum_v0"

abbrev pub token_namespace : Bytes
token_namespace = codes "sigsum.org/v1/submit-token"

abbrev pub max_number_of_keys : ℕ
max_number_of_keys = 10

pub record SubmitHeader : Type 0 where
  pub domain : Bytes
  pub token : Signature

unfoldable pub to_header : SubmitHeader → Bytes
to_header s = s.domain ++ 32 ∷ hex_encode s.token

unfoldable pub header_of : List Bytes → Result SubmitHeader
header_of (domain ∷ token ∷ []) =
    if length domain == 0
    then err (errorf "malformed header, domain part empty")
    else do sig ← signature_from_hex token; ok (record { domain = domain; token = sig })
header_of _ = err (errorf "expected 2 parts, got %d")

unfoldable pub from_header : Bytes → Result SubmitHeader
from_header header = header_of (split_on 32 header)

unfoldable pub make_token : Signer → PublicKey → Result Signature
make_token signer log_key = signer.sign_message (attach_namespace token_namespace log_key)

unfoldable pub verify_token : Verifier → PublicKey → PublicKey → Signature → Result (Unit {0})
verify_token verify key log_key token =
    if not (verify key (attach_namespace token_namespace log_key) token)
    then err (errorf "invalid token signature")
    else ok tt

module _ (lookup_txt : Bytes → Result (List Bytes)) (is_not_found : Error → Bool) where
  -- The answer for the new label or, if there is none, the one for the old label.
  unfoldable pub older_records : Bytes → Error → Result (List Bytes)
  older_records domain e = elim (lookup_txt (old_label ++ 46 ∷ domain)) [
    | ok records ↦ ok records
    | err _ ↦ err e
    | panic ↦ panic
  ]

  unfoldable pub lookup_domain : Bytes → Result (List Bytes)
  lookup_domain domain = elim (lookup_txt (label ++ 46 ∷ domain)) [
    | ok records ↦ ok records
    | err e ↦ if is_not_found e then older_records domain e else err e
    | panic ↦ panic
  ]

module _ (verify : Verifier) where
  -- One of the records is a key that signed the data.
  unfoldable pub any_key : Bytes → Signature → List Bytes → Bool
  any_key signed_data token [] = Bool.false
  any_key signed_data token (key_hex ∷ rest) =
      let others = any_key signed_data token rest in
      elim (public_key_from_hex key_hex) [
        | ok key ↦ if verify key signed_data token then Bool.true else others
        | _ ↦ others
      ]

-- DnsVerifier.Verify
unfoldable pub verify_header :
    Verifier
    → (Bytes → Result (List Bytes))
    → (Error → Bool)
    → PublicKey
    → SubmitHeader
    → Result (Unit {0})
verify_header verify lookup_txt is_not_found log_key header =
    elim (lookup_domain lookup_txt is_not_found header.domain) [
      | err _ ↦ err (errorf "token: dns look-up failed: %v")
      | panic ↦ panic
      | ok records ↦
          if any_key verify (attach_namespace token_namespace log_key) header.token (
            if ltb max_number_of_keys (length records)
            then take max_number_of_keys records
            else records)
          then ok tt
          else err (
              errorf
                "validating token signature failed, ignored keys: %d, syntactically bad keys: %d")
    ]
