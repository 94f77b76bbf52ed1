-- ===== src/Lib.antt =====
-- sigsum: key transparency with a Merkle tree log, witnesses that cosign its tree heads, and policies
-- that say which cosignatures are enough.
--
-- The parts and how they interact. A log keeps a Merkle tree of leaf hashes (pkg/merkle) and signs
-- its tree heads (pkg/types). A witness (cmd/sigsum-witness) keeps the last tree head that it
-- cosigned. An add-checkpoint request (pkg/requests) brings it the next one as a checkpoint
-- (pkg/checkpoint) with a consistency proof; the witness verifies the log's signature and the proof,
-- cosigns, writes the new tree head to its file and answers with a cosignature line, or answers with
-- an error of pkg/api. A user verifies a cosigned tree head by a policy (pkg/policy). All texts have
-- the line format of pkg/ascii. A submitter (pkg/submit) sends a leaf to a log and collects a proof
-- (pkg/proof) that a verifier checks offline; a monitor (pkg/monitor) follows a log and checks each
-- tree head and leaf. Both speak to the log through pkg/client, the log answers through pkg/server,
-- and a submit token (pkg/submit-token) shows which domain a submission comes from. Keys are in the
-- formats of SSH (internal/ssh, pkg/key).
--
-- Files, and what each models:
--   Prelude, Result, Crypto: shared names; Go's (value, error) with panics as a third outcome; byte
--     arrays as lists of bytes (pkg/crypto/crypto.go). SHA-256 (crypto/sha256) and Ed25519
--     verification (crypto/ed25519) are parameters: a function to 32 bytes, and a test.
--   Encoding: hexadecimal, base64 and decimal numbers as Go's standard library writes and reads
--     them; Encoding/Fixed is the rest of pkg/crypto/crypto.go.
--   Ascii: pkg/ascii. Line has the reader's state: the lines that the scanner will deliver, and the
--     error after them. Parser has the getters and Writer the writers; RoundTrip, Splits and Fields prove
--     that numbers, hashes and whole lines are read back.
--   Merkle: pkg/merkle. Node has the node hashes; Range, Tree and Prove are tree.go; Verify and
--     Batch are verify.go. Spec is the Merkle tree hash of RFC 6962, which the code is compared
--     with. The other files prove: RangeRoot the roots, TreeLaws and TreeBuild the tree's
--     state, PathLength, Inclusion, InclusionSound and InclusionLaws inclusion proofs, and Trim, Trimmed,
--     Consistency, ConsistencySound and ConsistencyTotal consistency proofs; SplitLaws, Halves, RangeHalves,
--     InclusionLoop, InclusionReuse and ProveLaws the inclusion proofs that the tree makes.
--   Types: pkg/types. TreeHead, Leaf and Proof have the data with its signatures, Version0 the older
--     signatures; the Parse and Write files have the FromASCII and ToASCII methods; TreeHeadLaws,
--     CosignatureLaws, CosignedLaws and LeafLaws prove round trips.
--   Policy: pkg/policy. Quorum and Policy are policy.go, Config is config.go; Threshold and Verified
--     say what a quorum and a policy ask for; WellFormed, ConfigLaws and Meetable follow the
--     quorums of a policy file.
--   Api: pkg/api (Errors, Interfaces), pkg/types/endpoint.go (Endpoint) and pkg/client (Client, with the
--     requests and responses in Http).
--     ClientLaws is about the leaves that the client takes from an answer.
--   Checkpoint, Requests: pkg/checkpoint and pkg/requests. Types/Growth says what consistency proofs
--     mean for two tree heads, for the witness and the monitor.
--   Witness: cmd/sigsum-witness/sigsum-witness.go. State has the stored tree head with Load, Store
--     and Update, Handler has newWitness and AddCheckpoint; Accept, Run and Reload are about one
--     request, every sequence of requests, and a restart after one.
--   Proof: pkg/proof; Logged says what its Verify accepts.
--   Monitor: pkg/monitor. Client is client.go and alert.go, Loop is monitor.go. Range, Single and
--     Stale are about getLeaves, Filter about filterLeaves, Fetch about the inner loop of MonitorLog,
--     Update about one round of it and Rounds about every sequence of rounds.
--   Submit: pkg/submit; Accepted is about the proof that comes back.
--   Server: pkg/server. Handlers has server.go, config.go and secondary.go; EndToEnd puts the client
--     of Api in front of the handlers.
--   Token: pkg/submit-token/token.go.
--   Ssh: internal/ssh (Wire, PublicKeys, PrivateKeys, Agent) and pkg/key/key.go (KeyFiles, and
--     Signers with ParsePrivateKey and the signers of pkg/crypto). KeyFileLaws and PrivateKeyLaws are
--     about the keys that files give.
--   Tests: the theorems at concrete inputs.
--
-- State and effects. A method that changes its receiver returns the new state. The witness's mutex
-- makes each Update one step. What the file system does in a Store, the signer and the Unix time
-- are arguments of AddCheckpoint; a run of the witness leaves them open at every request. A file is
-- replaced at the commit, as github.com/dchest/safefile documents. A Go map is an association list,
-- so the order in which a loop visits it is the list's. A log is a record of functions from requests
-- to answers; it may answer differently later, so that each round of the monitor's and the
-- submitter's loops has a log of its own. HTTP is a function from requests to responses, whose
-- bodies are read to their end. The callbacks of the monitor are a list of events. DNS, PEM and the
-- keys and signatures of crypto/ed25519 are parameters.
--
-- Bounds. A uint64 is a number below 2 ^ 64, with its wrap-around written out where the code's
-- arithmetic can wrap. A loop that halves a uint64 takes 64 rounds, after which it is 0; a loop that
-- reads lines takes one round more than there are lines. The loops of the monitor and the submitter
-- that ask a log again and again go on for as long as there are answers in a list; Monitor/Fetch
-- shows how many answers end the monitor's.
--
-- Not modelled: the routing of net/http, timeouts, contexts and goroutines, the normalization of domain
-- names (a library), the opening of files, the command line and logging.
pub mod Prelude
pub mod Result
pub mod Crypto
pub mod Merkle
pub mod Encoding
pub mod Ascii
pub mod Types
pub mod Policy
pub mod Api
pub mod Checkpoint
pub mod Requests
pub mod Proof
pub mod Token
pub mod Monitor
pub mod Ssh
pub mod Server
pub mod Submit
pub mod Witness
pub mod Tests
