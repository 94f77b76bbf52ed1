-- ===== src/Tests.antt =====
-- The theorems at concrete inputs.
mod Samples
mod MerkleTests
mod PolicyTests
mod WitnessTests
mod MonitorTests
mod ProofTests
mod ServerTests
mod TextTests
mod KeyTests
mod ReloadTests
