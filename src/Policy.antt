-- ===== src/Policy.antt =====
-- pkg/policy: quorums of witnesses, and the policy that a tree head has to meet.
pub mod Quorum
pub mod Threshold
pub mod Policy
pub mod Verified
pub mod Config
pub mod WellFormed
pub mod ConfigLaws
pub mod Meetable
