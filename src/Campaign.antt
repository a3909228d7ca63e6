-- ===== src/Campaign.antt =====
-- domain/campaign.py, and the aggregation of runtime/campaign.py: a campaign's manifest, the evidence
-- of its attempts and its report.
pub mod Manifest
pub mod Evidence
pub mod Report
pub mod Attempt
pub mod Reconcile
pub mod Yields
pub mod Reconciled
pub mod Schedule
pub mod Verdict
pub mod SampleRun
pub mod Samples
mod Tests
mod ReconciledTests
