-- ===== src/Audit.antt =====
-- storage/coordinator.py and the records of storage/integrity.py: the audit of one state directory.
-- `Order` sorts as Python does, `Findings` has the records of an artifact audit, `Report` the derived
-- classification and its validator, `Site` what the audit observes, and `Coordinator` the audit.
pub mod Order
pub mod Findings
pub mod Snapshot
pub mod Report
pub mod Site
pub mod Unread
pub mod Catchable
pub mod Coordinator
pub mod Returns
pub mod Validated
pub mod Found
pub mod Raises
pub mod Total
pub mod Gates
pub mod Consistent
pub mod Quarantine
pub mod Permission
mod Tests
