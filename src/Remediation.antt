-- ===== src/Remediation.antt =====
-- The PodRemediator controller (internal/controller/remediation): the transaction that deletes a
-- volume claim stuck on a fenced node.
pub mod Objects
pub mod Commit
pub mod Fencing
pub mod Api
pub mod Trace
pub mod Calls
pub mod Resume
pub mod Recover
pub mod Prepare
pub mod Delete
pub mod Scan
pub mod Namespaces
pub mod Verdict
pub mod Reconcile
pub mod Handshaking
pub mod Modes
pub mod Requeue
pub mod Completion
pub mod Steps
pub mod Sanction
pub mod Transaction
pub mod Recovery
pub mod Handshake
pub mod Decoding
pub mod Evidence
pub mod Cluster
mod Scenario
mod Tests
pub mod Authority
