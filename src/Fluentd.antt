-- ===== src/Fluentd.antt =====
-- pkg/resources/fluentd: the reconciler of fluentd, without the contents of its workloads.
pub mod Secrets
pub mod Trace
pub mod ConfigCheck
pub mod Cleanup
pub mod Reconcile
pub mod Events
pub mod Verdict
pub mod Quiet
pub mod Sound
pub mod Safe
