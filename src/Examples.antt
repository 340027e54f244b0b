-- ===== src/Examples.antt =====
-- The theorems at concrete inputs.
mod Outputs
mod Pods
mod Drains
mod Controllers
mod Data
mod Systems
mod Texts
mod Paths
