-- ===== src/Tests.antt =====
-- Runs of the modelled functions on concrete sites, and the theorems at such inputs.
mod Names
mod Locks
mod Quotas
mod Counts
mod Sweeps
mod Tokens
mod Records
mod Plans
mod Scans
mod Posts
mod Uploads
