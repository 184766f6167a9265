-- ===== src/Tests.antt =====
-- Runs of the program on concrete inputs, and the theorems at such inputs.
mod RateLimits
mod Caches
mod Trackers
mod Rules
mod Clusters
mod Keys
mod Inputs
mod Served
mod Settings
mod Mirrored
mod Logs
mod Hooks
mod Hidden
mod Machines
mod Saved
