-- ===== src/Tests.antt =====
-- Runs at concrete inputs, and the theorems at inputs that meet their hypotheses.
mod Inputs
mod Runner
mod Archive
mod Build
mod Client
mod Patches
mod Fetches
mod Packed
mod Contexts
