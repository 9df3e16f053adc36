-- ===== src/Step.antt =====
-- cmd/kbuild-step: the runner that works on the persistent mount /build.
pub mod Mount
pub mod Run
pub mod World
pub mod Rules
pub mod Source
pub mod Tree
pub mod Configure
pub mod Expect
pub mod Download
pub mod Sweep
pub mod Report
pub mod Build
pub mod Fetch
