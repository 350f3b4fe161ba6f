-- ===== src/Tests.antt =====
-- The theorems at concrete inputs.
pub mod Store
pub mod Paths
pub mod Trajectories
pub mod Sessions
pub mod Ieee
pub mod Creation
pub mod RichCursors
pub mod LimitCurves
pub mod Integrating
pub mod SwitchingPoints
pub mod Observing
pub mod Rebasing
pub mod TakenSamples
