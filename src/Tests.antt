-- ===== src/Tests.antt =====
-- Runs of the definitions on concrete inputs, most of them the unit tests of the program.
pub mod Pairs
pub mod Probes
pub mod Labels
pub mod Console
pub mod Cycles
pub mod Frames
pub mod Settings
pub mod Stamps
pub mod Links
pub mod Verdicts
pub mod Turns
pub mod Fabric
