-- ===== src/Crossroads.antt =====
-- projects/crossroads of 2021_1_OperatingSystem_1: vehicles that cross a map of 7 by 7 positions,
-- one thread each, with a lock for every position.
pub mod Map
pub mod Vehicle
pub mod Runs
pub mod Routes
pub mod Valid
pub mod Start
pub mod Move
pub mod Safe
pub mod Drives
pub mod Lock
