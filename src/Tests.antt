-- ===== src/Tests.antt =====
-- Examples: the scenarios of tests/, and the theorems at concrete inputs.
pub mod Book
mod Engine
mod Events
mod Http
mod Locks
mod Messages
mod Parts
mod Queue
mod Socket
mod Submit
