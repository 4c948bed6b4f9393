-- ===== src/App.antt =====
-- The application (src/app).
pub mod Types
pub mod Cmd
pub mod Index
pub mod InputHistory
pub mod Timer
pub mod Enemy
pub mod Line
pub mod Drive
pub mod Machine
pub mod StateWait
pub mod StateSearch
pub mod StateAttack
pub mod StateRetreat
pub mod StateManual
pub mod StateMachine
mod Tests
mod RoundTests
mod SensorTests
