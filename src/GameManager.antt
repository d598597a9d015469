-- ===== src/GameManager.antt =====
-- server_src/game.h and game.cpp, class GameManager: the connected players and watchers, and the
-- game that they play.
pub mod State
pub mod Ending
pub mod Turns
pub mod Queued
pub mod Handlers
pub mod Invariant
pub mod Erasing
pub mod Elimination
pub mod TurnSafety
pub mod Joining
pub mod Dropped
pub mod Naming
mod Runs
