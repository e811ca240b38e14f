-- ===== src/Runtime.antt =====
-- src/vault/embedding_runtime.rs: the queue of embedding work and what its coordinator does.
pub mod State
pub mod Commit
pub mod Embed
pub mod Process
pub mod Coordinator
pub mod Picks
pub mod Tracking
pub mod Intents
pub mod Batches
pub mod Steps
pub mod Guarantees
pub mod Vectors
pub mod Runs
pub mod Shares
pub mod Waiting
pub mod Start
pub mod Calm
pub mod Shrinks
pub mod Progress
pub mod Rounds
pub mod Examples
mod Samples
