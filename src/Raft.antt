-- ===== src/Raft.antt =====
-- include/detlog/raft.hpp and src/raft.cpp: the consensus engine of one node. The first line of modules
-- holds the definitions, in the order of the calls; the modules below them hold the proofs.
pub mod State
pub mod Log
pub mod Emit
pub mod Persist
pub mod Replicate
pub mod Election
pub mod Append
pub mod Response
pub mod Client
pub mod Step
pub mod Recover
pub mod Quiet
pub mod Entries
pub mod Safety
pub mod Matching
pub mod Elected
pub mod Quorum
pub mod Batch
pub mod Durable
pub mod Queue
pub mod Reachable
mod Tests
