-- ===== src/Pipeline.antt =====
-- The five-stage pipeline of Simulation.h and simulation.cpp: registers between the stages, state,
-- stages, and the cycle that joins them.
pub mod Regs
pub mod State
pub mod Fetch
pub mod Decode
pub mod Syscall
pub mod Execute
pub mod Memory
pub mod WriteBack
pub mod Cycle
pub mod Forwarding
pub mod Invariant
pub mod Steps
pub mod Branches
pub mod Frames
pub mod Hazards
pub mod Accesses
pub mod Strings
pub mod CacheCounts
pub mod Tally
pub mod Agreement
