-- ===== src/Isa.antt =====
-- The instruction set as simulation.cpp knows it: the `#define`s of Simulation.h, and the decoding
-- of `SIM::ID` up to the operand forwarding (simulation.cpp).
pub mod Inst
pub mod Fields
pub mod Immediates
pub mod Decode
pub mod Execute
pub mod Accesses
pub mod Operands
pub mod Kinds
pub mod Loads
pub mod Arithmetic
pub mod Encode
pub mod Formats
pub mod Instr
pub mod RoundTrip
