-- ===== src/Uvm.antt =====
-- The contract machine, core/uvm.py.
pub mod Opcode
pub mod Machine
pub mod Program
pub mod Context
pub mod Step
pub mod Run
pub mod Quiet
pub mod Money
pub mod Effects
pub mod Gas
pub mod Caught
pub mod Conserve
pub mod Words
pub mod Outcome
