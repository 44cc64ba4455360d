-- ===== src/Assembler.antt =====
-- The assembler of contracts, assembler/compiler.py.
pub mod Base
pub mod Lex
pub mod Operand
pub mod Directive
pub mod Source
pub mod Length
pub mod Ends
pub mod Total
pub mod Scan
pub mod Typed
pub mod Clean
pub mod Fitting
pub mod Reading
pub mod Rows
pub mod Runs
