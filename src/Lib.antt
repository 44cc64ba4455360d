-- ===== src/Lib.antt =====
-- UncCoin, a coin with smart contracts: the rules by which a node accepts transactions and blocks,
-- and the virtual machine that runs the contracts (UVM).
--
-- A block (core/block.py) is checked against its parent's state by core/blockchain.py: the shape
-- of its mining reward (core/utils/mining.py), its proof of work and the difficulty for its height,
-- then every transaction in order. A transaction moves amounts, records a commitment, a reveal, an
-- authorization or a contract, or calls a contract; a call runs a program on the UVM (core/uvm.py)
-- and writes what it reports to the state. Programs are written by the assembler
-- (assembler/compiler.py). The store keeps every accepted block with its state, and
-- the main tip.
--
-- Files
--   Prelude, Dict, Text, Value: numbers, integers, dicts, the text functions and the JSON values
--     that the code uses.
--   Externals: the libraries, as parameters.
--   Transaction: core/transaction.py. Build has the constructors by kind, Wire the dict form,
--     Serialize the texts and hashes of core/serialization.py and core/hashing.py; RoundTrip,
--     Canonical and Sent are about reading a dict back.
--   Wallet: the check of a signature, wallet/wallet.py.
--   Authorization: core/uvm_authorization.py. Randomness: core/randomness.py, the hashes of
--     core/contracts.py and the address of wallet/wallet.py.
--   Assembler: assembler/compiler.py. Base has the tables and errors, Lex the text functions, Operand
--     and Directive what they are called, Source `assemble_source`. Length, Ends and Total are about
--     its end, Scan and Typed about its output, Clean, Fitting, Reading, Rows and Runs about its
--     output on the machine.
--   Uvm: core/uvm.py. Opcode has the gas table, Machine the stack and the words, Program
--     `parse_uvm_program`, Context what a program reads, Step `_execute_instruction` with one
--     function per opcode, Run `execute_uvm_program`. Quiet, Money, Effects, Conserve and Outcome
--     are about the money that a program moves, Gas and Caught about its end, Words about its numbers.
--   Chain: core/blockchain.py. State is `ChainState`, Check the reasons of refusals, Validate the
--     checks by kind, Execute a call of a contract, Apply `_apply_transaction_to_state_error`,
--     Reward the checks of core/utils/mining.py, Block `_build_child_state` with the difficulty and
--     core/genesis.py, Store and Add `add_block_result`, Walk and Branch the walks down the tree of
--     blocks, Select the choice of transactions for a new block, Pending `add_transaction`,
--     Serialize and Wire the text and the dict form of a block,
--     Reconcile `_reconcile_pending_transactions`, Query the `get_` methods. Balances, Spend, Call,
--     Accept, Supply, Link, Issue, Sound, Ancestor, Meet, Segment, Revalidate, Reorganize, Settle,
--     Forecast, Difficulty, Choice, Raise, Signed, RoundTrip and Sent hold the proofs.
--   Tests: runs and concrete inputs.
--
-- Conventions
--   Amounts are integers that count units; `Externals.units` of them make a coin. So amounts are
--   finite decimals inside the precision of the decimal context: no NaN, no infinity, no rounding.
--   The exponent of a decimal is not kept, so its text is a function of its value, where the source
--   prints 5.0 and 5.00 as they were written.
--   Text functions are right on ASCII letters and digits. JSON values have no floats. Block ids are
--   natural numbers; a state's `next_height` is its height plus one, as heights begin at -1. The
--   order of the keys of a dict is not modelled, but for the payload of a dict form. Each message is
--   a constructor without the values that the source prints in it. The source writes to a state only
--   behind its last check, so the model hands on a new state or a reason and nothing else.
--   The reason `value_error` is a `ValueError` that leaves the function: a signature that is no
--   number, or a contract that lets one through (`Uvm.Run.raised`); Chain/Raise has how it leaves the
--   loops over transactions. Python's limit of 4300 digits is kept where a run prints a number; texts
--   that are read as decimal numbers are taken to be shorter.
--   SHA-256, JSON, `shlex.split`, and the parsing and printing of decimals and times are parameters;
--   so is the hash function of a chain, as in the source. The two numbers of a public key and a
--   version are not negative.
--
-- Fuel
--   A program runs on its gas limit plus one, which is enough since every opcode but HALT and
--   REVERT costs gas. Parsing recurs at most as deep as the text is long. The difficulty loop runs
--   on the height plus one, the selection on one round more than there are pending transactions. A
--   walk down the tree of blocks runs on the height of its start plus one, or two, which is enough
--   since a parent is one less high. The loop over the labels of a line runs on its length plus one.
--
-- Not modelled
--   `mine_pending_transactions`, `verify_chain`; the search for a nonce; the node, the network and
--   the files; keys and signing.
pub mod Prelude
pub mod Dict
pub mod Text
pub mod Value
pub mod Externals
pub mod Assembler
pub mod Authorization
pub mod Randomness
pub mod Uvm
pub mod Wallet
pub mod Transaction
pub mod Chain
pub mod Tests
