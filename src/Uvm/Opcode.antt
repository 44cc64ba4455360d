-- ===== src/Uvm/Opcode.antt =====
-- The opcodes of core/uvm.py and their prices (`UVM_GAS_COSTS`).
use unc_coin.Prelude.{ℕ, String, Option, [], ◌∷◌}
use unc_coin.Dict.{Dict, lookup}

pub data BinOp : Type 0 where
  add sub mul div mod_op eq lt gt and_op or_op xor : BinOp

pub data Opcode : Type 0 where
  push pop dup swap : Opcode
  binary : BinOp → Opcode
  not_op sha256 mem_load mem_store read_metadata read_input load store : Opcode
  read_commit read_reveal has_reveal transfer_from has_auth require_auth : Opcode
  block_height tx_sender jump jumpi halt revert : Opcode

unfoldable pub binary_gas : BinOp → ℕ
binary_gas BinOp.add = 3
binary_gas BinOp.sub = 3
binary_gas BinOp.mul = 5
binary_gas BinOp.div = 5
binary_gas BinOp.mod_op = 5
binary_gas BinOp.eq = 2
binary_gas BinOp.lt = 2
binary_gas BinOp.gt = 2
binary_gas BinOp.and_op = 3
binary_gas BinOp.or_op = 3
binary_gas BinOp.xor = 3

-- `UVM_GAS_COSTS[opcode]`
unfoldable pub gas_cost : Opcode → ℕ
unfolding binary_gas
gas_cost Opcode.push = 1
gas_cost Opcode.pop = 1
gas_cost Opcode.dup = 2
gas_cost Opcode.swap = 2
gas_cost (Opcode.binary o) = binary_gas o
gas_cost Opcode.not_op = 2
gas_cost Opcode.sha256 = 20
gas_cost Opcode.mem_load = 3
gas_cost Opcode.mem_store = 5
gas_cost Opcode.read_metadata = 10
gas_cost Opcode.read_input = 10
gas_cost Opcode.load = 25
gas_cost Opcode.store = 100
gas_cost Opcode.read_commit = 30
gas_cost Opcode.read_reveal = 30
gas_cost Opcode.has_reveal = 10
gas_cost Opcode.transfer_from = 50
gas_cost Opcode.has_auth = 20
gas_cost Opcode.require_auth = 20
gas_cost Opcode.block_height = 2
gas_cost Opcode.tx_sender = 2
gas_cost Opcode.jump = 3
gas_cost Opcode.jumpi = 5
gas_cost Opcode.halt = 0
gas_cost Opcode.revert = 0

-- The keys of `UVM_GAS_COSTS`.
abbrev pub opcode_names : Dict Opcode
opcode_names =
    ("PUSH", Opcode.push)
    ∷ ("POP", Opcode.pop)
    ∷ ("DUP", Opcode.dup)
    ∷ ("SWAP", Opcode.swap)
    ∷ ("ADD", Opcode.binary BinOp.add)
    ∷ ("SUB", Opcode.binary BinOp.sub)
    ∷ ("MUL", Opcode.binary BinOp.mul)
    ∷ ("DIV", Opcode.binary BinOp.div)
    ∷ ("MOD", Opcode.binary BinOp.mod_op)
    ∷ ("EQ", Opcode.binary BinOp.eq)
    ∷ ("LT", Opcode.binary BinOp.lt)
    ∷ ("GT", Opcode.binary BinOp.gt)
    ∷ ("AND", Opcode.binary BinOp.and_op)
    ∷ ("OR", Opcode.binary BinOp.or_op)
    ∷ ("XOR", Opcode.binary BinOp.xor)
    ∷ ("NOT", Opcode.not_op)
    ∷ ("SHA256", Opcode.sha256)
    ∷ ("MEM_LOAD", Opcode.mem_load)
    ∷ ("MEM_STORE", Opcode.mem_store)
    ∷ ("READ_METADATA", Opcode.read_metadata)
    ∷ ("READ_INPUT", Opcode.read_input)
    ∷ ("LOAD", Opcode.load)
    ∷ ("STORE", Opcode.store)
    ∷ ("READ_COMMIT", Opcode.read_commit)
    ∷ ("READ_REVEAL", Opcode.read_reveal)
    ∷ ("HAS_REVEAL", Opcode.has_reveal)
    ∷ ("TRANSFER_FROM", Opcode.transfer_from)
    ∷ ("HAS_AUTH", Opcode.has_auth)
    ∷ ("REQUIRE_AUTH", Opcode.require_auth)
    ∷ ("BLOCK_HEIGHT", Opcode.block_height)
    ∷ ("TX_SENDER", Opcode.tx_sender)
    ∷ ("JUMP", Opcode.jump)
    ∷ ("JUMPI", Opcode.jumpi)
    ∷ ("HALT", Opcode.halt)
    ∷ ("REVERT", Opcode.revert)
    ∷ []

-- The opcode of a name; `none` for a name with no price, which the machine refuses to run.
unfoldable pub opcode_of : String → Option Opcode
unfolding lookup
opcode_of name = lookup name opcode_names
