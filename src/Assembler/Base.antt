-- ===== src/Assembler/Base.antt =====
-- The errors and the tables of assembler/compiler.py.
use unc_coin.Prelude.{
  ℕ, String, ◌≡◌, refl, Bool, true, false, if◌then◌else◌, Option, none, some, List, [], ◌∷◌,
}
use unc_coin.Value.{Value}
use unc_coin.Dict.{Dict}
use unc_coin.Uvm.Opcode.{Opcode}

-- One constructor for each message of `AssemblyError`; `value_error` is the `ValueError` of a
-- directive's value that `shlex.split` cannot read, and `out_of_fuel` no error of the source.
pub data AssemblyReason : Type 0 where
  duplicate_label unknown_opcode duplicate_constant invalid_constant_name : AssemblyReason
  const_incomplete metadata_incomplete metadata_not_object invalid_json : AssemblyReason
  unknown_directive unknown_constant operand_count operand_type : AssemblyReason
  unparsable_line line_empty invalid_uvm value_error out_of_fuel : AssemblyReason

-- A value, or a reason with the number of the line, where the source gives it one.
pub data Assembly (A : Type 0) : Type 0 where
  good : A → Assembly A
  bad : AssemblyReason → Option ℕ → Assembly A

infixl 5 ◌>>=◌
abbrev pub ◌>>=◌ : {A B : Type 0} → Assembly A → (A → Assembly B) → Assembly B
good a >>= f = f a
bad r line >>= f = bad r line

abbrev pub good_of : {A : Type 0} → AssemblyReason → ℕ → Option A → Assembly A
good_of r line none = bad r (some line)
good_of r line (some a) = good a

-- `P` holds of what is handed on.
pub data Gives {A : Type 0} (P : A → Type 0) : Assembly A → Type 0 where
  gives : {a : A} → P a → Gives P (good a)
  refuses : {r : AssemblyReason} {line : Option ℕ} → Gives P (bad r line)

pub Gives-bind :
    {A B : Type 0} {P : B → Type 0} {f : A → Assembly B} (m : Assembly A)
    → ((a : A) → m ≡ good a → Gives P (f a))
    → Gives P (m >>= f)
Gives-bind (good a) k = k a refl
Gives-bind (bad r line) k = refuses

pub Gives-good_of :
    {A B : Type 0} {P : B → Type 0} {f : A → Assembly B} (r : AssemblyReason) (line : ℕ)
    (o : Option A)
    → ((a : A) → o ≡ some a → Gives P (f a))
    → Gives P (good_of r line o >>= f)
Gives-good_of r line none k = refuses
Gives-good_of r line (some a) k = k a refl

pub Gives-if :
    {A : Type 0} {P : A → Type 0} {m n : Assembly A} (c : Bool)
    → (c ≡ true → Gives P m)
    → (c ≡ false → Gives P n)
    → Gives P (if c then m else n)
Gives-if true h k = h refl
Gives-if false h k = k refl

Gives-good : {A : Type 0} {P : A → Type 0} {a : A} → Gives P (good a) → P a
Gives-good (gives h) = h

pub Gives-eq : {A : Type 0} {P : A → Type 0} {m : Assembly A} {a : A} → Gives P m → m ≡ good a → P a
Gives-eq {P} h e = Gives-good (rw e at h)

-- The types that `OpcodeSpec` names.
pub data OperandType : Type 0 where
  int_type str_type : OperandType

-- `OPCODE_SPECS`: the types of the operands. Each count is the number of the types.
unfoldable pub operand_types : Opcode → List OperandType
operand_types Opcode.push = int_type ∷ []
operand_types Opcode.mem_load = str_type ∷ []
operand_types Opcode.mem_store = str_type ∷ []
operand_types Opcode.read_metadata = str_type ∷ []
operand_types Opcode.read_input = str_type ∷ []
operand_types Opcode.load = str_type ∷ []
operand_types Opcode.store = str_type ∷ []
operand_types Opcode.read_commit = str_type ∷ str_type ∷ []
operand_types Opcode.read_reveal = str_type ∷ str_type ∷ []
operand_types Opcode.has_reveal = str_type ∷ str_type ∷ []
operand_types Opcode.transfer_from = str_type ∷ str_type ∷ str_type ∷ []
operand_types Opcode.has_auth = str_type ∷ str_type ∷ []
operand_types Opcode.require_auth = str_type ∷ str_type ∷ []
operand_types Opcode.jump = int_type ∷ []
operand_types Opcode.jumpi = int_type ∷ []
operand_types Opcode.pop = []
operand_types Opcode.dup = []
operand_types Opcode.swap = []
operand_types (Opcode.binary o) = []
operand_types Opcode.not_op = []
operand_types Opcode.sha256 = []
operand_types Opcode.block_height = []
operand_types Opcode.tx_sender = []
operand_types Opcode.halt = []
operand_types Opcode.revert = []

-- `_ParsedInstruction`. The opcode is the one of the name, which is written in capitals.
pub record ParsedInstruction : Type 0 where
  pub opcode_name : String
  pub opcode : Opcode
  pub operands : List String
  pub line : ℕ
  pub source : String

-- `SourceMapEntry`
pub record SourceMapEntry : Type 0 where
  pub instruction_index : ℕ
  pub line : ℕ
  pub source : String

-- `AssemblyResult`, without the name of the source.
pub record AssemblyResult : Type 0 where
  pub program : List (String × List Value)
  pub metadata : Dict Value
  pub labels : Dict ℕ
  pub constants : Dict Value
  pub source_map : List SourceMapEntry
