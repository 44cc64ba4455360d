-- ===== src/Assembler/Fitting.antt =====
-- Instructions whose operands fit the table of the assembler run without a fault in their shape.
use unc_coin.Prelude.{ℕ, String, Option, none, some, List, [], ◌∷◌}
use unc_coin.Prelude.Int.{ℤ, pos, negsuc}
use unc_coin.Value.{Value, bool, int, text, null, obj, arr, Fields, get_field}
use unc_coin.Externals.{Externals}
use unc_coin.Uvm.Opcode.{BinOp, Opcode}
use unc_coin.Uvm.Machine.{Exec, pure, ◌>>=◌}
use unc_coin.Uvm.Context.{
  Context, no_operands, one_operand, two_operands, three_operands, int_operand, key_operand,
  account_operand, read_word_value, read_found, read_word_mapping, jump_target, out_of_bounds,
}
use unc_coin.Uvm.Step.{
  exec_push, exec_pop, exec_dup, exec_swap, binary_value, exec_binary, exec_not, exec_sha256,
  exec_mem_load, exec_mem_store, exec_read_metadata, exec_read_input, exec_load, exec_store,
  wallet_and_request, commitment_value, exec_read_commit, exec_read_reveal, exec_has_reveal,
  exec_has_auth, exec_require_auth, exec_block_height, exec_tx_sender, exec_jump, exec_jumpi,
  exec_halt, exec_revert, exec_transfer_from, execute_instruction,
}
use unc_coin.Assembler.Base.{OperandType, int_type, str_type, operand_types}
use unc_coin.Assembler.Clean.{Clean, Clean-pure, clean_base, clean_stack}

-- What the machine asks of an operand where the table says `int`.
abbrev pub IsInt : Value → Type 0
IsInt (int n) = Unit
IsInt (bool b) = ⊥
IsInt (text s) = ⊥
IsInt null = ⊥
IsInt (obj fs) = ⊥
IsInt (arr vs) = ⊥

-- Operands in the number of the types, and integers where the types say so.
abbrev pub Fits : List OperandType → List Value → Type 0
Fits [] [] = Unit
Fits [] (v ∷ vs) = ⊥
Fits (t ∷ ts) [] = ⊥
Fits (int_type ∷ ts) (v ∷ vs) = IsInt v × Fits ts vs
Fits (str_type ∷ ts) (v ∷ vs) = Fits ts vs

Clean-no_operands : (vs : List Value) → Fits [] vs → Clean (no_operands vs)
unfolding no_operands
Clean-no_operands [] h = Clean-pure tt
Clean-no_operands (v ∷ vs) h = elim h [ ]

Clean-one_operand : (vs : List Value) → Fits (str_type ∷ []) vs → Clean (one_operand vs)
unfolding one_operand
Clean-one_operand [] h = elim h [ ]
Clean-one_operand (v ∷ []) h = Clean-pure v
Clean-one_operand (v ∷ w ∷ vs) h = elim h [ ]

Clean-two_operands :
    (vs : List Value) → Fits (str_type ∷ str_type ∷ []) vs → Clean (two_operands vs)
unfolding two_operands
Clean-two_operands [] h = elim h [ ]
Clean-two_operands (v ∷ []) h = elim h [ ]
Clean-two_operands (v ∷ w ∷ []) h = Clean-pure (v, w)
Clean-two_operands (v ∷ w ∷ u ∷ vs) h = elim h [ ]

Clean-three_operands :
    (vs : List Value) → Fits (str_type ∷ str_type ∷ str_type ∷ []) vs → Clean (three_operands vs)
unfolding three_operands
Clean-three_operands [] h = elim h [ ]
Clean-three_operands (v ∷ []) h = elim h [ ]
Clean-three_operands (v ∷ w ∷ []) h = elim h [ ]
Clean-three_operands (v ∷ w ∷ u ∷ []) h = Clean-pure (v, w, u)
Clean-three_operands (v ∷ w ∷ u ∷ x ∷ vs) h = elim h [ ]

Clean-key_operand : (v : Value) → Clean (key_operand v)
unfolding key_operand
Clean-key_operand (text s) = search clean_base
Clean-key_operand _ = search clean_base

Clean-account_operand : (ctx : Context) (v : Value) → Clean (account_operand ctx v)
unfolding account_operand
Clean-account_operand ctx (text s) = search clean_base
Clean-account_operand ctx _ = search clean_base

Clean-read_word_value : (v : Value) → Clean (read_word_value v)
unfolding read_word_value
Clean-read_word_value v = search clean_base

Clean-read_found : (o : Option Value) → Clean (read_found o)
unfolding read_found
Clean-read_found none = search clean_base
Clean-read_found (some v) = Clean-read_word_value v

Clean-read_word_mapping : (values : Fields) (key : String) → Clean (read_word_mapping values key)
unfolding read_word_mapping
Clean-read_word_mapping values key = Clean-read_found (get_field key values)

Clean-commitment_value : (o : Option ℤ) → Clean (commitment_value o)
unfolding commitment_value
Clean-commitment_value none = search clean_base
Clean-commitment_value (some n) = search clean_base

Clean-jump_target : (n : ℕ) (t : ℤ) → Clean (jump_target n t)
unfolding jump_target out_of_bounds
Clean-jump_target n (pos t) = search clean_base
Clean-jump_target n (negsuc t) = search clean_base

Clean-binary_value : (o : BinOp) (a b : ℕ) → Clean (binary_value o a b)
unfolding binary_value
Clean-binary_value BinOp.div a b = search clean_base
Clean-binary_value _ a b = search clean_base

-- An opcode that takes an integer.
Clean-int_operand :
    (vs : List Value) (f : ℤ → Exec (Option ℕ))
    → Fits (int_type ∷ []) vs
    → ((n : ℤ) → Clean (f n))
    → Clean (one_operand vs >>= λ v. int_operand v >>= f)
unfolding one_operand int_operand ◌>>=◌ pure
Clean-int_operand [] f h k = elim h [ ]
Clean-int_operand (int n ∷ []) f h k = record { at = λ s. (k n).at s }
Clean-int_operand (bool b ∷ []) f h k = elim h.0 [ ]
Clean-int_operand (text t ∷ []) f h k = elim h.0 [ ]
Clean-int_operand (null ∷ []) f h k = elim h.0 [ ]
Clean-int_operand (obj fs ∷ []) f h k = elim h.0 [ ]
Clean-int_operand (arr us ∷ []) f h k = elim h.0 [ ]
Clean-int_operand (v ∷ w ∷ vs) f h k = elim h.1 [ ]

ruleset clean_operands = (
  clean_stack, Clean-no_operands, Clean-one_operand, Clean-two_operands, Clean-three_operands,
  Clean-key_operand, Clean-account_operand, Clean-read_word_value, Clean-read_word_mapping,
  Clean-jump_target, Clean-commitment_value, Clean-binary_value,
)

Clean-wallet_and_request :
    (vs : List Value) → Fits (str_type ∷ str_type ∷ []) vs → Clean (wallet_and_request vs)
unfolding wallet_and_request
Clean-wallet_and_request vs h = search clean_operands depth 9

ruleset clean_parts = (clean_operands, Clean-wallet_and_request, Clean-int_operand)

pub Clean-execute_instruction :
    (X : Externals) (ctx : Context) (n : ℕ) (op : Opcode) (vs : List Value)
    → Fits (operand_types op) vs
    → Clean (execute_instruction X ctx n op vs)
unfolding execute_instruction exec_push exec_pop exec_dup exec_swap exec_binary exec_not exec_sha256
    exec_mem_load exec_mem_store exec_read_metadata exec_read_input exec_load exec_store
    exec_read_commit exec_read_reveal exec_has_reveal exec_has_auth exec_require_auth
    exec_block_height exec_tx_sender exec_jump exec_jumpi exec_halt exec_revert exec_transfer_from
    operand_types
Clean-execute_instruction X ctx n Opcode.push vs h =
    Clean-int_operand vs _ h λ m. search clean_parts
Clean-execute_instruction X ctx n Opcode.jump vs h =
    Clean-int_operand vs _ h λ m. search clean_parts
Clean-execute_instruction X ctx n Opcode.jumpi vs h =
    Clean-int_operand vs _ h λ m. search clean_parts
Clean-execute_instruction X ctx n _ vs h = search clean_parts depth 9
