-- ===== src/Uvm/Caught/Steps.antt =====
-- Every instruction, on commitments that are numbers and targets that have a text.
use unc_coin.Prelude.{
  ℕ, String, Bool, true, false, Option, none, some, List, [], ◌∷◌, ◌≡◌, refl, if◌then◌else◌,
}
use unc_coin.Prelude.Int.{ℤ, pos, negsuc}
use unc_coin.Value.{Value, bool, int, text, null, obj, arr, Fields, get_field}
use unc_coin.Text.{parse_int}
use unc_coin.Dict.{lookup}
use unc_coin.Authorization.{lookup_in}
use unc_coin.Uvm.Machine.{Exec, ◌>>=◌, pure, raise}
use unc_coin.Externals.{Externals}
use unc_coin.Uvm.Opcode.{BinOp, Opcode}
use unc_coin.Uvm.Context.{
  Context, has_long_text, no_operands, one_operand, two_operands, three_operands, int_operand,
  key_operand, account_operand, read_word_value, read_found, read_word_mapping, jump_target,
  out_of_bounds,
}
use unc_coin.Uvm.Step.{
  exec_push, exec_pop, exec_dup, exec_swap, binary_value, exec_binary, exec_not, exec_sha256,
  exec_mem_load, exec_mem_store, exec_read_metadata, exec_read_input, exec_load, exec_store,
  wallet_and_request, commitment_value, exec_read_commit, exec_read_reveal, exec_has_reveal,
  exec_has_auth, exec_require_auth, exec_block_height, exec_tx_sender, exec_jump, exec_jumpi,
  exec_halt, exec_revert, exec_transfer_from, execute_instruction,
}
use unc_coin.Uvm.Caught.{
  Caught, Caught-pure, Caught-raise, Caught-require, Caught-found, Caught-if, Caught-bind,
  Caught-guard, Caught-push, Caught-pop, Caught-peek, Caught-swap, Caught-read_memory,
  Caught-read_storage, Caught-write_memory, Caught-write_storage, Caught-revert_now,
  Caught-transfer_funds,
}

ruleset caught_base = (Caught-pure, Caught-raise, Caught-require, Caught-if, Caught-bind)

Caught-no_operands : (vs : List Value) → Caught (no_operands vs)
unfolding no_operands
Caught-no_operands [] = search caught_base
Caught-no_operands _ = search caught_base

Caught-one_operand : (vs : List Value) → Caught (one_operand vs)
unfolding one_operand
Caught-one_operand (a ∷ []) = search caught_base
Caught-one_operand _ = search caught_base

Caught-two_operands : (vs : List Value) → Caught (two_operands vs)
unfolding two_operands
Caught-two_operands (a ∷ b ∷ []) = search caught_base
Caught-two_operands _ = search caught_base

Caught-three_operands : (vs : List Value) → Caught (three_operands vs)
unfolding three_operands
Caught-three_operands (a ∷ b ∷ c ∷ []) = search caught_base
Caught-three_operands _ = search caught_base

Caught-int_operand : (v : Value) → Caught (int_operand v)
unfolding int_operand
Caught-int_operand (int n) = search caught_base
Caught-int_operand (bool b) = search caught_base
Caught-int_operand _ = search caught_base

Caught-key_operand : (v : Value) → Caught (key_operand v)
unfolding key_operand
Caught-key_operand (text s) = search caught_base
Caught-key_operand _ = search caught_base

Caught-account_operand : (ctx : Context) (v : Value) → Caught (account_operand ctx v)
unfolding account_operand
Caught-account_operand ctx (text s) = search caught_base
Caught-account_operand ctx _ = search caught_base

Caught-read_word_value : (v : Value) → Caught (read_word_value v)
unfolding read_word_value
Caught-read_word_value v = search caught_base

Caught-read_found : (o : Option Value) → Caught (read_found o)
unfolding read_found
Caught-read_found none = search caught_base
Caught-read_found (some v) = Caught-read_word_value v

Caught-read_word_mapping : (values : Fields) (key : String) → Caught (read_word_mapping values key)
unfolding read_word_mapping
Caught-read_word_mapping values key = Caught-read_found (get_field key values)

Caught-jump_target : (n : ℕ) (t : ℤ) → has_long_text t ≡ false → Caught (jump_target n t)
unfolding jump_target out_of_bounds
Caught-jump_target n (pos t) h = rw h (search caught_base)
Caught-jump_target n (negsuc t) h = rw h (search caught_base)

Caught-binary_value : (o : BinOp) (a b : ℕ) → Caught (binary_value o a b)
unfolding binary_value
Caught-binary_value BinOp.div a b = search caught_base
Caught-binary_value _ a b = search caught_base

-- The rule for a pop stands before the rule for a bind.
ruleset caught_parts = (
  Caught-pop, caught_base, Caught-guard, Caught-push, Caught-peek, Caught-swap, Caught-read_memory,
  Caught-read_storage, Caught-write_memory, Caught-write_storage, Caught-revert_now,
  Caught-transfer_funds, Caught-no_operands, Caught-one_operand, Caught-two_operands,
  Caught-three_operands, Caught-int_operand, Caught-key_operand, Caught-account_operand,
  Caught-read_word_value, Caught-read_word_mapping, Caught-binary_value,
)

Caught-wallet_and_request : (vs : List Value) → Caught (wallet_and_request vs)
unfolding wallet_and_request
Caught-wallet_and_request vs = search caught_parts depth 9

ruleset caught_all = (caught_parts, Caught-wallet_and_request)

-- Every commitment that the program can read is a hexadecimal number.
abbrev pub HasNumbers : Context → Type 0
HasNumbers ctx =
    (wallet request_id c : String)
    → lookup_in wallet (lookup request_id ctx.commitments) ≡ some c
    → (n : ℤ) × (parse_int 16 c ≡ some n)

-- Operands with at most 4300 digits, where they are integers.
abbrev pub AreShort : List Value → Type 0
AreShort [] = Unit
AreShort (int n ∷ vs) = (has_long_text n ≡ false) × AreShort vs
AreShort (v ∷ vs) = AreShort vs

-- The targets of a jump have a text.
abbrev pub HasShortTarget : Opcode → List Value → Type 0
HasShortTarget Opcode.jump vs = AreShort vs
HasShortTarget Opcode.jumpi vs = AreShort vs
HasShortTarget _ vs = Unit

Caught-read_commit :
    (ctx : Context) (vs : List Value) → HasNumbers ctx → Caught (exec_read_commit ctx vs)
unfolding exec_read_commit commitment_value
Caught-read_commit ctx vs numbers =
    Caught-bind (wallet_and_request vs) _ (Caught-wallet_and_request vs) λ (wallet, request_id).
      Caught-bind _ _ (Caught-guard _ _) λ _.
        Caught-found _ (lookup_in wallet (lookup request_id ctx.commitments)) _
          λ c found. let (n, e) = numbers wallet request_id c found in rw e (search caught_all)

no_long_flag : (b : Bool) → has_long_text (pos (if b then 1 else 0)) ≡ false
unfolding has_long_text
no_long_flag true = refl
no_long_flag false = refl

-- An opcode that jumps to its operand.
Caught-target :
    (vs : List Value) (f : ℤ → Exec (Option ℕ))
    → AreShort vs
    → ((n : ℤ) → has_long_text n ≡ false → Caught (f n))
    → Caught (one_operand vs >>= λ v. int_operand v >>= f)
unfolding one_operand int_operand ◌>>=◌ pure raise
Caught-target [] f h k = record { at = λ s. refl }
Caught-target (int n ∷ []) f h k = record { at = λ s. (k n h.0).at s }
Caught-target (bool b ∷ []) f h k = record { at = λ s. (k _ (no_long_flag b)).at s }
Caught-target (text t ∷ []) f h k = record { at = λ s. refl }
Caught-target (null ∷ []) f h k = record { at = λ s. refl }
Caught-target (obj fs ∷ []) f h k = record { at = λ s. refl }
Caught-target (arr us ∷ []) f h k = record { at = λ s. refl }
Caught-target (v ∷ w ∷ vs) f h k = record { at = λ s. refl }

-- No `ValueError` leaves an instruction whose jump has a short target, if the commitments are
-- numbers.
pub Caught-execute_instruction :
    (X : Externals) (ctx : Context) (n : ℕ) (op : Opcode) (vs : List Value)
    → HasNumbers ctx
    → HasShortTarget op vs
    → Caught (execute_instruction X ctx n op vs)
unfolding execute_instruction exec_push exec_pop exec_dup exec_swap exec_binary exec_not exec_sha256
    exec_mem_load exec_mem_store exec_read_metadata exec_read_input exec_load exec_store
    exec_read_reveal exec_has_reveal exec_has_auth exec_require_auth exec_block_height
    exec_tx_sender exec_jump exec_jumpi exec_halt exec_revert exec_transfer_from
Caught-execute_instruction X ctx n Opcode.push vs numbers short = search caught_all depth 9
Caught-execute_instruction X ctx n Opcode.read_commit vs numbers short =
    Caught-read_commit ctx vs numbers
Caught-execute_instruction X ctx n Opcode.jump vs numbers short =
    Caught-target vs _ short
      λ m h. Caught-bind _ _ (Caught-jump_target n m h) λ target. search caught_all
Caught-execute_instruction X ctx n Opcode.jumpi vs numbers short =
    Caught-target vs _ short
      λ m h. Caught-bind _ _ (Caught-jump_target n m h) λ target. search caught_all
Caught-execute_instruction X ctx n _ vs numbers short = search caught_all depth 12
