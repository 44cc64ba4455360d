-- ===== src/Tests/Machine.antt =====
-- Runs that read a commitment and jump, and runs that a `ValueError` leaves.
use unc_coin.Prelude.{◌+◌, ◌^◌, String, ◌≡◌, refl, some, [], ◌∷◌, str_eq-cases, inl, inr}
use unc_coin.Prelude.Int.{pos}
use unc_coin.Text.{parse_int}
use unc_coin.Value.{Value, text, int, arr, nil, cons, end}
use unc_coin.Dict.{lookup}
use unc_coin.Authorization.{is_request_authorized}
use unc_coin.Uvm.Context.{
  Context, has_long_text, one_operand, two_operands, int_operand, key_operand, jump_target,
}
use unc_coin.Uvm.Program.{parse_program}
use unc_coin.Uvm.Run.{UvmResult, returned, raised, execute_program, next}
use unc_coin.Uvm.Step.{
  execute_instruction, exec_read_commit, wallet_and_request, commitment_value, exec_jump,
}
use unc_coin.Uvm.Machine.{◌>>=◌, pure, guard, require, escape}
use unc_coin.Uvm.Caught.Steps.{HasNumbers}
use unc_coin.Uvm.Caught.Runs.{execute_program_returns}
use unc_coin.Tests.{externals, context}

-- READ_COMMIT alice game, JUMP 2, HALT
abbrev reader : Value
reader = arr (
    cons (arr (cons (text "READ_COMMIT") (cons (text "alice") (cons (text "game") nil)))) (
      cons (arr (cons (text "JUMP") (cons (int (pos 2)) nil)))
        (cons (arr (cons (text "HALT") nil)) nil)))

abbrev committed : String → Context
committed c = record context {
  commitments = ("game", ("alice", c) ∷ []) ∷ [];
  authorization_index = ("alice", ("game", end) ∷ []) ∷ [];
}

-- The only commitment is the number 255.
committed-HasNumbers : HasNumbers (committed "ff")
unfolding lookup parse_int
committed-HasNumbers wallet request_id c found = elim (str_eq-cases "game" request_id) [
  | inl game ↦ elim (str_eq-cases "alice" wallet) [
    | inl alice ↦ let same : "ff" ≡ c = cc in rw⁻¹ same (pos 255, refl)
    | inr other ↦ cc
  ]
  | inr other ↦ cc
]

execute_program_returns_example :
    (r : UvmResult) × (execute_program externals reader (committed "ff") ≡ some (returned r))
    × (r.gas_used + r.gas_remaining ≡ 10000)
unfolding parse_program has_long_text
execute_program_returns_example =
    execute_program_returns externals (committed "ff") committed-HasNumbers reader refl
      (tt, ((refl, tt), (tt, tt)))

-- A commitment that is no number.
commitment_raises : execute_program externals reader (committed "no number") ≡ some raised
unfolding execute_program next execute_instruction exec_read_commit ◌>>=◌ wallet_and_request
    two_operands pure key_operand guard is_request_authorized require commitment_value escape
commitment_raises = refl

-- JUMP 10 ^ 4300, which is read from a hexadecimal text
abbrev leaper : Value
leaper = arr (cons (arr (cons (text "JUMP") (cons (int (pos (10 ^ 4300))) nil))) nil)

jump_raises : execute_program externals leaper context ≡ some raised
unfolding execute_program next execute_instruction exec_jump ◌>>=◌ one_operand pure int_operand
    jump_target escape
jump_raises = refl
