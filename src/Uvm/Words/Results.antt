-- ===== src/Uvm/Words/Results.antt =====
-- Every result of a program is within the bounds of the machine.
use unc_coin.Prelude.{
  ℕ, suc, ◌-◌, ◌≤◌, ◌≡◌, refl, Bool, true, false, Option, none, some, List, [], ◌∷◌, arith, length,
  length-append, get_elem?, reverse, ◌++◌, zero, ltb, subst, Bool-cases, inl, inr,
}
use unc_coin.Prelude.Int.{ℤ, pos, negsuc}
use unc_coin.Value.{Value}
use unc_coin.Dict.{Dict}
use unc_coin.Externals.{Externals}
use unc_coin.Uvm.Opcode.{Opcode}
use unc_coin.Uvm.Machine
use unc_coin.Uvm.Machine.{
  Exec, Result, ok, err, Vm, UvmError, word_modulus, max_stack_items, normalize_word, pure, raise,
  require, guard, ◌>>=◌, ◌>>◌, push_word, pop_from, pop_word, peek_from, peek_word, swap_from,
  swap_words, read_memory, write_memory, read_storage, write_storage,
}
use unc_coin.Uvm.Context.{Context, has_long_text}
use unc_coin.Uvm.Step.{execute_instruction}
use mathlib.Core.List.{reverse-append}
use unc_coin.Uvm.Program.{Instruction, parse_program}
use unc_coin.Uvm.Opcode.{gas_cost}
use unc_coin.Uvm.Run
use unc_coin.Uvm.Run.{
  UvmResult, Ending, returned, raised, Next, done, escapes, goto, is_halt, after_instruction,
  run_opcode, run_instruction, at_instruction, Next-cases, run, result, success_result,
  failed_result, reverted_result, failure_before, normalize_storage, execute_instructions,
  execute_parsed, execute_program, refused,
}
use unc_coin.Uvm.Words.{AreWords, HoldsWords, IsWellFormed}
use unc_coin.Uvm.Words.Bounds.{Keeps-execute_instruction}

AreWords-append : (xs ys : List ℕ) → AreWords xs → AreWords ys → AreWords (xs ++ ys)
AreWords-append [] ys hx hy = hy
AreWords-append (x ∷ xs) ys hx hy = (hx.0, AreWords-append xs ys hx.1 hy)

AreWords-reverse : (xs : List ℕ) → AreWords xs → AreWords (reverse xs)
AreWords-reverse [] h = tt
AreWords-reverse (x ∷ xs) h =
    rw (reverse-append (x ∷ []) xs)
      (AreWords-append (reverse xs) (x ∷ []) (AreWords-reverse xs h.1) (h.0, tt))

length-reverse : (xs : List ℕ) → length (reverse xs) ≡ length xs
length-reverse [] = refl
length-reverse (x ∷ xs) =
    rw (reverse-append (x ∷ []) xs)
      (omega (arith, length-append (reverse xs) (x ∷ []), length-reverse xs))

-- The bounds of what a result reports.
pub record IsBounded (r : UvmResult) : Type 0 where
  pub bounded : length r.stack ≤ max_stack_items
  pub on_stack : AreWords r.stack
  pub in_memory : HoldsWords r.memory
  pub in_storage : HoldsWords r.storage

abbrev NextIsBounded : Next → Type 0
NextIsBounded (done r) = IsBounded r
NextIsBounded escapes = Unit
NextIsBounded (goto pc gas s) = IsWellFormed s

module _ (gas_limit gas pc : ℕ) where
  reported :
      (success was_reverted exhausted : Bool) (e : Option Machine.Stop) (s : Vm) (changes : Dict ℤ)
      (transfers : List Machine.Transfer)
      → IsWellFormed s
      → IsBounded (result success was_reverted gas_limit gas exhausted e s changes transfers pc)
  unfolding result
  reported success was_reverted exhausted e s changes transfers h = record {
    bounded = rw (length-reverse s.stack) h.bounded;
    on_stack = AreWords-reverse s.stack h.on_stack;
    in_memory = h.in_memory;
    in_storage = h.in_storage;
  }

  after_instruction-IsBounded :
      (op : Opcode) (r : Result (Option ℕ)) (s : Vm)
      → IsWellFormed s
      → NextIsBounded (after_instruction gas_limit gas pc op (r, s))
  unfolding after_instruction success_result failed_result reverted_result
  after_instruction-IsBounded op (ok jumped) s h = elim (Bool-cases (is_halt op)) [
    | inl e ↦ rw e (reported true false false none s s.ledger.balance_changes _ h)
    | inr e ↦ rw e h
  ]
  after_instruction-IsBounded op (err (Machine.fault e)) s h =
      reported false false false _ s s.ledger.balance_changes _ h
  after_instruction-IsBounded op (err Machine.reverted) s h =
      reported false true false _ s s.ledger.balance_changes _ h
  after_instruction-IsBounded op (err Machine.uncaught) s h = tt

module _ (X : Externals) (ctx : Context) (gas_limit : ℕ) where
  run_opcode-IsBounded :
      (n : ℕ) (op : Opcode) (vs : List Value) (pc gas : ℕ) (s : Vm)
      → IsWellFormed s
      → NextIsBounded (run_opcode X ctx gas_limit n op vs pc gas s)
  unfolding run_opcode failure_before
  run_opcode-IsBounded n op vs pc gas s h =
      let (r, s') = execute_instruction X ctx n op vs s in
      elim (Bool-cases (ltb gas (gas_cost op))) [
        | inl short ↦ rw short (reported gas_limit 0 pc false false true _ s [] _ h)
        | inr covered ↦ rw covered (
            after_instruction-IsBounded gas_limit (gas - gas_cost op) pc op r s'
              ((Keeps-execute_instruction X ctx n op vs).at s h))
      ]

  run_instruction-IsBounded :
      (n : ℕ) (op : Option Opcode) (vs : List Value) (pc gas : ℕ) (s : Vm)
      → IsWellFormed s
      → NextIsBounded (run_instruction X ctx gas_limit n op vs pc gas s)
  unfolding run_instruction failure_before
  run_instruction-IsBounded n none vs pc gas s h =
      reported gas_limit gas pc false false false _ s [] _ h
  run_instruction-IsBounded n (some op) vs pc gas s h = run_opcode-IsBounded n op vs pc gas s h

  at_instruction-IsBounded :
      (n : ℕ) (i : Option Instruction) (pc gas : ℕ) (s : Vm)
      → IsWellFormed s
      → NextIsBounded (at_instruction X ctx gas_limit n i pc gas s)
  unfolding at_instruction success_result
  at_instruction-IsBounded n none pc gas s h =
      reported gas_limit gas pc true false false _ s s.ledger.balance_changes _ h
  at_instruction-IsBounded n (some i) pc gas s h =
      run_instruction-IsBounded n i.opcode i.operands pc gas s h

  run-IsBounded :
      (is : List Instruction) (fuel pc gas : ℕ) (s : Vm) {r : UvmResult}
      → IsWellFormed s
      → run X ctx gas_limit is fuel pc gas s ≡ some (returned r)
      → IsBounded r
  unfolding run Run.next
  run-IsBounded is zero pc gas s w h = cc
  run-IsBounded is (suc fuel) pc gas s {r} w h =
      let kept = at_instruction-IsBounded (length is) (get_elem? is pc) pc gas s w in
      elim (Next-cases (Run.next X ctx gas_limit is pc gas s)) [
        | inl (q, e) ↦
            let same : q ≡ r = ground (arith, rw (e, run) at h) in
            subst IsBounded same (rw e at kept)
        | inr (inl e) ↦ let h' = rw (e, run) at h in cc
        | inr (inr (pc', gas', s', e)) ↦
            run-IsBounded is fuel pc' gas' s' (rw e at kept) (rw (e, run) at h)
      ]

returned_injective : {q r : UvmResult} → some (returned q) ≡ some (returned r) → q ≡ r
returned_injective e = cc

normalize_storage-HoldsWords : (d : Dict ℕ) → HoldsWords (normalize_storage d)
unfolding normalize_storage
normalize_storage-HoldsWords [] = tt
normalize_storage-HoldsWords ((k, v) ∷ d) = (omega arith, normalize_storage-HoldsWords d)

refused-IsBounded :
    (e : UvmError) (gas : ℕ) (storage : Dict ℕ)
    → HoldsWords storage
    → IsBounded (refused e gas storage)
unfolding result
refused-IsBounded e gas storage w = record {
  bounded = omega arith;
  on_stack = tt;
  in_memory = tt;
  in_storage = w;
}

module _ (X : Externals) (ctx : Context) where
  instructions-IsBounded :
      (is : List Instruction) (limit : ℤ) {r : UvmResult}
      → HoldsWords ctx.storage
      → execute_instructions X ctx is limit ≡ some (returned r)
      → IsBounded r
  unfolding execute_instructions
  instructions-IsBounded is (pos n) w h =
      run-IsBounded X ctx n is (suc n) 0 n _
        (record {
          bounded = omega arith;
          on_stack = tt;
          in_memory = tt;
          in_storage = normalize_storage-HoldsWords ctx.storage;
        })
        h
  instructions-IsBounded is (negsuc n) w h =
      subst IsBounded (returned_injective h)
        (refused-IsBounded Machine.negative_gas_limit 0 ctx.storage w)

  parsed-IsBounded :
      (o : Option (List Instruction)) {r : UvmResult}
      → HoldsWords ctx.storage
      → execute_parsed X ctx o ≡ some (returned r)
      → IsBounded r
  unfolding execute_parsed
  parsed-IsBounded none w h = elim (Bool-cases (has_long_text ctx.gas_limit)) [
    | inl long ↦ let h' = rw long at h in cc
    | inr short ↦ subst IsBounded (returned_injective (rw short at h)) (refused-IsBounded _ _ _ w)
  ]
  parsed-IsBounded (some is) w h = instructions-IsBounded is ctx.gas_limit w h

  -- Given a storage of words, every result has at most 1024 words on its stack, and only words
  -- below 2^256 there, in its memory and in its storage.
  pub execute_program-IsBounded :
      (program : Value) {r : UvmResult}
      → HoldsWords ctx.storage
      → execute_program X program ctx ≡ some (returned r)
      → IsBounded r
  unfolding execute_program
  execute_program-IsBounded program w h = parsed-IsBounded (parse_program X program) w h
