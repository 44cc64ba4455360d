-- ===== src/Assembler/Clean.antt =====
-- Instructions with fitting operands: what the machine may still report for one.
use unc_coin.Prelude.{
  ℕ, String, ◌≡◌, refl, Bool, true, false, Option, none, some, List, [], ◌∷◌, arith, leb,
  if◌then◌else◌, length, Bool-cases, inl, inr,
}
use unc_coin.Prelude.Int.{ℤ}
use unc_coin.Uvm.Machine
use unc_coin.Uvm.Machine.{
  Exec, Result, ok, err, fault, reverted, uncaught, Stop, Vm, UvmError, invalid_program,
  unknown_opcode, operand_count, operand_not_int, pure, raise, escape, require, guard, ◌>>=◌, ◌>>◌,
  push_word, pop_from, pop_word, peek_from, peek_word, swap_from, swap_words, read_memory,
  write_memory, read_storage, write_storage,
}
use unc_coin.Uvm.Context.{Context}
use unc_coin.Uvm.Step.{revert_now, transfer_funds}

-- The errors that tell of no fault in the shape of a program.
abbrev pub is_of_run : UvmError → Bool
is_of_run invalid_program = false
is_of_run unknown_opcode = false
is_of_run operand_count = false
is_of_run operand_not_int = false
is_of_run _ = true

abbrev pub stop_of_run : Stop → Bool
stop_of_run (fault e) = is_of_run e
stop_of_run reverted = true
stop_of_run uncaught = true

abbrev pub result_of_run : {A : Type 0} → Result A → Bool
result_of_run (ok a) = true
result_of_run (err e) = stop_of_run e

-- An action that reports no fault in the shape of a program.
pub record Clean {A : Type 0} (m : Exec A) : Type 0 where
  pub at : (s : Vm) → result_of_run (m s).0 ≡ true

module _ {A : Type 0} where
  pub Clean-pure : (a : A) → Clean (pure a)
  unfolding pure
  Clean-pure a = record { at = λ s. refl }

  pub Clean-raise : (e : UvmError) → is_of_run e ≡ true → Clean (raise {A = A} e)
  unfolding raise
  Clean-raise e h = record { at = λ s. h }

  pub Clean-escape : Clean (escape {A = A})
  unfolding escape
  Clean-escape = record { at = λ s. refl }

  pub Clean-require : (e : UvmError) (o : Option A) → is_of_run e ≡ true → Clean (require e o)
  unfolding require
  Clean-require e none h = record { at = λ s. h }
  Clean-require e (some a) h = record { at = λ s. refl }

  pub Clean-if : (b : Bool) (m n : Exec A) → Clean m → Clean n → Clean (if b then m else n)
  Clean-if true m n hm hn = hm
  Clean-if false m n hm hn = hn

module _ {A B : Type 0} where
  continue-Clean :
      (r : Result A) (f : A → Exec B) (s : Vm)
      → result_of_run r ≡ true
      → ((a : A) → Clean (f a))
      → result_of_run (Machine.continue r f s).0 ≡ true
  continue-Clean (ok a) f s e h = (h a).at s
  continue-Clean (err r) f s e h = e

  pub Clean-bind :
      (m : Exec A) (f : A → Exec B) → Clean m → ((a : A) → Clean (f a)) → Clean (m >>= f)
  unfolding ◌>>=◌
  Clean-bind m f hm hf = record {
    at = λ s. let (r, s') = m s in continue-Clean r f s' (hm.at s) hf;
  }

pub Clean-guard : (e : UvmError) (b : Bool) → is_of_run e ≡ true → Clean (guard e b)
unfolding guard
Clean-guard e true h = record { at = λ s. refl }
Clean-guard e false h = record { at = λ s. h }

pub Clean-push : (v : ℤ) → Clean (push_word v)
unfolding push_word
Clean-push v = record { at = λ s. ground arith }

pop_from_clean : (xs : List ℕ) (s : Vm) → result_of_run (pop_from xs s).0 ≡ true
unfolding pop_from
pop_from_clean [] s = refl
pop_from_clean (x ∷ xs) s = refl

pub Clean-pop : Clean pop_word
unfolding pop_word
Clean-pop = record { at = λ s. pop_from_clean s.stack s }

peek_from_clean : (xs : List ℕ) (s : Vm) → result_of_run (peek_from xs s).0 ≡ true
unfolding peek_from
peek_from_clean [] s = refl
peek_from_clean (x ∷ xs) s = refl

pub Clean-peek : Clean peek_word
unfolding peek_word
Clean-peek = record { at = λ s. peek_from_clean s.stack s }

swap_from_clean : (xs : List ℕ) (s : Vm) → result_of_run (swap_from xs s).0 ≡ true
unfolding swap_from
swap_from_clean [] s = refl
swap_from_clean (x ∷ []) s = refl
swap_from_clean (x ∷ y ∷ xs) s = refl

pub Clean-swap : Clean swap_words
unfolding swap_words
Clean-swap = record { at = λ s. swap_from_clean s.stack s }

pub Clean-read_memory : (k : String) → Clean (read_memory k)
unfolding read_memory
Clean-read_memory k = record { at = λ s. refl }

pub Clean-write_memory : (k : String) (v : ℕ) → Clean (write_memory k v)
unfolding write_memory
Clean-write_memory k v = record { at = λ s. refl }

pub Clean-read_storage : (k : String) → Clean (read_storage k)
unfolding read_storage
Clean-read_storage k = record { at = λ s. refl }

pub Clean-write_storage : (k : String) (v : ℕ) → Clean (write_storage k v)
unfolding write_storage
Clean-write_storage k v = record { at = λ s. refl }

pub Clean-revert_now : Clean revert_now
unfolding revert_now
Clean-revert_now = record { at = λ s. refl }

pub Clean-transfer_funds :
    (ctx : Context) (source receiver q : String) (amount : ℤ)
    → Clean (transfer_funds ctx source receiver q amount)
unfolding transfer_funds
Clean-transfer_funds ctx source receiver q amount = record { at = λ s. ground arith }

pub ruleset clean_base =
    (Clean-pure, Clean-raise, Clean-escape, Clean-require, Clean-if, Clean-bind, refl)

pub ruleset clean_stack = (
  clean_base, Clean-guard, Clean-push, Clean-pop, Clean-peek, Clean-swap, Clean-read_memory,
  Clean-write_memory, Clean-read_storage, Clean-write_storage, Clean-revert_now,
  Clean-transfer_funds,
)
