-- ===== src/Uvm/Caught.antt =====
-- What can leave `execute_uvm_program` as a `ValueError`: the stack operations never do.
pub mod Steps
pub mod Runs
use unc_coin.Prelude.{
  ℕ, String, ◌≡◌, refl, Bool, true, false, Option, none, some, List, [], ◌∷◌, arith, leb,
  if◌then◌else◌, length, Bool-cases, inl, inr,
}
use unc_coin.Prelude.Int.{ℤ}
use unc_coin.Uvm.Machine
use unc_coin.Uvm.Machine.{
  Exec, Result, ok, err, fault, reverted, uncaught, Vm, UvmError, pure, raise, require, guard,
  ◌>>=◌, ◌>>◌, push_word, pop_from, pop_word, peek_from, peek_word, swap_from, swap_words,
  read_memory, write_memory, read_storage, write_storage,
}
use unc_coin.Uvm.Context.{Context}
use unc_coin.Uvm.Step.{revert_now, transfer_funds}

abbrev pub is_caught : {A : Type 0} → Result A → Bool
is_caught (ok a) = true
is_caught (err (fault e)) = true
is_caught (err reverted) = true
is_caught (err uncaught) = false

-- An action that no `ValueError` leaves.
pub record Caught {A : Type 0} (m : Exec A) : Type 0 where
  pub at : (s : Vm) → is_caught (m s).0 ≡ true

module _ {A : Type 0} where
  pub Caught-pure : (a : A) → Caught (pure a)
  unfolding pure
  Caught-pure a = record { at = λ s. refl }

  pub Caught-raise : (e : UvmError) → Caught (raise {A = A} e)
  unfolding raise
  Caught-raise e = record { at = λ s. refl }

  pub Caught-require : (e : UvmError) (o : Option A) → Caught (require e o)
  unfolding require
  Caught-require e none = record { at = λ s. refl }
  Caught-require e (some a) = record { at = λ s. refl }

  pub Caught-if : (b : Bool) (m n : Exec A) → Caught m → Caught n → Caught (if b then m else n)
  Caught-if true m n hm hn = hm
  Caught-if false m n hm hn = hn

module _ {A B : Type 0} where
  continue-Caught :
      (r : Result A) (f : A → Exec B) (s : Vm)
      → is_caught r ≡ true
      → ((a : A) → Caught (f a))
      → is_caught (Machine.continue r f s).0 ≡ true
  continue-Caught (ok a) f s e h = (h a).at s
  continue-Caught (err r) f s e h = e

  pub Caught-bind :
      (m : Exec A) (f : A → Exec B) → Caught m → ((a : A) → Caught (f a)) → Caught (m >>= f)
  unfolding ◌>>=◌
  Caught-bind m f hm hf = record {
    at = λ s. let (r, s') = m s in continue-Caught r f s' (hm.at s) hf;
  }

-- A value that is looked up, with the equation that it was found by.
pub Caught-found :
    {A B : Type 0} (e : UvmError) (o : Option A) (f : A → Exec B)
    → ((a : A) → o ≡ some a → Caught (f a))
    → Caught (require e o >>= f)
unfolding require ◌>>=◌
Caught-found e none f h = record { at = λ s. refl }
Caught-found e (some a) f h = record { at = λ s. (h a refl).at s }

pub Caught-guard : (e : UvmError) (b : Bool) → Caught (guard e b)
unfolding guard
Caught-guard e true = record { at = λ s. refl }
Caught-guard e false = record { at = λ s. refl }

pub Caught-push : (v : ℤ) → Caught (push_word v)
unfolding push_word
Caught-push v = record { at = λ s. ground arith }

pop_from_caught : (xs : List ℕ) (s : Vm) → is_caught (pop_from xs s).0 ≡ true
unfolding pop_from
pop_from_caught [] s = refl
pop_from_caught (x ∷ xs) s = refl

pub Caught-pop : Caught pop_word
unfolding pop_word
Caught-pop = record { at = λ s. pop_from_caught s.stack s }

peek_from_caught : (xs : List ℕ) (s : Vm) → is_caught (peek_from xs s).0 ≡ true
unfolding peek_from
peek_from_caught [] s = refl
peek_from_caught (x ∷ xs) s = refl

pub Caught-peek : Caught peek_word
unfolding peek_word
Caught-peek = record { at = λ s. peek_from_caught s.stack s }

swap_from_caught : (xs : List ℕ) (s : Vm) → is_caught (swap_from xs s).0 ≡ true
unfolding swap_from
swap_from_caught [] s = refl
swap_from_caught (x ∷ []) s = refl
swap_from_caught (x ∷ y ∷ xs) s = refl

pub Caught-swap : Caught swap_words
unfolding swap_words
Caught-swap = record { at = λ s. swap_from_caught s.stack s }

pub Caught-read_memory : (k : String) → Caught (read_memory k)
unfolding read_memory
Caught-read_memory k = record { at = λ s. refl }

pub Caught-write_memory : (k : String) (v : ℕ) → Caught (write_memory k v)
unfolding write_memory
Caught-write_memory k v = record { at = λ s. refl }

pub Caught-read_storage : (k : String) → Caught (read_storage k)
unfolding read_storage
Caught-read_storage k = record { at = λ s. refl }

pub Caught-write_storage : (k : String) (v : ℕ) → Caught (write_storage k v)
unfolding write_storage
Caught-write_storage k v = record { at = λ s. refl }

pub Caught-revert_now : Caught revert_now
unfolding revert_now
Caught-revert_now = record { at = λ s. refl }

pub Caught-transfer_funds :
    (ctx : Context) (source receiver q : String) (amount : ℤ)
    → Caught (transfer_funds ctx source receiver q amount)
unfolding transfer_funds
Caught-transfer_funds ctx source receiver q amount = record { at = λ s. ground arith }
