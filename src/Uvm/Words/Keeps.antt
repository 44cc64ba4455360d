-- ===== src/Uvm/Words/Keeps.antt =====
-- Actions that keep the bounds of the machine, one rule for each way to build an action.
use unc_coin.Prelude.{
  ℕ, ◌≤◌, String, Bool, true, false, Option, none, some, List, [], ◌∷◌, arith, leb, if◌then◌else◌,
  length, Bool-cases, inl, inr,
}
use unc_coin.Prelude.Int.{ℤ}
use unc_coin.Uvm.Machine
use unc_coin.Uvm.Machine.{
  Exec, Result, ok, err, Vm, UvmError, word_modulus, max_stack_items, normalize_word, pure, raise,
  escape, require, guard, ◌>>=◌, ◌>>◌, push_word, pop_from, pop_word, peek_from, peek_word,
  swap_from, swap_words, read_memory, write_memory, read_storage, write_storage,
}
use unc_coin.Uvm.Context.{Context}
use unc_coin.Uvm.Step.{revert_now, transfer_funds}
use unc_coin.Uvm.Words.{IsWord, AreWords, IsWellFormed, insert-HoldsWords, normalize_word-IsWord}

-- An action that keeps the bounds, whether it returns or stops.
pub record Keeps {A : Type 0} (m : Exec A) : Type 0 where
  pub at : (s : Vm) → IsWellFormed s → IsWellFormed (m s).1

module _ {A : Type 0} where
  pub Keeps-pure : (a : A) → Keeps (pure a)
  unfolding pure
  Keeps-pure a = record { at = λ s h. h }

  pub Keeps-raise : (e : UvmError) → Keeps (raise {A = A} e)
  unfolding raise
  Keeps-raise e = record { at = λ s h. h }

  pub Keeps-escape : Keeps (escape {A = A})
  unfolding escape
  Keeps-escape = record { at = λ s h. h }

  pub Keeps-require : (e : UvmError) (o : Option A) → Keeps (require e o)
  unfolding require
  Keeps-require e none = record { at = λ s h. h }
  Keeps-require e (some a) = record { at = λ s h. h }

  pub Keeps-if : (b : Bool) (m n : Exec A) → Keeps m → Keeps n → Keeps (if b then m else n)
  Keeps-if true m n hm hn = hm
  Keeps-if false m n hm hn = hn

module _ {A B : Type 0} where
  continue-Keeps :
      (r : Result A) (f : A → Exec B) (s : Vm)
      → ((a : A) → Keeps (f a))
      → IsWellFormed s
      → IsWellFormed (Machine.continue r f s).1
  continue-Keeps (ok a) f s h w = (h a).at s w
  continue-Keeps (err e) f s h w = w

  pub Keeps-bind :
      (m : Exec A) (f : A → Exec B) → Keeps m → ((a : A) → Keeps (f a)) → Keeps (m >>= f)
  unfolding ◌>>=◌
  Keeps-bind m f hm hf = record {
    at = λ s w. let (r, s') = m s in continue-Keeps r f s' hf (hm.at s w);
  }

pub Keeps-guard : (e : UvmError) (b : Bool) → Keeps (guard e b)
unfolding guard
Keeps-guard e true = record { at = λ s h. h }
Keeps-guard e false = record { at = λ s h. h }

pub Keeps-push : (v : ℤ) → Keeps (push_word v)
unfolding push_word
Keeps-push v = record {
  at = λ s h. elim (Bool-cases (leb max_stack_items (length s.stack))) [
    | inl full ↦ rw full h
    | inr room ↦ rw room (record {
      bounded = ground arith;
      on_stack = (normalize_word-IsWord v, h.on_stack);
      in_memory = h.in_memory;
      in_storage = h.in_storage;
    })
  ];
}

module _ {A : Type 0} (f : ℕ → Exec A) (hf : (x : ℕ) → IsWord x → Keeps (f x)) where
  pop_from_keeps :
      (xs : List ℕ) (s : Vm)
      → length xs ≤ max_stack_items
      → AreWords xs
      → IsWellFormed s
      → IsWellFormed ((pop_from xs >>= f) s).1
  unfolding pop_from ◌>>=◌
  pop_from_keeps [] s n ws h = h
  pop_from_keeps (x ∷ xs) s n ws h =
      (hf x ws.0).at (record s { stack = xs })
        (record {
          bounded = omega arith;
          on_stack = ws.1;
          in_memory = h.in_memory;
          in_storage = h.in_storage;
        })

  -- What comes after a pop may use that it got a word.
  pub Keeps-pop : Keeps (pop_word >>= f)
  unfolding pop_word ◌>>=◌
  Keeps-pop = record { at = λ s h. pop_from_keeps s.stack s h.bounded h.on_stack h }

peek_from_keeps : (xs : List ℕ) (s : Vm) → IsWellFormed s → IsWellFormed (peek_from xs s).1
unfolding peek_from
peek_from_keeps [] s h = h
peek_from_keeps (x ∷ xs) s h = h

pub Keeps-peek : Keeps peek_word
unfolding peek_word
Keeps-peek = record { at = λ s h. peek_from_keeps s.stack s h }

swap_from_keeps :
    (xs : List ℕ) (s : Vm)
    → length xs ≤ max_stack_items
    → AreWords xs
    → IsWellFormed s
    → IsWellFormed (swap_from xs s).1
unfolding swap_from
swap_from_keeps [] s n ws h = h
swap_from_keeps (x ∷ []) s n ws h = h
swap_from_keeps (x ∷ y ∷ xs) s n ws h = record {
  bounded = n;
  on_stack = (ws.1.0, (ws.0, ws.1.1));
  in_memory = h.in_memory;
  in_storage = h.in_storage;
}

pub Keeps-swap : Keeps swap_words
unfolding swap_words
Keeps-swap = record { at = λ s h. swap_from_keeps s.stack s h.bounded h.on_stack h }

pub Keeps-read_memory : (k : String) → Keeps (read_memory k)
unfolding read_memory
Keeps-read_memory k = record { at = λ s h. h }

pub Keeps-read_storage : (k : String) → Keeps (read_storage k)
unfolding read_storage
Keeps-read_storage k = record { at = λ s h. h }

pub Keeps-write_memory : (k : String) (x : ℕ) → IsWord x → Keeps (write_memory k x)
unfolding write_memory
Keeps-write_memory k x w = record {
  at = λ s h. record {
    bounded = h.bounded;
    on_stack = h.on_stack;
    in_memory = insert-HoldsWords k x s.memory w h.in_memory;
    in_storage = h.in_storage;
  };
}

pub Keeps-write_storage : (k : String) (x : ℕ) → IsWord x → Keeps (write_storage k x)
unfolding write_storage
Keeps-write_storage k x w = record {
  at = λ s h. record {
    bounded = h.bounded;
    on_stack = h.on_stack;
    in_memory = h.in_memory;
    in_storage = insert-HoldsWords k x s.storage w h.in_storage;
  };
}

pub Keeps-revert_now : Keeps revert_now
unfolding revert_now
Keeps-revert_now = record { at = λ s h. h }

pub Keeps-transfer_funds :
    (ctx : Context) (source receiver q : String) (amount : ℤ)
    → Keeps (transfer_funds ctx source receiver q amount)
unfolding transfer_funds
Keeps-transfer_funds ctx source receiver q amount = record { at = λ s h. ground arith }
