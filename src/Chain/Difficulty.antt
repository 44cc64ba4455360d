-- ===== src/Chain/Difficulty.antt =====
-- The difficulty steps of `get_difficulty_bits_for_height`.
use native.Mathlib.Nat.{pow-zero, pow-succ'}
use unc_coin.Prelude.{
  ℕ, zero, suc, ◌+◌, ◌*◌, ◌^◌, ◌≤◌, ◌<◌, ◌≡◌, ◌∙◌, ap, some, arith, leb, Bool-cases, inl, inr,
}
use unc_coin.Chain.Block.{growth_steps}

-- `n` is the first number of steps that takes the threshold above the height.
IsFirstAbove : ℕ → ℕ → ℕ → ℕ → Type 0
IsFirstAbove height threshold factor n =
    (height < threshold * factor ^ n) × ((m : ℕ) → m < n → threshold * factor ^ m ≤ height)

times_none : (threshold factor : ℕ) → threshold * factor ^ 0 ≡ threshold
times_none threshold factor = rw pow-zero (omega arith)

times_more : (threshold factor n : ℕ) → threshold * factor ^ suc n ≡ threshold * factor * factor ^ n
times_more threshold factor n = rw pow-succ' (grind arith)

grows : (threshold factor : ℕ) → 1 ≤ threshold → 2 ≤ factor → suc threshold ≤ threshold * factor
grows threshold zero low twice = elim twice [ ]
grows threshold (suc factor) low twice = grind arith

one_more :
    (height threshold factor n : ℕ)
    → threshold ≤ height
    → IsFirstAbove height (threshold * factor) factor n
    → IsFirstAbove height threshold factor (suc n)
unfolding IsFirstAbove
one_more height threshold factor n below (over, under) = (rw times_more over, first)
  where
    first : (m : ℕ) → m < suc n → threshold * factor ^ m ≤ height
    first zero h = rw times_none below
    first (suc m) h = rw times_more (under m (omega arith))

steps_on :
    (fuel height threshold factor steps : ℕ)
    → 1 ≤ threshold
    → 2 ≤ factor
    → suc height < threshold + fuel
    → 1 ≤ fuel
    → (n : ℕ) × (growth_steps fuel height threshold factor steps ≡ some (steps + n))
      × IsFirstAbove height threshold factor n
unfolding growth_steps IsFirstAbove
steps_on zero height threshold factor steps low twice enough fueled = elim fueled [ ]
steps_on (suc fuel) height threshold factor steps low twice enough fueled =
    elim (Bool-cases (leb threshold height)) [
      | inl below ↦
          let more = grows threshold factor low twice in
          let under : threshold ≤ height = ground (arith, below) in
          let (n, e, first) =
            steps_on fuel height (threshold * factor) factor (suc steps) (omega arith) twice
              (omega arith) (omega arith) in
          (
            suc n,
            rw below (e ∙ ap some (omega arith)),
            one_more height threshold factor n under first,
          )
      | inr above ↦ (
        0,
        rw above (ap some (omega arith)),
        (rw times_none (ground (arith, above)), λ m h. omega arith),
      )
    ]

-- With a threshold of at least 1 and a factor of at least 2, the loop of the difficulty schedule
-- ends within a round more than the block height, and counts the steps up to the first power of
-- the factor that takes the threshold above the height.
pub growth_steps_lem :
    (height threshold factor : ℕ)
    → 1 ≤ threshold
    → 2 ≤ factor
    → (n : ℕ) × (growth_steps (suc height) height threshold factor 0 ≡ some n)
      × (height < threshold * factor ^ n)
      × ((m : ℕ) → m < n → threshold * factor ^ m ≤ height)
unfolding IsFirstAbove
growth_steps_lem height threshold factor low twice =
    let (n, e, (over, under)) =
      steps_on (suc height) height threshold factor 0 low twice (omega arith) (omega arith) in
    (n, e ∙ ap some (omega arith), over, under)
