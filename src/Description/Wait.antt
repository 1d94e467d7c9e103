-- ===== src/Description/Wait.antt =====
-- wait_for_robot_description: it returns, and what.
use native.Mathlib.Decide.{dec_lt}
use mathlib.Core.Path.{subst}
use kinova_gen3_ros.Common.{
  ℕ, zero, suc, ◌+◌, ◌≤◌, ◌<◌, ◌≡◌, refl, sym, ap, ◌∙◌, Bool, true, false, ◌&&◌, Option, none, some,
  ltb, arith, Bool-cases, Option-cases, inl, inr, if_yes, if_no,
}
use kinova_gen3_ros.Common.Text.{String}
use kinova_gen3_ros.Description.{Spin, received, await_model, wait_for_robot_description}

-- Whether the loop spins on in a round without a model.
abbrev pub is_open : ℕ → Spin → Bool
is_open deadline s = s.ok && ltb s.now_ms deadline

module _ (spins : ℕ → Spin) (deadline : ℕ) where
  -- A round that has been spun without a message.
  abbrev pub Fruitless : ℕ → Type 0
  Fruitless j = (is_open deadline (spins j) ≡ true) × ((spins j).delivered ≡ none)

  -- The wait's result: the first message, delivered while every round so far was spun; or none, when
  -- every round before the last had none.
  pub data Awaited (out : Option String) : Type 0 where
    arrived :
        (i : ℕ) (m : String)
        → ((j : ℕ) → j < i → Fruitless j)
        → is_open deadline (spins i) ≡ true
        → (spins i).delivered ≡ some m
        → out ≡ some m
        → Awaited out
    gave_up :
        (i : ℕ)
        → ((j : ℕ) → j < i → Fruitless j)
        → is_open deadline (spins i) ≡ false
        → out ≡ none
        → Awaited out

  abbrev Ends : ℕ → ℕ → Type 0
  Ends fuel i =
      (out : Option String) × (await_model fuel deadline spins i none ≡ some out) × Awaited out

  Fruitless-suc :
      (i : ℕ) → ((j : ℕ) → j < i → Fruitless j) → Fruitless i → (j : ℕ) → j < suc i → Fruitless j
  Fruitless-suc i all this j h = elim (dec_lt j i) [
    | yes p ↦ all j p
    | no p ↦ let same : i ≡ j = omega arith in subst Fruitless same this
  ]

  await_model-some :
      (fuel i : ℕ) (m : String)
      → 0 < fuel
      → await_model fuel deadline spins i (some m) ≡ some (some m)
  unfolding await_model
  await_model-some zero i m h = absurd (omega arith)
  await_model-some (suc fuel) i m h = refl

  shut_late : (n : ℕ) → deadline ≤ (spins n).now_ms → is_open deadline (spins n) ≡ false
  shut_late n late = ground arith

  open_below :
      (n i : ℕ) → deadline ≤ (spins n).now_ms → i ≤ n → is_open deadline (spins i) ≡ true → i < n
  open_below n i late le open' = elim (dec_lt i n) [
    | yes p ↦ p
    | no p ↦
        let same : i ≡ n = omega arith in
        let shut : is_open deadline (spins i) ≡ false =
          subst (λ k. is_open deadline (spins k) ≡ false) (sym same) (shut_late n late) in
        absurd (cc (open', shut))
  ]

  await_model-Ends :
      (n : ℕ)
      → deadline ≤ (spins n).now_ms
      → (fuel i : ℕ) → i ≤ n
      → n < i + fuel
      → ((j : ℕ) → j < i → Fruitless j)
      → Ends fuel i
  unfolding await_model
  await_model-Ends n late zero i le lt all = absurd (omega arith)
  await_model-Ends n late (suc fuel) i le lt all = elim (Bool-cases (is_open deadline (spins i))) [
    | inr shut ↦ (none, if_no _ _ shut, gave_up i all shut refl)
    | inl open' ↦
        let below : i < n = open_below n i late le open' in
        elim (Option-cases (spins i).delivered) [
          | inl quiet ↦
              let (out, run, awaited) =
                await_model-Ends n late fuel (suc i) below (omega (arith, lt))
                  (Fruitless-suc i all (open', quiet)) in
              (
                out,
                if_yes _ _ open'
                    ∙ ap (λ x. await_model fuel deadline spins (suc i) (received none x)) quiet
                    ∙ run,
                awaited,
              )
          | inr (m, came) ↦ (
            some m,
            if_yes _ _ open'
                ∙ ap (λ x. await_model fuel deadline spins (suc i) (received none x)) came
                ∙ await_model-some fuel (suc i) m (omega (arith, below, lt)),
            arrived i m all open' came refl,
          )
        ]
  ]

-- The wait for the model always returns: with fuel for the rounds up to one that comes at the
-- deadline or later, it returns the first message that was delivered while rclcpp was up and the
-- deadline not reached, or nothing at the first round in which one of these is over.
pub wait_returns :
    (spins : ℕ → Spin) (fuel start_ms timeout_ms n : ℕ)
    → start_ms + timeout_ms ≤ (spins n).now_ms
    → n < fuel
    → (out : Option String) × (wait_for_robot_description fuel start_ms timeout_ms spins ≡ some out)
      × Awaited spins (start_ms + timeout_ms) out
unfolding wait_for_robot_description
wait_returns spins fuel start_ms timeout_ms n late enough =
    await_model-Ends spins (start_ms + timeout_ms) n late fuel 0 (omega arith)
      (omega (arith, enough)) (λ j h. absurd (omega arith))
