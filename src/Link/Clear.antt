-- ===== src/Link/Clear.antt =====
-- LinkServer::on_clear: it always answers, and what it answers.
use kinova_gen3_ros.Common.{
  ℕ, zero, suc, ◌+◌, ◌*◌, ◌≤◌, ◌<◌, ◌≡◌, ◌≢◌, ◌⊎◌, refl, sym, ◌∙◌, ap, true, false, not, some,
  arith, Bool-cases, inl, inr, if_yes, if_no, ℕ_eq,
}
use native.Mathlib.Decide.{dec_lt}
use kinova_gen3_ros.Common.Text.{String}
use kinova_gen3_ros.Link.{
  LinkState, Call, Round, TriggerResponse, contact_cleared, is_running, still_waiting, wait,
  max_rounds, answer, answer_wait, on_clear,
}

-- A steady clock, which a sleep moves by 20 ms at least.
pub record IsTicking (c : Call) : Type 0 where
  pub starts : c.start_ms ≤ (c.rounds 0).now_ms
  pub ticks : (i : ℕ) → (c.rounds i).now_ms + 20 ≤ (c.rounds (suc i)).now_ms

abbrev pub deadline : Call → ℕ
deadline c = c.start_ms + 10000

-- A round that waits on: the count of clears has not moved, no stop is asked for, it is before the
-- deadline; and one that does not.
abbrev pub WaitsOn : Call → Round → Type 0
WaitsOn c r = (r.status.clears_done ≡ c.before) × (r.stop ≡ false) × (r.now_ms < c.start_ms + 10000)

abbrev pub IsLeft : Call → Round → Type 0
IsLeft c r = (r.status.clears_done ≢ c.before) ⊎ (r.stop ≡ true) ⊎ (c.start_ms + 10000 ≤ r.now_ms)

-- The loop's first round that does not wait on.
pub record IsEnd (c : Call) (k : ℕ) : Type 0 where
  pub early : k ≤ 500
  pub waited : (j : ℕ) → j < k → WaitsOn c (c.rounds j)
  pub done : IsLeft c (c.rounds k)

still_waiting-WaitsOn :
    (c : Call) (r : Round) → still_waiting c.before (deadline c) r ≡ true → WaitsOn c r
unfolding still_waiting
still_waiting-WaitsOn c r e = ground (arith, e)

still_waiting-IsLeft :
    (c : Call) (r : Round) → still_waiting c.before (deadline c) r ≡ false → IsLeft c r
unfolding still_waiting
still_waiting-IsLeft c r e = ground (arith, e)

clock : (c : Call) → IsTicking c → (i : ℕ) → c.start_ms + 20 * i ≤ (c.rounds i).now_ms
clock c t zero = omega (arith, t.starts)
clock c t (suc i) = omega (arith, clock c t i, t.ticks i)

-- By round 500 the deadline has passed.
ends_in_time : (c : Call) → IsTicking c → still_waiting c.before (deadline c) (c.rounds 500) ≡ false
unfolding still_waiting
ends_in_time c t = ground (arith, clock c t 500)

wait_ends :
    (c : Call)
    → IsTicking c
    → (fuel i : ℕ) → i + fuel ≡ max_rounds
    → ((j : ℕ) → j < i → still_waiting c.before (deadline c) (c.rounds j) ≡ true)
    → (k : ℕ) × IsEnd c k × (wait fuel c.before (deadline c) c.rounds i ≡ some (c.rounds k).status)
unfolding wait
wait_ends c t zero i e all =
    let on : true ≡ false = sym (all 500 (omega arith)) ∙ ends_in_time c t in absurd cc
wait_ends c t (suc fuel) i e all =
    elim (Bool-cases (still_waiting c.before (deadline c) (c.rounds i))) [
      | inl y ↦
          let (k, at, out) = wait_ends c t fuel (suc i) (omega arith) (one_more y) in
          (k, at, if_yes _ _ y ∙ out)
      | inr n ↦ (i, ended i all n (omega arith), if_no _ _ n)
    ]
  where
    ended :
        (i : ℕ)
        → ((j : ℕ) → j < i → still_waiting c.before (deadline c) (c.rounds j) ≡ true)
        → still_waiting c.before (deadline c) (c.rounds i) ≡ false
        → i ≤ 500
        → IsEnd c i
    ended i all n le = record {
      early = le;
      waited = λ j h. still_waiting-WaitsOn c (c.rounds j) (all j h);
      done = still_waiting-IsLeft c (c.rounds i) n;
    }

    one_more :
        still_waiting c.before (deadline c) (c.rounds i) ≡ true
        → (j : ℕ) → j < suc i
        → still_waiting c.before (deadline c) (c.rounds j) ≡ true
    one_more y j h = elim (dec_lt j i) [
      | yes p ↦ all j p
      | no p ↦ let same : i ≡ j = omega arith in rw (← same) y
    ]

module _ (state_text : LinkState → String) where
  -- How a call is answered: at once when the link refuses the request, with success exactly when a
  -- contact stop was cleared; or after the wait, with success exactly when the link then runs.
  pub data Answered (c : Call) (res : TriggerResponse) : Type 0 where
    at_once : c.requested ≡ false → res.success ≡ contact_cleared c.contact → Answered c res
    waited :
        (k : ℕ)
        → c.requested ≡ true
        → IsEnd c k
        → res.success ≡ is_running (c.rounds k).status.state
        → Answered c res

  -- Over a steady clock which each sleep moves by at least its 20 ms, a call of /clear_faults is
  -- always answered: at once when the link refuses the request, with success exactly when a contact
  -- stop was cleared; otherwise after at most 501 reads of the link, as soon as the clear has
  -- resolved, the driver stops or ten seconds have passed, with success exactly when the link then
  -- runs.
  pub clear_answers :
      (c : Call)
      → IsTicking c
      → (res : TriggerResponse) × (on_clear state_text c ≡ some res) × Answered c res
  unfolding on_clear answer
  clear_answers c t = elim (Bool-cases c.requested) [
    | inl y ↦
        let (k, ended, out) = wait_ends c t max_rounds 0 refl (λ j h. absurd (omega arith)) in
        (
          answer state_text c (c.rounds k).status,
          if_no _ _ (ap not y) ∙ ap (answer_wait state_text c) out,
          waited k y ended refl,
        )
    | inr n ↦ elim (Bool-cases (contact_cleared c.contact)) [
      | inl cleared ↦ (_, if_yes _ _ (ap not n) ∙ if_yes _ _ cleared, at_once n (sym cleared))
      | inr kept ↦ (_, if_yes _ _ (ap not n) ∙ if_no _ _ kept, at_once n (sym kept))
    ]
  ]
