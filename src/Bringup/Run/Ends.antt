-- ===== src/Bringup/Run/Ends.antt =====
-- How the run of the node ends: the drain thread always comes to its end, with every sample that its
-- ring gave it.
use kinova_gen3_ros.Common.{
  ℕ, zero, suc, ◌+◌, ◌≤◌, ◌<◌, ◌≡◌, ◌↔◌, refl, sym, ap, ◌∙◌, Bool, true, false, List, [], ◌∷◌, ◌++◌,
  some, arith, Bool-cases, inl, inr, if_yes, if_no, if◌then◌else◌,
}
use mathlib.Core.Option.{map as map_option}
use mathlib.Core.Path.{subst}
use kinova_gen3_ros.Common.Results.{Result, returns, throws}
use kinova_gen3_ros.Bringup.Startup.Ready.{run_status_lem}
use kinova_gen3_ros.Bringup.Run.{
  Drained, consumed, logged, logged_final, Round, Running, Ending, consume_all, is_due, drain_loop,
  g_stop, run,
}

add_zero : (i : ℕ) → i + 0 ≡ i
add_zero i = omega arith

zero_add : (i : ℕ) → 0 + i ≡ i
zero_add i = omega arith

add_suc : (i k : ℕ) → i + suc k ≡ suc i + k
add_suc i k = omega arith

first_from :
    (stop : ℕ → Bool) (i : ℕ) {n : ℕ}
    → stop i ≡ false
    → ((j : ℕ) → j < n → stop (suc i + j) ≡ false)
    → (j : ℕ) → j < suc n
    → stop (i + j) ≡ false
first_from stop i here later zero l = subst (λ k. stop k ≡ false) (sym (add_zero i)) here
first_from stop i here later (suc j) l =
    subst (λ k. stop k ≡ false) (sym (add_suc i j)) (later j (omega arith))

due-le : (now last : ℕ) → is_due now last ≡ true → last + 5000 ≤ now
due-le now last e = ground arith

module _ {S : Type 0} where
  -- The samples that the sink consumed, in order.
  abbrev pub samples : List (Drained S) → List S
  samples [] = []
  samples (consumed s ∷ ds) = s ∷ samples ds
  samples (logged t ∷ ds) = samples ds
  samples (logged_final ∷ ds) = samples ds

  -- The samples that the ring gave in a number of rounds from one on, in order.
  abbrev pub popped_in : (ℕ → Round S) → ℕ → ℕ → List S
  popped_in rounds i zero = []
  popped_in rounds i (suc n) = (rounds i).popped ++ popped_in rounds (suc i) n

  -- Log lines are at least five seconds apart, the first of them from `last`.
  abbrev pub Spaced : ℕ → List (Drained S) → Type 0
  Spaced last [] = Unit
  Spaced last (consumed s ∷ ds) = Spaced last ds
  Spaced last (logged t ∷ ds) = (last + 5000 ≤ t) × Spaced t ds
  Spaced last (logged_final ∷ ds) = Spaced last ds

  samples-consume_all :
      (xs : List S) (ds : List (Drained S)) → samples (consume_all xs ++ ds) ≡ xs ++ samples ds
  unfolding consume_all
  samples-consume_all [] ds = refl
  samples-consume_all (x ∷ xs) ds = ap (λ l. x ∷ l) (samples-consume_all xs ds)

  Spaced-consume_all :
      (xs : List S) (ds : List (Drained S)) (last : ℕ)
      → Spaced last ds
      → Spaced last (consume_all xs ++ ds)
  unfolding consume_all
  Spaced-consume_all [] ds last p = p
  Spaced-consume_all (x ∷ xs) ds last p = Spaced-consume_all xs ds last p

  -- One round that goes on, in front of the rest.
  round-samples :
      (xs : List S) (due : Bool) (now : ℕ) (ds : List (Drained S))
      → samples ((consume_all xs ++ (if due then logged now ∷ [] else [])) ++ ds) ≡ xs ++ samples ds
  unfolding consume_all
  round-samples [] true now ds = refl
  round-samples [] false now ds = refl
  round-samples (x ∷ xs) due now ds = ap (λ l. x ∷ l) (round-samples xs due now ds)

  round-Spaced :
      (xs : List S) (due : Bool) (now last : ℕ) (ds : List (Drained S))
      → (due ≡ true → last + 5000 ≤ now)
      → Spaced (if due then now else last) ds
      → Spaced last ((consume_all xs ++ (if due then logged now ∷ [] else [])) ++ ds)
  unfolding consume_all
  round-Spaced [] true now last ds late p = (late refl, p)
  round-Spaced [] false now last ds late p = p
  round-Spaced (x ∷ xs) due now last ds late p = round-Spaced xs due now last ds late p

  -- The drain thread ends in the first round that sees g_stop, `n` rounds after the one it is in.
  pub record DrainEnds (stop : ℕ → Bool) (rounds : ℕ → Round S) (i last k n : ℕ)
      (out : List (Drained S)) : Type 0 where
    pub in_time : n ≤ k
    pub stopped : stop (i + n) ≡ true
    pub first : (j : ℕ) → j < n → stop (i + j) ≡ false
    pub complete : samples out ≡ popped_in rounds i (suc n)
    pub spaced : Spaced last out

  ends_here :
      (stop : ℕ → Bool) (rounds : ℕ → Round S) (fuel i last k : ℕ)
      → stop i ≡ true
      → (n : ℕ) × (out : List (Drained S)) × (drain_loop (suc fuel) stop rounds i last ≡ some out)
        × DrainEnds stop rounds i last k n out
  unfolding drain_loop
  ends_here stop rounds fuel i last k y = (
    0,
    consume_all (rounds i).popped ++ (logged_final ∷ []),
    if_yes _ _ y,
    record {
      in_time = omega arith;
      stopped = subst (λ j. stop j ≡ true) (sym (add_zero i)) y;
      first = λ j l. absurd (omega (arith, l));
      complete = samples-consume_all (rounds i).popped (logged_final ∷ []);
      spaced = Spaced-consume_all (rounds i).popped (logged_final ∷ []) last tt;
    },
  )

  ends_later :
      (stop : ℕ → Bool) (rounds : ℕ → Round S) (fuel i last k : ℕ)
      → stop i ≡ false
      → (let last' = if is_due (rounds i).now_ms last then (rounds i).now_ms else last in
          (n : ℕ) × (out : List (Drained S)) × (drain_loop fuel stop rounds (suc i) last'
            ≡ some out)
          × DrainEnds stop rounds (suc i) last' k n out)
      → (n : ℕ) × (out : List (Drained S)) × (drain_loop (suc fuel) stop rounds i last ≡ some out)
        × DrainEnds stop rounds i last (suc k) n out
  unfolding drain_loop
  ends_later stop rounds fuel i last k y (n, out, e, h) = (
    suc n,
    _,
    if_no _ _ y ∙ ap (map_option _) e,
    record {
      in_time = omega (arith, h.in_time);
      stopped = subst (λ j. stop j ≡ true) (sym (add_suc i n)) h.stopped;
      first = first_from stop i y h.first;
      complete =
          round-samples (rounds i).popped (is_due (rounds i).now_ms last) (rounds i).now_ms out
          ∙ ap (λ l. (rounds i).popped ++ l) h.complete;
      spaced =
          round-Spaced (rounds i).popped (is_due (rounds i).now_ms last) (rounds i).now_ms last out
            (λ late. due-le (rounds i).now_ms last late) h.spaced;
    },
  )

  drain_ends :
      (stop : ℕ → Bool) (rounds : ℕ → Round S) (fuel i last k : ℕ)
      → k < fuel
      → stop (i + k) ≡ true
      → (n : ℕ) × (out : List (Drained S)) × (drain_loop fuel stop rounds i last ≡ some out)
        × DrainEnds stop rounds i last k n out
  drain_ends stop rounds zero i last k f s = absurd (omega arith)
  drain_ends stop rounds (suc fuel) i last zero f s =
      ends_here stop rounds fuel i last zero (subst (λ j. stop j ≡ true) (add_zero i) s)
  drain_ends stop rounds (suc fuel) i last (suc k) f s = elim (Bool-cases (stop i)) [
    | inl y ↦ ends_here stop rounds fuel i last (suc k) y
    | inr n ↦ ends_later stop rounds fuel i last k n (
        drain_ends stop rounds fuel (suc i)
          (if is_due (rounds i).now_ms last then (rounds i).now_ms else last) k (omega arith)
          (subst (λ j. stop j ≡ true) (add_suc i k) s))
  ]

  -- What the code relies on: without a configuration error the link's run returns only once g_stop
  -- is set.
  abbrev pub ReturnsStopped : Running S → Type 0
  ReturnsStopped r = r.link_run ≡ returns tt → r.signaled r.ended ≡ true

  stopped_at :
      (r : Running S) (end : Result (Unit {0}))
      → r.link_run ≡ end
      → ReturnsStopped r
      → g_stop r r.ended ≡ true
  unfolding g_stop
  stopped_at r (returns u) e w = ground (arith, w e)
  stopped_at r (throws why) e w = elim (Bool-cases (r.signaled r.ended)) [
    | inl y ↦ ground (arith, y)
    | inr n ↦ ground (arith, e, n)
  ]

  -- The node always comes to its end: whether the link's run returns on a signal or throws on a
  -- configuration error, main ends, with fuel for one round of the drain thread more than had passed
  -- when the run ended; its status is 0 exactly when the run returned. The drain thread stopped in
  -- the first round that saw g_stop; the sink has consumed all samples that the ring gave in its
  -- rounds, each once and in order; and the log lines on them were at least five seconds apart.
  pub run_ends :
      (r : Running S) (fuel : ℕ)
      → ReturnsStopped r
      → r.ended < fuel
      → (n : ℕ) × (e : Ending S) × (run fuel r ≡ some e)
        × ((e.status ≡ 0) ↔ (r.link_run ≡ returns tt))
        × DrainEnds (g_stop r) r.rounds 0 r.started_ms r.ended n e.drained
  unfolding run
  run_ends r fuel w f =
      let (n, out, e, ends) = drain_ends (g_stop r) r.rounds fuel 0 r.started_ms r.ended f (
        subst (λ j. g_stop r j ≡ true) (sym (zero_add r.ended)) (stopped_at r r.link_run refl w)) in
      (n, _, ap (map_option _) e, run_status_lem r.link_run, ends)
