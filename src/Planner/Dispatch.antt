-- ===== src/Planner/Dispatch.antt =====
-- curobo_plan_client.cpp: the calls of on_done, and the mapping of a result.
use kinova_gen3_ros.Common.{
  ℕ, suc, ◌≡◌, refl, ◌≢◌, Bool, true, false, ◌&&◌, ◌||◌, List, [], ◌∷◌, Option, none, some, ◌==◌,
  string_eq, ℕ_eq, if◌then◌else◌, arith, Bool-cases, inl, inr,
}
use kinova_gen3_ros.Common.Text.{String}
use text.Mathlib.TextEquality.{eq_iff}
use kinova_gen3_ros.Externals.{Double}
use kinova_gen3_ros.Planner.{
  Outcome, no_trajectory, PlanResult, WrappedResult, to_outcome, Call, done, cancels, Event,
  dispatched, responded, finished, canceled, step, after,
}

plan_failed_named : ◌≢◌ {A = String} "cuRobo plan failed" ""
plan_failed_named = ground (arith, eq_iff "cuRobo plan failed" "")

module _ {W : Type 0} where
  -- How often on_done of a dispatch was called.
  abbrev pub dones : ℕ → List (Call W) → ℕ
  dones n [] = 0
  dones n (done m o ∷ log) = let rest = dones n log in if m == n then suc rest else rest
  dones n (cancels h ∷ log) = dones n log

  -- Whether an event ends a dispatch: no server, a goal rejected, or a result.
  abbrev pub ends : ℕ → Event W → Bool
  ends n (dispatched m available) = m == n && (if available then false else true)
  ends n (responded m none) = m == n
  ends n (responded m (some h)) = false
  ends n (finished m wr) = m == n
  ends n canceled = false

  abbrev pub ended : ℕ → List (Event W) → Bool
  ended n [] = false
  ended n (e ∷ older) = ends n e || ended n older

module _ {W : Type 0} ⦃d : Double W⦄ where
  fired_iff_done :
      (n : ℕ) (h : List (Event W))
      → ((after h).fired n ≡ ended n h) × (dones n (after h).log ≡ (if ended n h then 1 else 0))
  unfolding after step
  fired_iff_done n [] = (refl, refl)
  fired_iff_done n (dispatched m a ∷ h) = ground (arith, fired_iff_done n h)
  fired_iff_done n (responded m none ∷ h) = ground (arith, fired_iff_done n h)
  fired_iff_done n (responded m (some g) ∷ h) = ground (arith, fired_iff_done n h)
  fired_iff_done n (finished m wr ∷ h) = ground (arith, fired_iff_done n h)
  fired_iff_done n (canceled ∷ h) = ground (arith, fired_iff_done n h)

  -- After any history of callbacks, in any order and with any repetitions, on_done of a dispatch
  -- has been called exactly once if the server was unavailable for it, its goal was rejected or a
  -- result came for it, and not at all otherwise.
  pub done_exactly_once :
      (n : ℕ) (h : List (Event W)) → dones n (after h).log ≡ (if ended n h then 1 else 0)
  done_exactly_once n h = (fired_iff_done n h).1

  -- Whether the action came back with a plan.
  abbrev pub has_plan : WrappedResult W → Bool
  has_plan wr = elim wr.result [ none ↦ false | some r ↦ wr.succeeded && r.success ]

  -- What the caller is told of a result.
  pub data Reports (wr : WrappedResult W) (o : Outcome W) : Type 0 where
    success :
        (r : PlanResult W)
        → wr.result ≡ some r
        → has_plan wr ≡ true
        → o.ok ≡ true
        → o.message ≡ r.message
        → o.trajectory ≡ r.trajectory
        → Reports wr o
    failed :
        has_plan wr ≡ false
        → o.ok ≡ false
        → o.message ≢ ""
        → o.trajectory ≡ no_trajectory
        → Reports wr o

  reported :
      (wr : WrappedResult W) (found : Option (PlanResult W))
      → wr.result ≡ found
      → Reports wr (to_outcome wr)
  unfolding to_outcome
  reported wr none e =
      failed (ground arith) (ground arith) (ground (arith, plan_failed_named)) (ground arith)
  reported wr (some r) e = elim (Bool-cases (wr.succeeded && r.success)) [
    | inl yes' ↦ success r e (ground arith) (ground arith) (ground arith) (ground arith)
    | inr no' ↦
        failed (ground arith) (ground arith)
          (ground (arith, plan_failed_named, eq_iff r.message "")) (ground arith)
  ]

  -- Of every result the caller is told the truth: a success, with the planner's own message and
  -- trajectory, exactly when the action succeeded with a result that says so; otherwise a failure
  -- with a message that is never empty and no trajectory.
  pub outcome_Reports : (wr : WrappedResult W) → Reports wr (to_outcome wr)
  outcome_Reports wr = reported wr wr.result refl
