-- ===== src/PlannedMove/Terminals/Legality.antt =====
-- planned_move_server.h: whether ROS lets a goal handle take the transition that `terminal` asks for.
-- rclcpp_action throws at one that it does not allow, and the code then drops the terminal. What it
-- allows is the parameter `allows`, by whether the handle has ended and whether it is canceling.
use kinova_gen3_ros.Common.{
  ℕ, zero, suc, ◌+◌, length, ◌≡◌, ◌≢◌, ◌∙◌, ap, refl, sym, Bool, true, false, List, [], ◌∷◌, Option,
  none, some, ℕ_eq, ltb, arith, Bool-cases, if_yes, inl, inr,
}
use kinova_gen3_ros.Common.Text.{String}
use kinova_gen3_ros.Driver.{GoalId, ResultCode, successful, TrajectoryResult}
use kinova_gen3_ros.Externals.{Double, Packages}
use kinova_gen3_ros.Planner.{Outcome}
use kinova_gen3_ros.PlannedMove.{MoveGoal}
use kinova_gen3_ros.PlannedMove.Server.{
  Goal, Effect, terminaled, terminal, Transition, canceled, succeeded, aborted, transition, Thread,
  unborn, planning, planned, settling, erasing, offering, marking, registering, handing, rereading,
  recanceling, PendingCancel, Track, Answers, Event, accepts, planner_feedback, plan_done, advances,
  cancel_locks, cancel_calls, cancel_returns, feedback, settle_locks, settle_ends, on_accepted,
  on_planner_feedback, on_plan_done, lock_cancel, call_cancel, return_cancel, publish_feedback,
  lock_settle, end_settle, advance, move, after,
}
use kinova_gen3_ros.PlannedMove.Terminals.{terminals}
use kinova_gen3_ros.PlannedMove.Terminals.Steps.{never_terminaled_twice}

-- What rclcpp_action documents: a handle that has not ended may succeed or abort, whether it is
-- executing or canceling, and may be canceled while it is canceling.
pub record IsHandleRule (allows : Bool → Bool → Transition → Bool) : Type 0 where
  pub may_succeed : (canceling : Bool) → allows false canceling succeeded ≡ true
  pub may_abort : (canceling : Bool) → allows false canceling aborted ≡ true
  pub may_cancel : allows false true canceled ≡ true

longer {ℓ} : {A : Type ℓ} (x : A) (xs : List A) → xs ≢ x ∷ xs
longer x xs e = let same : length xs ≡ suc (length xs) = ap length e in omega (arith, same)

module _ {W : Type 0} where
  abbrev pub has_ended : Track W → Bool
  has_ended t = ltb 0 (terminals t.log)

  -- The terminal that a step adds to a log, if it does, makes the transition that the code's choice
  -- by is_canceling() and the result's code gives.
  abbrev Chosen : Track W → List (Effect W) → Type 0
  Chosen t es =
      (tr : Transition) (code : ResultCode) (message : String)
      → es ≡ terminaled tr code message ∷ t.log
      → tr ≡ transition t.canceling code

  kept-Chosen : (t : Track W) → Chosen t t.log
  kept-Chosen t tr code message e = absurd (longer _ t.log e)

  accepted-Chosen :
      (g : MoveGoal W) (th : Thread W) (t : Track W) → Chosen t (on_accepted g th t).log
  unfolding on_accepted
  accepted-Chosen g unborn t = λ tr code message e. absurd cc
  accepted-Chosen g _ t = kept-Chosen t

  planner_feedback-Chosen :
      (m : String) (en : Option (Goal W)) (t : Track W) → Chosen t (on_planner_feedback m en t).log
  unfolding on_planner_feedback
  planner_feedback-Chosen m none t = kept-Chosen t
  planner_feedback-Chosen m (some g) t = λ tr code message e. absurd cc

  plan_done-Chosen :
      (o : Outcome W) (th : Thread W) (en : Option (Goal W)) (t : Track W)
      → Chosen t (on_plan_done o th en t).log
  unfolding on_plan_done
  plan_done-Chosen o planning none t = kept-Chosen t
  plan_done-Chosen o planning (some g) t = kept-Chosen t
  plan_done-Chosen o _ en t = kept-Chosen t

  call_cancel-Chosen : (cs : List PendingCancel) (t : Track W) → Chosen t (call_cancel cs t).log
  unfolding call_cancel
  call_cancel-Chosen [] t = kept-Chosen t
  call_cancel-Chosen (x ∷ cs) t = λ tr code message e. elim (Bool-cases x.executing) [
    | inl y ↦ absurd (ground (arith, e, y))
    | inr n ↦ absurd (ground (arith, e, n))
  ]

  return_cancel-Chosen : (n : ℕ) (t : Track W) → Chosen t (return_cancel n t).log
  unfolding return_cancel
  return_cancel-Chosen zero t = kept-Chosen t
  return_cancel-Chosen (suc n) t = kept-Chosen t

  publish_feedback-Chosen :
      (en : Option (Goal W)) (t : Track W) → Chosen t (publish_feedback en t).log
  unfolding publish_feedback
  publish_feedback-Chosen none t = kept-Chosen t
  publish_feedback-Chosen (some g) t = λ tr code message e. absurd cc

  lock_settle-Chosen :
      (r : TrajectoryResult W) (sup : Bool) (en : Option (Goal W)) (t : Track W)
      → Chosen t (lock_settle r sup en t).log
  unfolding lock_settle
  lock_settle-Chosen r true none t = kept-Chosen t
  lock_settle-Chosen r true (some g) t = kept-Chosen t
  lock_settle-Chosen r false en t = kept-Chosen t

  terminal-Chosen :
      (code : ResultCode) (m : String) (t : Track W) → Chosen t (terminal code m t).log
  terminal-Chosen code m t tr code' message e =
      let made : transition t.canceling code ≡ tr = cc e in
      let same : code ≡ code' = cc e in sym made ∙ ap (transition t.canceling) same

  end_settle-Chosen :
      (rs : List (TrajectoryResult W)) (t : Track W) → Chosen t (end_settle rs t).log
  unfolding end_settle
  end_settle-Chosen [] t = kept-Chosen t
  end_settle-Chosen (r ∷ rs) t = terminal-Chosen r.error_code r.error_string t

-- A transition chosen by what is_canceling() said before is still allowed.
chosen-allowed :
    (allows : Bool → Bool → Transition → Bool)
    → IsHandleRule allows
    → (earlier now : Bool) (code : ResultCode) → (earlier ≡ true → now ≡ true)
    → allows false now (transition earlier code) ≡ true
chosen-allowed allows rule true now code keeps = rw (keeps refl) rule.may_cancel
chosen-allowed allows rule false now successful keeps = rule.may_succeed now
chosen-allowed allows rule false now _ keeps = rule.may_abort now

module _ {W : Type 0} ⦃d : Double W⦄ ⦃k : Packages W⦄ (arm_joint_names : List String)
    (check_plan : Outcome W → Option String) where
  advance-Chosen :
      (a : Answers W) (th : Thread W) (t : Track W)
      → Chosen t (advance arm_joint_names check_plan a th t).log
  unfolding advance
  advance-Chosen a (settling code m) t = terminal-Chosen code m t
  advance-Chosen a (offering tg) t = λ tr code message e. absurd cc
  advance-Chosen a (registering tg) t = λ tr code message e. absurd cc
  advance-Chosen a (handing tg) t = λ tr code message e. absurd cc
  advance-Chosen a (recanceling token) t = λ tr code message e. absurd cc
  advance-Chosen a (planned g o) t = kept-Chosen t
  advance-Chosen a erasing t = kept-Chosen t
  advance-Chosen a (marking tg) t = kept-Chosen t
  advance-Chosen a rereading t = kept-Chosen t
  advance-Chosen a _ t = kept-Chosen t

  move-Chosen : (e : Event W) (t : Track W) → Chosen t (move arm_joint_names check_plan e t).log
  unfolding move lock_cancel
  move-Chosen (accepts g) t = accepted-Chosen g t.thread t
  move-Chosen (planner_feedback m) t = planner_feedback-Chosen m t.entry t
  move-Chosen (plan_done o) t = plan_done-Chosen o t.thread t.entry t
  move-Chosen (advances a) t = advance-Chosen a t.thread t
  move-Chosen cancel_locks t = kept-Chosen t
  move-Chosen cancel_calls t = call_cancel-Chosen t.cancels t
  move-Chosen cancel_returns t = return_cancel-Chosen t.returning t
  move-Chosen feedback t = publish_feedback-Chosen t.entry t
  move-Chosen (settle_locks r) t = lock_settle-Chosen r t.supervised t.entry t
  move-Chosen settle_ends t = end_settle-Chosen t.settles t

  -- No terminal is dropped: whenever a step of a goal makes a terminal, its handle has not ended and
  -- rclcpp_action allows the transition that was made, whatever the result code and the interleaving,
  -- also when ROS moves the handle to canceling between the code's is_canceling() and the
  -- transition (`now` is whether the handle is canceling by then).
  pub terminal_never_dropped :
      (allows : Bool → Bool → Transition → Bool)
      → IsHandleRule allows
      → (h : List (GoalId × Event W)) (id : GoalId) (e : Event W) (made : Transition)
        (code : ResultCode) (message : String) (now : Bool)
      → (after arm_joint_names check_plan ((id, e) ∷ h) id).log
        ≡ terminaled made code message ∷ (after arm_joint_names check_plan h id).log
      → ((after arm_joint_names check_plan h id).canceling ≡ true → now ≡ true)
      → allows (has_ended (after arm_joint_names check_plan h id)) now made ≡ true
  unfolding after terminals
  terminal_never_dropped allows rule h id e made code message now logged keeps =
      rw (open_handle, chosen)
        (chosen-allowed allows rule (after arm_joint_names check_plan h id).canceling now code
          keeps)
    where
      t : Track W
      t = after arm_joint_names check_plan h id

      here :
          (after arm_joint_names check_plan ((id, e) ∷ h) id) ≡ move arm_joint_names check_plan e t
      here = if_yes _ _ ((ℕ_eq.equals_iff id id).1 refl)

      chosen : made ≡ transition t.canceling code
      chosen = move-Chosen e t made code message (ap (λ u. u.log) (sym here) ∙ logged)

      counted :
          terminals (after arm_joint_names check_plan ((id, e) ∷ h) id).log ≡ 1 + terminals t.log
      counted = ap terminals logged

      open_handle : has_ended t ≡ false
      open_handle =
          ground
            (arith, counted, never_terminaled_twice arm_joint_names check_plan ((id, e) ∷ h) id)
