-- ===== src/PlannedMove/Terminals/Handover/Births.antt =====
-- planned_move_server.h: only handle_accepted gives a goal to a server.
use kinova_gen3_ros.Common.{
  ℕ, zero, suc, ◌≡◌, refl, ap, sym, ◌∙◌, Bool, true, false, List, [], ◌∷◌, Option, none, some,
  arith, Bool-cases, if_yes, if_no, inl, inr,
}
use kinova_gen3_ros.Common.Text.{String}
use kinova_gen3_ros.Driver.{TrajectoryResult}
use kinova_gen3_ros.Externals.{Double, Packages}
use kinova_gen3_ros.Mapping.Limits.{contact_rejection}
use kinova_gen3_ros.Planner.{Outcome}
use kinova_gen3_ros.PlannedMove.{MoveGoal, Verdict, refuses, executes}
use kinova_gen3_ros.PlannedMove.Server.{
  Goal, Thread, unborn, planning, planned, offering, rereading, PendingCancel, Track, Answers,
  Event, accepts, planner_feedback, plan_done, advances, cancel_locks, cancel_calls, cancel_returns,
  feedback, settle_locks, settle_ends, fresh, on_accepted, on_planner_feedback, on_plan_done,
  lock_cancel, call_cancel, return_cancel, publish_feedback, lock_settle, end_settle, refused_by,
  refused_for, follow, reread, advance, move,
}
use kinova_gen3_ros.PlannedMove.Terminals.{is_unborn}
use kinova_gen3_ros.PlannedMove.Terminals.Handover.{is_own, registers_now, hands_now}

module _ {W : Type 0} where
  unfoldable pub is_acceptance : Event W → Bool
  is_acceptance (accepts g) = true
  is_acceptance _ = false

  pub own-acceptance : (e : Event W) → is_own e ≡ true → is_acceptance e ≡ false
  unfolding is_own is_acceptance
  own-acceptance (accepts g) w = cc
  own-acceptance _ w = ground (arith, w)

  abbrev SameBirth : Track W → Track W → Type 0
  SameBirth t u = is_unborn u.thread ≡ is_unborn t.thread

  planner_feedback-birth :
      (m : String) (en : Option (Goal W)) (t : Track W) → SameBirth t (on_planner_feedback m en t)
  unfolding on_planner_feedback
  planner_feedback-birth m none t = refl
  planner_feedback-birth m (some g) t = refl

  plan_done-birth :
      (p : Outcome W) (th : Thread W) (en : Option (Goal W)) (t : Track W)
      → t.thread ≡ th
      → SameBirth t (on_plan_done p th en t)
  unfolding on_plan_done is_unborn
  plan_done-birth p planning none t e = ground (arith, e)
  plan_done-birth p planning (some g) t e = ground (arith, e)
  plan_done-birth p _ en t e = refl

  call_cancel-birth : (cs : List PendingCancel) (t : Track W) → SameBirth t (call_cancel cs t)
  unfolding call_cancel
  call_cancel-birth [] t = refl
  call_cancel-birth (c ∷ cs) t = refl

  return_cancel-birth : (n : ℕ) (t : Track W) → SameBirth t (return_cancel n t)
  unfolding return_cancel
  return_cancel-birth zero t = refl
  return_cancel-birth (suc n) t = refl

  publish_feedback-birth :
      (en : Option (Goal W)) (t : Track W) → SameBirth t (publish_feedback en t)
  unfolding publish_feedback
  publish_feedback-birth none t = refl
  publish_feedback-birth (some g) t = refl

  lock_settle-birth :
      (r : TrajectoryResult W) (sup : Bool) (en : Option (Goal W)) (t : Track W)
      → SameBirth t (lock_settle r sup en t)
  unfolding lock_settle
  lock_settle-birth r true none t = refl
  lock_settle-birth r true (some g) t = refl
  lock_settle-birth r false en t = refl

  end_settle-birth : (rs : List (TrajectoryResult W)) (t : Track W) → SameBirth t (end_settle rs t)
  unfolding end_settle
  end_settle-birth [] t = refl
  end_settle-birth (r ∷ rs) t = refl

  follow-birth : (v : Verdict W) → is_unborn (follow v) ≡ false
  unfolding is_unborn
  follow-birth (refuses code msg) = refl
  follow-birth (executes tg) = refl

  reread-birth : (en : Option (Goal W)) → is_unborn (reread en) ≡ false
  unfolding is_unborn
  reread-birth none = refl
  reread-birth (some g) = elim (Bool-cases g.cancel_requested) [
    | inl y ↦ rw (if_yes _ _ y) refl
    | inr n ↦ rw (if_no _ _ n) refl
  ]

  pub registers-born :
      (e : Event W) (th : Thread W) → is_unborn th ≡ true → registers_now e th ≡ false
  unfolding registers_now is_unborn
  registers-born (advances x) unborn u = refl
  registers-born (advances x) _ u = cc
  registers-born _ th u = refl

  pub hands-born : (e : Event W) (th : Thread W) → is_unborn th ≡ true → hands_now e th ≡ false
  unfolding hands_now is_unborn
  hands-born (advances x) unborn u = refl
  hands-born (advances x) _ u = cc
  hands-born _ th u = refl

module _ (W : Type 0) where
  refused_for-birth : (why : Option String) → is_unborn (refused_for {W = W} why) ≡ false
  unfolding is_unborn
  refused_for-birth none = refl
  refused_for-birth (some why) = refl

  pub fresh-unborn : is_unborn (fresh {W = W}).thread ≡ true
  unfolding is_unborn
  fresh-unborn = refl

module _ {W : Type 0} ⦃d : Double W⦄ ⦃k : Packages W⦄ (arm_joint_names : List String)
    (check_plan : Outcome W → Option String) where
  advance-birth :
      (x : Answers W) (th : Thread W) (t : Track W)
      → t.thread ≡ th
      → SameBirth t (advance arm_joint_names check_plan x th t)
  unfolding advance refused_by is_unborn
  advance-birth x (planned g v) t e = follow-birth _ ∙ sym (ap is_unborn e)
  advance-birth x (offering tg) t e = elim (Bool-cases x.accepts) [
    | inl y ↦ rw (if_yes _ _ y) (sym (ap is_unborn e))
    | inr n ↦
        rw (if_no _ _ n) (refused_for-birth W (contact_rejection x.contact) ∙ sym (ap is_unborn e))
  ]
  advance-birth x rereading t e = reread-birth t.entry ∙ sym (ap is_unborn e)
  advance-birth x _ t e = ground (arith, e)

  pub move-birth :
      (e : Event W) (t : Track W)
      → is_acceptance e ≡ false
      → is_unborn (move arm_joint_names check_plan e t).thread ≡ is_unborn t.thread
  unfolding move is_acceptance lock_cancel
  move-birth (accepts g) t a = cc
  move-birth (planner_feedback m) t a = planner_feedback-birth m t.entry t
  move-birth (plan_done p) t a = plan_done-birth p t.thread t.entry t refl
  move-birth (advances x) t a = advance-birth x t.thread t refl
  move-birth cancel_locks t a = refl
  move-birth cancel_calls t a = call_cancel-birth t.cancels t
  move-birth cancel_returns t a = return_cancel-birth t.returning t
  move-birth feedback t a = publish_feedback-birth t.entry t
  move-birth (settle_locks r) t a = lock_settle-birth r t.supervised t.entry t
  move-birth settle_ends t a = end_settle-birth t.settles t

  pub feed-birth :
      (t : Track W)
      → is_unborn (move arm_joint_names check_plan feedback t).thread ≡ is_unborn t.thread
  unfolding is_acceptance
  feed-birth t = move-birth feedback t refl

  pub settle-birth :
      (r : TrajectoryResult W) (t : Track W)
      → is_unborn (move arm_joint_names check_plan (settle_locks r) t).thread ≡ is_unborn t.thread
  unfolding is_acceptance
  settle-birth r t = move-birth (settle_locks r) t refl

  on_accepted-birth :
      (g : MoveGoal W) (th : Thread W) (t : Track W)
      → is_unborn th ≡ true
      → is_unborn (on_accepted g th t).thread ≡ false
  unfolding on_accepted is_unborn
  on_accepted-birth g unborn t u = refl
  on_accepted-birth g _ t u = cc

  pub accept-birth :
      (g : MoveGoal W) (t : Track W)
      → is_unborn t.thread ≡ true
      → is_unborn (move arm_joint_names check_plan (accepts g) t).thread ≡ false
  unfolding move
  accept-birth g t u = on_accepted-birth g t.thread t u
