-- ===== src/PlannedMove/Terminals/Handover/Moves.antt =====
-- planned_move_server.h: whole steps of a goal, its own and the supervisor's, against the router and
-- the supervisor.
use kinova_gen3_ros.Common.{◌≡◌, refl, Bool, true, false, ◌||◌, List, [], Option, none, some, arith}
use kinova_gen3_ros.Common.Text.{String}
use kinova_gen3_ros.Driver.{TrajectoryResult}
use kinova_gen3_ros.Externals.{Double, Packages}
use kinova_gen3_ros.Planner.{Outcome}
use kinova_gen3_ros.PlannedMove.{MoveGoal}
use kinova_gen3_ros.PlannedMove.Server.{
  Goal, Thread, unborn, finished, Track, Event, accepts, planner_feedback, plan_done, advances,
  cancel_locks, cancel_calls, cancel_returns, feedback, settle_locks, settle_ends, on_accepted,
  publish_feedback, lock_settle, move,
}
use kinova_gen3_ros.PlannedMove.Terminals.{
  terminals, Sound, tracked, undecided, is_unborn, is_erasing, started, owed, Shape,
}
use kinova_gen3_ros.PlannedMove.Terminals.Handover.{
  is_own, registers_now, hands_now, is_handing, Linked, same-Linked, or-false,
  on_planner_feedback-Linked, on_plan_done-Linked, lock_cancel-Linked, call_cancel-Linked,
  return_cancel-Linked, end_settle-Linked, advance-Linked,
}

module _ {W : Type 0} where
  publish_feedback-Linked :
      (en : Option (Goal W)) (t : Track W) (o h a : Bool)
      → Linked t o h a
      → Linked (publish_feedback en t) o h a
  unfolding publish_feedback
  publish_feedback-Linked none t o h a l = l
  publish_feedback-Linked (some g) t o h a l = same-Linked t _ o h a refl refl refl l

  on_accepted-Linked :
      (g : MoveGoal W) (th : Thread W) (t : Track W)
      → t.thread ≡ th
      → is_unborn th ≡ true
      → Sound t
      → Linked (on_accepted g th t) false false false
  unfolding on_accepted is_unborn is_handing Shape
  on_accepted-Linked g unborn t e u s = record {
    before = λ _. (refl, refl, refl);
    after = ground (arith, e, s.shape);
  }
  on_accepted-Linked g _ t e u s = cc

  lock_settle-Linked :
      (r : TrajectoryResult W) (sup : Bool) (en : Option (Goal W)) (t : Track W) (o h : Bool)
      → t.supervised ≡ sup
      → t.entry ≡ en
      → Linked t o h true
      → Linked (lock_settle r sup en t) o h false
  unfolding lock_settle tracked
  lock_settle-Linked r true (some g) t o h e f l = record {
    before = ground (arith, e, l.before);
    after = ground (arith, e, l.after);
  }
  lock_settle-Linked r true none t o h e f l = record {
    before = ground (arith, e, l.before);
    after = ground (arith, e, f, l.after);
  }
  lock_settle-Linked r false en t o h e f l = record {
    before = ground (arith, e, l.before);
    after = ground (arith, e, l.before);
  }

  -- The router passes a result on.
  pub settle-Linked : (t : Track W) (o a : Bool) → Linked t o true a → Linked t false false true
  settle-Linked t o a l = record {
    before = ground (arith, l.before);
    after = ground (arith, l.after);
  }

  lock_settle-idle :
      (r : TrajectoryResult W) (sup : Bool) (en : Option (Goal W)) (t : Track W)
      → (sup ≡ true → tracked en ≡ false)
      → lock_settle r sup en t ≡ t
  unfolding lock_settle tracked
  lock_settle-idle r true (some g) t l = absurd (cc (l refl))
  lock_settle-idle r true none t l = refl
  lock_settle-idle r false en t l = refl

  untracked :
      (t : Track W) (o : Bool)
      → Linked t o false false
      → t.supervised ≡ true
      → tracked t.entry ≡ false
  untracked t o l e = ground (arith, l.after e)

  -- At rest, a goal that the supervisor does not hold has its terminal.
  pub rested-terminals :
      (t : Track W) (o : Bool)
      → Sound t
      → Linked t o false false
      → t.thread ≡ finished
      → t.settles ≡ []
      → terminals t.log ≡ 1
  unfolding Shape owed started undecided is_erasing is_unborn
  rested-terminals t o s l r e = ground (arith, s.shape, s.conserved, l.before, l.after, r, e)

  pub unborn-terminals : (t : Track W) → Sound t → is_unborn t.thread ≡ true → terminals t.log ≡ 0
  unfolding started
  unborn-terminals t s u = ground (arith, s.conserved)

module _ {W : Type 0} ⦃d : Double W⦄ ⦃k : Packages W⦄ (arm_joint_names : List String)
    (check_plan : Outcome W → Option String) where
  pub move-Linked :
      (e : Event W) (t : Track W) (o h a : Bool)
      → is_own e ≡ true
      → Sound t
      → Linked t o h a
      → Linked
          (move arm_joint_names check_plan e t)
          (o || registers_now e t.thread)
          (h || hands_now e t.thread)
          a
  unfolding move is_own registers_now hands_now
  move-Linked (accepts g) t o h a w s l = cc
  move-Linked (planner_feedback m) t o h a w s l =
      rw (or-false o, or-false h) (on_planner_feedback-Linked m t.entry t o h a l)
  move-Linked (plan_done p) t o h a w s l =
      rw (or-false o, or-false h) (on_plan_done-Linked p t.thread t.entry t o h a refl l)
  move-Linked (advances x) t o h a w s l =
      advance-Linked arm_joint_names check_plan x t.thread t o h a refl s l
  move-Linked cancel_locks t o h a w s l =
      rw (or-false o, or-false h) (lock_cancel-Linked t o h a l)
  move-Linked cancel_calls t o h a w s l =
      rw (or-false o, or-false h) (call_cancel-Linked t.cancels t o h a l)
  move-Linked cancel_returns t o h a w s l =
      rw (or-false o, or-false h) (return_cancel-Linked t.returning t o h a l)
  move-Linked feedback t o h a w s l = cc
  move-Linked (settle_locks r) t o h a w s l = cc
  move-Linked settle_ends t o h a w s l =
      rw (or-false o, or-false h) (end_settle-Linked t.settles t o h a l)

  pub accept-Linked :
      (g : MoveGoal W) (t : Track W)
      → is_unborn t.thread ≡ true
      → Sound t
      → Linked (move arm_joint_names check_plan (accepts g) t) false false false
  unfolding move
  accept-Linked g t u s = on_accepted-Linked g t.thread t refl u s

  pub arrive-Linked :
      (r : TrajectoryResult W) (t : Track W) (o h : Bool)
      → Linked t o h true
      → Linked (move arm_joint_names check_plan (settle_locks r) t) o h false
  unfolding move
  arrive-Linked r t o h l = lock_settle-Linked r t.supervised t.entry t o h refl refl l

  pub feed-Linked :
      (t : Track W) (o h a : Bool)
      → Linked t o h a
      → Linked (move arm_joint_names check_plan feedback t) o h a
  unfolding move
  feed-Linked t o h a l = publish_feedback-Linked t.entry t o h a l

  -- A settle of a goal that the supervisor does not hold and no result is on its way to.
  pub idle-settle :
      (r : TrajectoryResult W) (t : Track W) (o : Bool)
      → Linked t o false false
      → move arm_joint_names check_plan (settle_locks r) t ≡ t
  unfolding move
  idle-settle r t o l = lock_settle-idle r t.supervised t.entry t (untracked t o l)
