-- ===== src/PlannedMove/Terminals/Steps.antt =====
-- planned_move_server.h: the steps of the threads and the count of terminals.
use kinova_gen3_ros.Common.{
  ℕ, zero, suc, ◌≡◌, ◌≤◌, refl, ap, Bool, true, false, List, [], ◌∷◌, Option, none, some, arith,
  Bool-cases, if_yes, if_no, inl, inr,
}
use kinova_gen3_ros.Common.Text.{String}
use kinova_gen3_ros.Driver.{GoalId}
use kinova_gen3_ros.Externals.{Double, Packages}
use kinova_gen3_ros.Mapping.Limits.{contact_rejection}
use kinova_gen3_ros.Planner.{Outcome}
use kinova_gen3_ros.PlannedMove.Server.{
  Goal, Thread, unborn, planning, planned, settling, erasing, offering, marking, registering,
  handing, rereading, recanceling, Track, Answers, Event, accepts, planner_feedback, plan_done,
  advances, cancel_locks, cancel_calls, cancel_returns, feedback, settle_locks, settle_ends,
  on_accepted, on_planner_feedback, on_plan_done, lock_cancel, call_cancel, return_cancel,
  publish_feedback, lock_settle, end_settle, refused_by, advance, move, after, always, fresh,
}
use kinova_gen3_ros.PlannedMove.Terminals.{
  terminals, Sound, tracked, undecided, is_unborn, is_erasing, started, owed, Shape, same-Sound,
  tracked-request_cancel, tracked-mark_executing, undecided-Sound, follow-undecided,
  refused_for-undecided, is_released, reread-released, released-Sound,
}

module _ {W : Type 0} where
  on_accepted-Sound :
      (g : _) (th : Thread W) (t : Track W) → t.thread ≡ th → Sound t → Sound (on_accepted g th t)
  unfolding on_accepted Shape owed started terminals undecided tracked is_unborn is_erasing
  on_accepted-Sound g unborn t e h = record {
    shape = ground (arith, e, h.shape);
    conserved = ground (arith, e, h.shape, h.conserved);
  }
  on_accepted-Sound g _ t e h = h

  on_planner_feedback-Sound :
      (s : String) (en : Option (Goal W)) (t : Track W)
      → Sound t
      → Sound (on_planner_feedback s en t)
  unfolding on_planner_feedback terminals
  on_planner_feedback-Sound s none t h = h
  on_planner_feedback-Sound s (some g) t h = same-Sound t _ h refl refl refl refl refl

  publish_feedback-Sound :
      (en : Option (Goal W)) (t : Track W) → Sound t → Sound (publish_feedback en t)
  unfolding publish_feedback terminals
  publish_feedback-Sound none t h = h
  publish_feedback-Sound (some g) t h = same-Sound t _ h refl refl refl refl refl

  on_plan_done-Sound :
      (o : Outcome W) (th : Thread W) (en : Option (Goal W)) (t : Track W)
      → t.thread ≡ th
      → t.entry ≡ en
      → Sound t
      → Sound (on_plan_done o th en t)
  unfolding on_plan_done Shape owed started terminals undecided tracked is_unborn is_erasing
  on_plan_done-Sound o planning none t e f h = record {
    shape = ground (arith, e, f, h.shape);
    conserved = ground (arith, e, f, h.shape, h.conserved);
  }
  on_plan_done-Sound o planning (some g) t e f h = record {
    shape = ground (arith, e, f, h.shape);
    conserved = ground (arith, e, f, h.shape, h.conserved);
  }
  on_plan_done-Sound o _ en t e f h = h

  lock_cancel-Sound : (t : Track W) → Sound t → Sound (lock_cancel t)
  unfolding lock_cancel
  lock_cancel-Sound t h = same-Sound t _ h refl refl (tracked-request_cancel t.entry) refl refl

  call_cancel-Sound : (cs : _) (t : Track W) → Sound t → Sound (call_cancel cs t)
  unfolding call_cancel terminals
  call_cancel-Sound [] t h = h
  call_cancel-Sound (c ∷ cs) t h =
      same-Sound t _ h refl refl refl refl
        (elim (Bool-cases c.executing) [ inl e ↦ ground (arith, e) | inr e ↦ ground (arith, e) ])

  return_cancel-Sound : (n : ℕ) (t : Track W) → Sound t → Sound (return_cancel n t)
  unfolding return_cancel
  return_cancel-Sound zero t h = h
  return_cancel-Sound (suc n) t h = same-Sound t _ h refl refl refl refl refl

  lock_settle-Sound :
      (r : _) (sup : Bool) (en : Option (Goal W)) (t : Track W)
      → t.supervised ≡ sup
      → t.entry ≡ en
      → Sound t
      → Sound (lock_settle r sup en t)
  unfolding lock_settle Shape owed started tracked
  lock_settle-Sound r true (some g) t e f h = record {
    shape = ground (arith, e, f, h.shape);
    conserved = ground (arith, e, f, h.shape, h.conserved);
  }
  lock_settle-Sound r true none t e f h = h
  lock_settle-Sound r false en t e f h = h

  end_settle-Sound : (rs : _) (t : Track W) → t.settles ≡ rs → Sound t → Sound (end_settle rs t)
  unfolding end_settle terminals
  end_settle-Sound [] t e h = h
  end_settle-Sound (r ∷ rs) t e h = record {
    shape = h.shape;
    conserved = ground (arith, e, h.conserved);
  }

module _ (W : Type 0) where
  pub fresh-Sound : Sound (fresh {W = W})
  unfolding Shape owed started terminals undecided is_unborn is_erasing tracked
  fresh-Sound = record { shape = ground arith; conserved = ground arith }

module _ {W : Type 0} ⦃d : Double W⦄ ⦃k : Packages W⦄ (arm_joint_names : List String)
    (check_plan : Outcome W → Option String) where
  advance-Sound :
      (a : Answers W) (th : Thread W) (t : Track W)
      → t.thread ≡ th
      → Sound t
      → Sound (advance arm_joint_names check_plan a th t)
  unfolding advance refused_by Shape owed started terminals undecided tracked is_unborn is_erasing
      is_released
  advance-Sound a (planned g o) t e h =
      undecided-Sound t _ h (ap undecided e) (follow-undecided _) refl refl refl refl
  advance-Sound a (settling code msg) t e h = record {
    shape = ground (arith, e, h.shape);
    conserved = ground (arith, e, h.shape, h.conserved);
  }
  advance-Sound a erasing t e h = record {
    shape = ground (arith, e, h.shape);
    conserved = ground (arith, e, h.shape, h.conserved);
  }
  advance-Sound a (offering tg) t e h =
      undecided-Sound t _ h (ap undecided e)
        (elim (Bool-cases a.accepts) [
          | inl y ↦ rw (if_yes _ _ y) refl
          | inr n ↦ rw (if_no _ _ n) (refused_for-undecided W (contact_rejection a.contact))
        ])
        refl refl refl refl
  advance-Sound a (marking tg) t e h =
      undecided-Sound t _ h (ap undecided e) refl refl (tracked-mark_executing t.entry) refl refl
  advance-Sound a (registering tg) t e h =
      undecided-Sound t _ h (ap undecided e) refl refl refl refl refl
  advance-Sound a (handing tg) t e h = record {
    shape = ground (arith, e, h.shape);
    conserved = ground (arith, e, h.shape, h.conserved);
  }
  advance-Sound a rereading t e h =
      released-Sound t _ h (ap is_released e) (reread-released t.entry) refl refl refl refl
  advance-Sound a (recanceling token) t e h = record {
    shape = ground (arith, e, h.shape);
    conserved = ground (arith, e, h.shape, h.conserved);
  }
  advance-Sound a _ t e h = h

  pub move-Sound :
      (e : Event W) (t : Track W) → Sound t → Sound (move arm_joint_names check_plan e t)
  unfolding move
  move-Sound (accepts g) t h = on_accepted-Sound g t.thread t refl h
  move-Sound (planner_feedback s) t h = on_planner_feedback-Sound s t.entry t h
  move-Sound (plan_done o) t h = on_plan_done-Sound o t.thread t.entry t refl refl h
  move-Sound (advances a) t h = advance-Sound a t.thread t refl h
  move-Sound cancel_locks t h = lock_cancel-Sound t h
  move-Sound cancel_calls t h = call_cancel-Sound t.cancels t h
  move-Sound cancel_returns t h = return_cancel-Sound t.returning t h
  move-Sound feedback t h = publish_feedback-Sound t.entry t h
  move-Sound (settle_locks r) t h = lock_settle-Sound r t.supervised t.entry t refl refl h
  move-Sound settle_ends t h = end_settle-Sound t.settles t refl h

  pub after-Sound :
      (h : List (GoalId × Event W)) (id : GoalId) → Sound (after arm_joint_names check_plan h id)
  after-Sound h id = always arm_joint_names check_plan Sound (fresh-Sound W) move-Sound h id

  -- After every history of interleaved steps, a goal's handle has been terminaled at most once.
  pub never_terminaled_twice :
      (h : List (GoalId × Event W)) (id : GoalId)
      → terminals (after arm_joint_names check_plan h id).log ≤ 1
  unfolding started
  never_terminaled_twice h id = ground (arith, (after-Sound h id).conserved)
