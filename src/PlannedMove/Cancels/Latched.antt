-- ===== src/PlannedMove/Cancels/Latched.antt =====
-- planned_move_server.h: from the call of handle_cancel to the latch in the goal's entry.
use kinova_gen3_ros.Common.{
  ℕ, zero, suc, ◌≡◌, refl, sym, ◌||◌, Bool, true, false, List, [], ◌∷◌, ◌++◌, Option, none, some,
  ℕ_eq, if_yes, if◌then◌else◌,
}
use mathlib.Core.Path.{subst}
use kinova_gen3_ros.Common.Text.{String}
use kinova_gen3_ros.Driver.{GoalId, TrajectoryResult}
use kinova_gen3_ros.Externals.{Double, Packages}
use kinova_gen3_ros.Planner.{Outcome}
use kinova_gen3_ros.PlannedMove.{MoveGoal, Verdict, refuses, executes}
use kinova_gen3_ros.PlannedMove.Server.{
  Goal, Thread, unborn, planning, planned, settling, erasing, offering, marking, registering,
  handing, rereading, recanceling, finished, PendingCancel, Track, Answers, Event, accepts,
  planner_feedback, plan_done, advances, cancel_locks, cancel_calls, cancel_returns, feedback,
  settle_locks, settle_ends, mark_executing, request_cancel, on_accepted, on_planner_feedback,
  on_plan_done, lock_cancel, call_cancel, return_cancel, publish_feedback, lock_settle, end_settle,
  advance, move, after, later, follow, reread, refused_by, refused_for,
}
use kinova_gen3_ros.PlannedMove.Cancels.{stop_sent, stop_pending}
use kinova_gen3_ros.PlannedMove.Cancels.Steps.{latched-sent}

module _ {W : Type 0} where
  -- The goal was accepted.
  abbrev IsBorn : Thread W → Type 0
  IsBorn unborn = ⊥
  IsBorn _ = Unit

  -- When a cancel was `asked`, a goal that is still tracked has it latched.
  abbrev Holds : Bool → Option (Goal W) → Type 0
  Holds asked none = Unit
  Holds asked (some g) = asked ≡ true → g.cancel_requested ≡ true

  record Latched (asked : Bool) (t : Track W) : Type 0 where
    born : IsBorn t.thread
    holds : Holds asked t.entry

  accepted-Latched :
      (b : Bool) (g : MoveGoal W) (th : Thread W) (t : Track W)
      → t.thread ≡ th
      → Latched b t
      → Latched b (on_accepted g th t)
  unfolding on_accepted
  accepted-Latched b g unborn t e h = absurd (subst IsBorn e h.born)
  accepted-Latched b g _ t e h = h

  planner_feedback-Latched :
      (b : Bool) (m : String) (en : Option (Goal W)) (t : Track W)
      → Latched b t
      → Latched b (on_planner_feedback m en t)
  unfolding on_planner_feedback
  planner_feedback-Latched b m none t h = h
  planner_feedback-Latched b m (some g) t h = record { born = h.born; holds = h.holds }

  plan_done-Latched :
      (b : Bool) (o : Outcome W) (th : Thread W) (en : Option (Goal W)) (t : Track W)
      → Latched b t
      → Latched b (on_plan_done o th en t)
  unfolding on_plan_done
  plan_done-Latched b o planning none t h = record { born = tt; holds = h.holds }
  plan_done-Latched b o planning (some g) t h = record { born = tt; holds = h.holds }
  plan_done-Latched b o _ en t h = h

  requested-Holds : (b c : Bool) (en : Option (Goal W)) → Holds b en → Holds c (request_cancel en)
  requested-Holds b c none h = tt
  requested-Holds b c (some g) h = λ _. refl

  call_cancel-Latched :
      (b : Bool) (cs : List PendingCancel) (t : Track W)
      → Latched b t
      → Latched b (call_cancel cs t)
  unfolding call_cancel
  call_cancel-Latched b [] t h = h
  call_cancel-Latched b (x ∷ cs) t h = record { born = h.born; holds = h.holds }

  return_cancel-Latched :
      (b : Bool) (n : ℕ) (t : Track W) → Latched b t → Latched b (return_cancel n t)
  unfolding return_cancel
  return_cancel-Latched b zero t h = h
  return_cancel-Latched b (suc n) t h = record { born = h.born; holds = h.holds }

  publish_feedback-Latched :
      (b : Bool) (en : Option (Goal W)) (t : Track W)
      → Latched b t
      → Latched b (publish_feedback en t)
  unfolding publish_feedback
  publish_feedback-Latched b none t h = h
  publish_feedback-Latched b (some g) t h = record { born = h.born; holds = h.holds }

  lock_settle-Latched :
      (b : Bool) (r : TrajectoryResult W) (sup : Bool) (en : Option (Goal W)) (t : Track W)
      → Latched b t
      → Latched b (lock_settle r sup en t)
  unfolding lock_settle
  lock_settle-Latched b r true none t h = h
  lock_settle-Latched b r true (some g) t h = record { born = h.born; holds = tt }
  lock_settle-Latched b r false en t h = h

  end_settle-Latched :
      (b : Bool) (rs : List (TrajectoryResult W)) (t : Track W)
      → Latched b t
      → Latched b (end_settle rs t)
  unfolding end_settle
  end_settle-Latched b [] t h = h
  end_settle-Latched b (r ∷ rs) t h = record { born = h.born; holds = h.holds }

  follow-IsBorn : (v : Verdict W) → IsBorn (follow v)
  follow-IsBorn (refuses code m) = tt
  follow-IsBorn (executes tg) = tt

  marked-Holds : (b : Bool) (en : Option (Goal W)) → Holds b en → Holds b (mark_executing en)
  marked-Holds b none h = tt
  marked-Holds b (some g) h = h

  reread-IsBorn : (en : Option (Goal W)) → IsBorn (reread en)
  reread-IsBorn none = tt
  reread-IsBorn (some g) = if_IsBorn g.cancel_requested
    where
      if_IsBorn : (b : Bool) → IsBorn (if b then recanceling g.token else finished)
      if_IsBorn true = tt
      if_IsBorn false = tt

  offered-IsBorn :
      (b : Bool) (tg : _) (why : Option String) → IsBorn (if b then marking tg else refused_for why)
  offered-IsBorn true tg why = tt
  offered-IsBorn false tg none = tt
  offered-IsBorn false tg (some m) = tt

module _ {W : Type 0} where
  unasked : (en : Option (Goal W)) → Holds false en
  unasked none = tt
  unasked (some g) = λ n. absurd cc

module _ {W : Type 0} ⦃d : Double W⦄ ⦃k : Packages W⦄ (arm_joint_names : List String)
    (check_plan : Outcome W → Option String) where
  advance-Latched :
      (b : Bool) (a : Answers W) (th : Thread W) (t : Track W)
      → Latched b t
      → Latched b (advance arm_joint_names check_plan a th t)
  unfolding advance refused_by
  advance-Latched b a (planned g o) t h = record { born = follow-IsBorn _; holds = h.holds }
  advance-Latched b a (settling code m) t h = record { born = tt; holds = h.holds }
  advance-Latched b a erasing t h = record { born = tt; holds = tt }
  advance-Latched b a (offering tg) t h = record {
    born = offered-IsBorn a.accepts tg _;
    holds = h.holds;
  }
  advance-Latched b a (marking tg) t h = record {
    born = tt;
    holds = marked-Holds b t.entry h.holds;
  }
  advance-Latched b a (registering tg) t h = record { born = tt; holds = h.holds }
  advance-Latched b a (handing tg) t h = record { born = tt; holds = h.holds }
  advance-Latched b a rereading t h = record { born = reread-IsBorn t.entry; holds = h.holds }
  advance-Latched b a (recanceling token) t h = record { born = tt; holds = h.holds }
  advance-Latched b a _ t h = h

  move-Latched :
      (b : Bool) (e : Event W) (t : Track W)
      → Latched b t
      → Latched b (move arm_joint_names check_plan e t)
  unfolding move lock_cancel
  move-Latched b (accepts g) t h = accepted-Latched b g t.thread t refl h
  move-Latched b (planner_feedback m) t h = planner_feedback-Latched b m t.entry t h
  move-Latched b (plan_done o) t h = plan_done-Latched b o t.thread t.entry t h
  move-Latched b (advances a) t h = advance-Latched b a t.thread t h
  move-Latched b cancel_locks t h = record {
    born = h.born;
    holds = requested-Holds b b t.entry h.holds;
  }
  move-Latched b cancel_calls t h = call_cancel-Latched b t.cancels t h
  move-Latched b cancel_returns t h = return_cancel-Latched b t.returning t h
  move-Latched b feedback t h = publish_feedback-Latched b t.entry t h
  move-Latched b (settle_locks r) t h = lock_settle-Latched b r t.supervised t.entry t h
  move-Latched b settle_ends t h = end_settle-Latched b t.settles t h

  step-here :
      (e : Event W) (h : List (GoalId × Event W)) (id : GoalId)
      → after arm_joint_names check_plan ((id, e) ∷ h) id
        ≡ move arm_joint_names check_plan e (after arm_joint_names check_plan h id)
  unfolding after
  step-here e h id = if_yes _ _ ((ℕ_eq.equals_iff id id).1 refl)

  accepts-Latched :
      (g : MoveGoal W) (th : Thread W) (t : Track W)
      → t.thread ≡ th
      → Latched false (on_accepted g th t)
  unfolding on_accepted
  accepts-Latched g unborn t e = record { born = tt; holds = λ n. absurd cc }
  accepts-Latched g _ t e = record { born = subst IsBorn (sym e) tt; holds = unasked t.entry }

  cancels-Latched : (t : Track W) → Latched false t → Latched true (lock_cancel t)
  unfolding lock_cancel
  cancels-Latched t h = record { born = h.born; holds = requested-Holds false true t.entry h.holds }

  -- After a goal was accepted and later a cancel took the lock.
  asked-Latched :
      (newer middle older : List (GoalId × Event W)) (id : GoalId) (goal : MoveGoal W)
      → Latched true (
          after arm_joint_names check_plan
            (newer ++ ((id, cancel_locks) ∷ middle ++ ((id, accepts goal) ∷ older)))
            id)
  unfolding move
  asked-Latched newer middle older id goal =
      later arm_joint_names check_plan (Latched true) (move-Latched true) newer _ id (
        subst (Latched true)
          (sym (step-here cancel_locks (middle ++ ((id, accepts goal) ∷ older)) id))
          (cancels-Latched _ (
            later arm_joint_names check_plan (Latched false) (move-Latched false) middle _ id (
              subst (Latched false) (sym (step-here (accepts goal) older id))
                (accepts-Latched goal _ (after arm_joint_names check_plan older id) refl)))))

  entry-Latched :
      (t : Track W) (g : Goal W) → t.entry ≡ some g → Latched true t → g.cancel_requested ≡ true
  entry-Latched t g e h = subst (Holds true) e h.holds refl

  -- The goal after a history in which it was accepted and, at a later moment, a cancel of it took the
  -- server's lock.
  abbrev pub canceled_after :
      List (GoalId × Event W)
      → List (GoalId × Event W)
      → List (GoalId × Event W)
      → GoalId
      → MoveGoal W
      → Track W
  canceled_after newer middle older id goal =
      after arm_joint_names check_plan
        (newer ++ ((id, cancel_locks) ∷ middle ++ ((id, accepts goal) ∷ older))) id

  -- A cancel is not lost in the handover: once a goal was accepted and, at any later moment, a cancel
  -- of it took the server's lock, then if on_plan_done has ended and the goal still lives, so that
  -- the supervisor is executing it, a cancel carrying the goal's own token has been sent to the
  -- supervisor after it was handed the goal, or is about to be.
  pub cancel_not_lost :
      (newer middle older : List (GoalId × Event W)) (id : GoalId) (goal : MoveGoal W) (g : Goal W)
      → (canceled_after newer middle older id goal).entry ≡ some g
      → (canceled_after newer middle older id goal).thread ≡ finished
      → (stop_sent g.goal.token (canceled_after newer middle older id goal).log
          || stop_pending g.goal.token (canceled_after newer middle older id goal).cancels)
        ≡ true
  cancel_not_lost newer middle older id goal g lives ended =
      latched-sent arm_joint_names check_plan _ id g lives ended
        (entry-Latched _ g lives (asked-Latched newer middle older id goal))
