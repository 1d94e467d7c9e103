-- ===== src/PlannedMove/Cancels/Steps.antt =====
-- planned_move_server.h: the steps of the threads and a goal's cancel.
use kinova_gen3_ros.Common.{
  ℕ, zero, suc, ◌≡◌, refl, sym, ap, Bool, true, false, ◌||◌, List, [], ◌∷◌, Option, none, some,
  ℕ_eq, arith, Bool-cases, inl, inr, if_yes, if_no, if◌then◌else◌,
}
use mathlib.Core.Path.{subst}
use kinova_gen3_ros.Common.Text.{String}
use kinova_gen3_ros.Driver.{GoalId, Token}
use kinova_gen3_ros.Externals.{Double, Packages}
use kinova_gen3_ros.Mapping.Limits.{contact_rejection}
use kinova_gen3_ros.Planner.{Outcome}
use kinova_gen3_ros.PlannedMove.{MoveGoal, Verdict, refuses, executes}
use kinova_gen3_ros.PlannedMove.Server.{
  Goal, Effect, sink_canceled, planner_canceled, Thread, unborn, planning, planned, settling,
  erasing, offering, marking, registering, handing, rereading, recanceling, finished, PendingCancel,
  Track, Answers, Event, accepts, planner_feedback, plan_done, advances, cancel_locks, cancel_calls,
  cancel_returns, feedback, settle_locks, settle_ends, follow, reread, mark_executing,
  request_cancel, read_cancel, on_accepted, on_planner_feedback, on_plan_done, lock_cancel,
  call_cancel, return_cancel, publish_feedback, lock_settle, end_settle, refused_by, refused_for,
  advance, move, after, always,
}
use kinova_gen3_ros.PlannedMove.Cancels.{
  stop_sent, stop_pending, is_marked, sent, Kept, Good, Sure, Good-grows, Good-moves, to_unmarked,
}

module _ {W : Type 0} where
  on_accepted-Sure :
      (g : MoveGoal W) (th : Thread W) (t : Track W) → Sure t → Sure (on_accepted g th t)
  unfolding on_accepted Good Kept is_marked
  on_accepted-Sure g unborn t h = ground arith
  on_accepted-Sure g _ t h = h

  on_planner_feedback-Sure :
      (s : String) (en : Option (Goal W)) (t : Track W) → Sure t → Sure (on_planner_feedback s en t)
  unfolding on_planner_feedback sent stop_sent
  on_planner_feedback-Sure s none t h = h
  on_planner_feedback-Sure s (some g) t h = Good-grows t.thread t.entry _ _ _ _ (λ g e. e) h

  publish_feedback-Sure :
      (en : Option (Goal W)) (t : Track W) → Sure t → Sure (publish_feedback en t)
  unfolding publish_feedback sent stop_sent
  publish_feedback-Sure none t h = h
  publish_feedback-Sure (some g) t h = Good-grows t.thread t.entry _ _ _ _ (λ g e. e) h

  on_plan_done-Sure :
      (o : Outcome W) (th : Thread W) (en : Option (Goal W)) (t : Track W)
      → t.entry ≡ en
      → Sure t
      → Sure (on_plan_done o th en t)
  unfolding on_plan_done Good Kept is_marked
  on_plan_done-Sure o planning none t e h = rw e tt
  on_plan_done-Sure o planning (some g) t e h = to_unmarked (planned g.goal o) t t.log refl h
  on_plan_done-Sure o _ en t e h = h

  lock_cancel-Good :
      (th : Thread W) (en : Option (Goal W)) (cs : List PendingCancel) (es : List (Effect W))
      → Good th en cs es
      → Good th (request_cancel en) (read_cancel en ∷ cs) es
  unfolding Good Kept is_marked sent stop_pending
  lock_cancel-Good th none cs es h = tt
  lock_cancel-Good (recanceling u) (some g) cs es h = h
  lock_cancel-Good finished (some g) cs es h = ground (arith, h)
  lock_cancel-Good _ (some g) cs es h = h

  sent-call_cancel :
      (g : Goal W) (c : PendingCancel) (cs : List PendingCancel) (es : List (Effect W))
      → sent g (c ∷ cs) es ≡ true
      → sent g cs ((if c.executing then sink_canceled c.token else planner_canceled) ∷ es) ≡ true
  unfolding sent stop_sent stop_pending
  sent-call_cancel g c cs es s = elim (Bool-cases c.executing) [
    | inl y ↦ rw (if_yes _ _ y) (ground (arith, s, y))
    | inr n ↦ rw (if_no _ _ n) (ground (arith, s, n))
  ]

  call_cancel-Sure :
      (cs : List PendingCancel) (t : Track W) → t.cancels ≡ cs → Sure t → Sure (call_cancel cs t)
  unfolding call_cancel
  call_cancel-Sure [] t e h = h
  call_cancel-Sure (c ∷ cs) t e h =
      Good-grows t.thread t.entry _ _ _ _
        (λ g s. sent-call_cancel g c cs t.log (subst (λ l. sent g l t.log ≡ true) e s)) h

  return_cancel-Sure : (n : ℕ) (t : Track W) → Sure t → Sure (return_cancel n t)
  unfolding return_cancel
  return_cancel-Sure zero t h = h
  return_cancel-Sure (suc n) t h = h

  lock_settle-Sure :
      (r : _) (sup : Bool) (en : Option (Goal W)) (t : Track W)
      → Sure t
      → Sure (lock_settle r sup en t)
  unfolding lock_settle Good
  lock_settle-Sure r true (some g) t h = tt
  lock_settle-Sure r true none t h = h
  lock_settle-Sure r false en t h = h

  end_settle-Sure : (rs : _) (t : Track W) → Sure t → Sure (end_settle rs t)
  unfolding end_settle sent stop_sent
  end_settle-Sure [] t h = h
  end_settle-Sure (r ∷ rs) t h = Good-grows t.thread t.entry _ _ _ _ (λ g e. e) h

  mark_executing-Good :
      (tg : _) (th : Thread W) (en : Option (Goal W)) (cs : List PendingCancel)
      (es : List (Effect W))
      → Good th en cs es
      → Good (registering tg) (mark_executing en) cs es
  unfolding Good Kept
  mark_executing-Good tg th none cs es h = tt
  mark_executing-Good tg th (some g) cs es h = (h.0, λ _. refl, tt)

  reread-Good :
      (en : Option (Goal W)) (cs : List PendingCancel) (es : List (Effect W))
      → Good rereading en cs es
      → Good (reread en) en cs es
  unfolding Good Kept is_marked
  reread-Good none cs es h = tt
  reread-Good (some g) cs es h = elim (Bool-cases g.cancel_requested) [
    | inl y ↦ rw (if_yes _ _ y) (h.0, λ _. h.1 refl, refl)
    | inr n ↦ rw (if_no _ _ n) (h.0, λ _. h.1 refl, λ y. cc)
  ]

  recancel-Good :
      (u : Token) (en : Option (Goal W)) (cs : List PendingCancel) (es : List (Effect W))
      → Good (recanceling u) en cs es
      → Good finished en cs (sink_canceled u ∷ es)
  unfolding Good Kept is_marked sent stop_sent
  recancel-Good u none cs es h = tt
  recancel-Good u (some g) cs es h = (h.0, λ _. h.1 refl, λ _. ground (arith, h))

  follow-unmarked : (v : Verdict W) → is_marked (follow v) ≡ false
  unfolding is_marked
  follow-unmarked (refuses code msg) = refl
  follow-unmarked (executes tg) = refl

module _ (W : Type 0) where
  refused_for-unmarked : (why : Option String) → is_marked (refused_for {W = W} why) ≡ false
  unfolding is_marked
  refused_for-unmarked none = refl
  refused_for-unmarked (some why) = refl

module _ {W : Type 0} ⦃d : Double W⦄ ⦃k : Packages W⦄ (arm_joint_names : List String)
    (check_plan : Outcome W → Option String) where
  advance-Sure :
      (a : Answers W) (th : Thread W) (t : Track W)
      → t.thread ≡ th
      → Sure t
      → Sure (advance arm_joint_names check_plan a th t)
  unfolding advance refused_by Good Kept is_marked
  advance-Sure a (planned g o) t e h = to_unmarked _ t t.log (follow-unmarked _) h
  advance-Sure a (settling code msg) t e h = to_unmarked erasing t _ refl h
  advance-Sure a erasing t e h = tt
  advance-Sure a (offering tg) t e h =
      to_unmarked _ t _
        (elim (Bool-cases a.accepts) [
          | inl y ↦ rw (if_yes _ _ y) refl
          | inr n ↦ rw (if_no _ _ n) (refused_for-unmarked W (contact_rejection a.contact))
        ])
        h
  advance-Sure a (marking tg) t e h = mark_executing-Good tg t.thread t.entry _ _ h
  advance-Sure a (registering tg) t e h =
      Good-moves t.thread (handing tg) t.entry t.cancels t.cancels t.log _ (λ _. ap is_marked e)
        (λ g. tt) h
  advance-Sure a (handing tg) t e h =
      Good-moves t.thread rereading t.entry t.cancels t.cancels t.log _ (λ _. ap is_marked e)
        (λ g. tt) h
  advance-Sure a rereading t e h =
      reread-Good t.entry _ _ (subst (λ u. Good u t.entry t.cancels t.log) e h)
  advance-Sure a (recanceling u) t e h =
      recancel-Good u t.entry _ _ (subst (λ v. Good v t.entry t.cancels t.log) e h)
  advance-Sure a _ t e h = h

  move-Sure : (e : Event W) (t : Track W) → Sure t → Sure (move arm_joint_names check_plan e t)
  unfolding move lock_cancel
  move-Sure (accepts g) t h = on_accepted-Sure g t.thread t h
  move-Sure (planner_feedback s) t h = on_planner_feedback-Sure s t.entry t h
  move-Sure (plan_done o) t h = on_plan_done-Sure o t.thread t.entry t refl h
  move-Sure (advances a) t h = advance-Sure a t.thread t refl h
  move-Sure cancel_locks t h = lock_cancel-Good t.thread t.entry t.cancels t.log h
  move-Sure cancel_calls t h = call_cancel-Sure t.cancels t refl h
  move-Sure cancel_returns t h = return_cancel-Sure t.returning t h
  move-Sure feedback t h = publish_feedback-Sure t.entry t h
  move-Sure (settle_locks r) t h = lock_settle-Sure r t.supervised t.entry t h
  move-Sure settle_ends t h = end_settle-Sure t.settles t h

  -- What soundness says of a goal that on_plan_done has finished with.
  Good-finished :
      (th : Thread W) (en : Option (Goal W)) (cs : List PendingCancel) (es : List (Effect W))
      (g : Goal W)
      → en ≡ some g
      → th ≡ finished
      → g.cancel_requested ≡ true
      → Good th en cs es
      → (stop_sent g.goal.token es || stop_pending g.goal.token cs) ≡ true
  unfolding Good Kept sent
  Good-finished th en cs es g p q c h =
      let (named, marked, kept) =
        subst (λ e. Good finished e cs es) p (subst (λ u. Good u en cs es) q h) in
      rw (sym named) (kept c)

  -- The same, of the history's goal, once its cancel is latched.
  pub latched-sent :
      (h : List (GoalId × Event W)) (id : GoalId) (g : Goal W)
      → (after arm_joint_names check_plan h id).entry ≡ some g
      → (after arm_joint_names check_plan h id).thread ≡ finished
      → g.cancel_requested ≡ true
      → (stop_sent g.goal.token (after arm_joint_names check_plan h id).log
          || stop_pending g.goal.token (after arm_joint_names check_plan h id).cancels)
        ≡ true
  unfolding Good
  latched-sent h id g p q c =
      Good-finished _ _ _ _ g p q c (always arm_joint_names check_plan Sure tt move-Sure h id)
