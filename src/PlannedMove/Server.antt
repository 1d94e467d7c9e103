-- ===== src/PlannedMove/Server.antt =====
-- planned_move_server.h, the concurrent half: handle_accepted, handle_cancel, on_plan_done, settle
-- and terminal. handle_accepted is one step; the others are cut where they take or leave the mutex
-- or call out, so that the steps of the planner's, the supervisor's and the executor's threads
-- interleave freely. Every step names one goal and touches only that goal's entry of `goals_`, so
-- the world is a map from goals to tracks.
use kinova_gen3_ros.Common.{
  ℕ, Bool, true, false, List, [], ◌∷◌, ◌++◌, sym, Option, none, some, ◌==◌, ℕ_eq, if◌then◌else◌,
  update, Bool-cases, if_yes, if_no, inl, inr, zero, suc,
}
use mathlib.Core.Path.{subst}
use kinova_gen3_ros.Common.Text.{String}
use kinova_gen3_ros.Driver.{
  Token, zero_token, GoalId, TrajectoryGoal, TrajectoryResult, ResultCode, successful, contact_stop,
  invalid_goal, ContactState,
}
use kinova_gen3_ros.Externals.{Double, Packages}
use kinova_gen3_ros.Mapping.Limits.{contact_rejection}
use kinova_gen3_ros.Planner.{Outcome}
use kinova_gen3_ros.PlannedMove.{MoveGoal, Verdict, refuses, executes, verdict}

-- An entry of `goals_`; the goal message stands for its handle.
pub record Goal (W : Type 0) : Type 0 where
  pub goal : MoveGoal W
  pub executing : Bool
  pub cancel_requested : Bool
  pub token : Token

-- The transition made on a goal handle.
pub data Transition : Type 0 where
  canceled succeeded aborted : Transition

-- What the server does to the outside, for one goal.
pub data Effect (W : Type 0) : Type 0 where
  planning_feedback : String → Effect W
  executing_feedback : Effect W
  offered : TrajectoryGoal W → Effect W
  registered : Effect W
  handed : TrajectoryGoal W → Effect W
  sink_canceled : Token → Effect W
  planner_canceled : Effect W
  terminaled : Transition → ResultCode → String → Effect W

-- Where handle_accepted and then on_plan_done stand, for one goal.
pub data Thread (W : Type 0) : Type 0 where
  unborn : Thread W
  planning : Thread W
  planned : MoveGoal W → Outcome W → Thread W
  settling : ResultCode → String → Thread W
  erasing : Thread W
  offering : TrajectoryGoal W → Thread W
  marking : TrajectoryGoal W → Thread W
  registering : TrajectoryGoal W → Thread W
  handing : TrajectoryGoal W → Thread W
  rereading : Thread W
  recanceling : Token → Thread W
  finished : Thread W

-- A call of handle_cancel past its lock: what it read there.
pub record PendingCancel : Type 0 where
  pub executing : Bool
  pub token : Token

-- One goal: its entry of `goals_`, whether its handle is canceling, its threads, and the log of
-- effects, newest first. `supervised` says that on_trajectory_accepted has been called, since only
-- then may the supervisor settle the goal; `returning` counts cancels accepted whose answer ROS has not yet acted on.
pub record Track (W : Type 0) : Type 0 where
  pub entry : Option (Goal W)
  pub canceling : Bool
  pub thread : Thread W
  pub supervised : Bool
  pub cancels : List PendingCancel
  pub returning : ℕ
  pub settles : List (TrajectoryResult W)
  pub log : List (Effect W)

-- The supervisor's answers when on_plan_done asks them.
pub record Answers (W : Type 0) : Type 0 where
  pub accepts : Bool
  pub contact : ContactState W

pub data Event (W : Type 0) : Type 0 where
  accepts : MoveGoal W → Event W  -- handle_accepted
  planner_feedback : String → Event W  -- the planner's feedback callback
  plan_done : Outcome W → Event W  -- on_plan_done's lookup
  advances : Answers W → Event W  -- on_plan_done's next step
  cancel_locks : Event W  -- handle_cancel under the mutex
  cancel_calls : Event W  -- its call, of the sink or of the planner
  cancel_returns : Event W  -- ROS moves the handle to canceling
  feedback : Event W  -- publish_feedback
  settle_locks : TrajectoryResult W → Event W  -- settle under the mutex
  settle_ends : Event W  -- its call of terminal

-- terminal's choice of transition.
abbrev pub transition : Bool → ResultCode → Transition
transition true code = canceled
transition false successful = succeeded
transition false _ = aborted

module _ {W : Type 0} where
  -- The single place where a goal handle is terminated.
  abbrev pub terminal : ResultCode → String → Track W → Track W
  terminal code msg t = record t { log = terminaled (transition t.canceling code) code msg ∷ t.log }

  abbrev pub logs : Effect W → Track W → Track W
  logs e t = record t { log = e ∷ t.log }

  abbrev pub fresh : Track W
  fresh = record {
    entry = none;
    canceling = false;
    thread = unborn;
    supervised = false;
    cancels = [];
    returning = 0;
    settles = [];
    log = [];
  }

  abbrev pub mark_executing : Option (Goal W) → Option (Goal W)
  mark_executing none = none
  mark_executing (some g) = some (record g { executing = true })

  abbrev pub request_cancel : Option (Goal W) → Option (Goal W)
  request_cancel none = none
  request_cancel (some g) = some (record g { cancel_requested = true })

  -- handle_accepted; the goal's identifier is new.
  unfoldable pub on_accepted : MoveGoal W → Thread W → Track W → Track W
  on_accepted g unborn t = record t {
    entry =
        some (record { goal = g; executing = false; cancel_requested = false; token = g.token });
    thread = planning;
    log = planning_feedback "" ∷ t.log;
  }
  on_accepted g _ t = t

  unfoldable pub on_planner_feedback : String → Option (Goal W) → Track W → Track W
  on_planner_feedback state none t = t
  on_planner_feedback state (some g) t = logs (planning_feedback state) t

  -- on_plan_done's lookup; the planner's client calls it once for a goal.
  unfoldable pub on_plan_done : Outcome W → Thread W → Option (Goal W) → Track W → Track W
  on_plan_done o planning none t = record t { thread = finished }
  on_plan_done o planning (some g) t = record t { thread = planned g.goal o }
  on_plan_done o _ e t = t

  -- handle_cancel under the mutex: what it reads, and the request it latches.
  abbrev pub read_cancel : Option (Goal W) → PendingCancel
  read_cancel none = record { executing = false; token = zero_token }
  read_cancel (some g) = record { executing = g.executing; token = g.token }

  unfoldable pub lock_cancel : Track W → Track W
  lock_cancel t = record t {
    entry = request_cancel t.entry;
    cancels = read_cancel t.entry ∷ t.cancels;
  }

  -- handle_cancel after the mutex.
  unfoldable pub call_cancel : List PendingCancel → Track W → Track W
  call_cancel [] t = t
  call_cancel (c ∷ cs) t = record t {
    cancels = cs;
    returning = suc t.returning;
    log = (if c.executing then sink_canceled c.token else planner_canceled) ∷ t.log;
  }

  -- ROS moves the handle to canceling, which has no effect on a handle that has ended.
  unfoldable pub return_cancel : ℕ → Track W → Track W
  return_cancel zero t = t
  return_cancel (suc n) t = record t { canceling = true; returning = n }

  unfoldable pub publish_feedback : Option (Goal W) → Track W → Track W
  publish_feedback none t = t
  publish_feedback (some g) t = logs executing_feedback t

  -- settle under the mutex.
  unfoldable pub lock_settle : TrajectoryResult W → Bool → Option (Goal W) → Track W → Track W
  lock_settle r true (some g) t = record t { entry = none; settles = r ∷ t.settles }
  lock_settle r true none t = t
  lock_settle r false e t = t

  unfoldable pub end_settle : List (TrajectoryResult W) → Track W → Track W
  end_settle [] t = t
  end_settle (r ∷ rs) t = terminal r.error_code r.error_string (record t { settles = rs })

  -- The refusal by the supervisor.
  abbrev pub refused_for : Option String → Thread W
  refused_for (some why) = settling contact_stop why
  refused_for none = settling invalid_goal "supervisor rejected planned trajectory"

  unfoldable pub refused_by : Answers W → Thread W
  refused_by a = refused_for (contact_rejection a.contact)

  abbrev pub reread : Option (Goal W) → Thread W
  reread none = finished
  reread (some g) = if g.cancel_requested then recanceling g.token else finished

  abbrev pub follow : Verdict W → Thread W
  follow (refuses code msg) = settling code msg
  follow (executes tg) = offering tg

module _ {W : Type 0} ⦃d : Double W⦄ ⦃k : Packages W⦄ (arm_joint_names : List String)
    (check_plan : Outcome W → Option String) where
  -- on_plan_done after its lookup, one call or one hold of the mutex at a time.
  unfoldable pub advance : Answers W → Thread W → Track W → Track W
  unfolding refused_by
  advance a (planned g o) t = record t {
    thread = follow (verdict arm_joint_names check_plan t.canceling g o);
  }
  advance a (settling code msg) t = record (terminal code msg t) { thread = erasing }
  advance a erasing t = record t { entry = none; thread = finished }
  advance a (offering tg) t = record t {
    thread = if a.accepts then marking tg else refused_by a;
    log = offered tg ∷ t.log;
  }
  advance a (marking tg) t = record t { entry = mark_executing t.entry; thread = registering tg }
  advance a (registering tg) t = record t { thread = handing tg; log = registered ∷ t.log }
  advance a (handing tg) t = record t {
    thread = rereading;
    supervised = true;
    log = handed tg ∷ t.log;
  }
  advance a rereading t = record t { thread = reread t.entry }
  advance a (recanceling token) t = record t {
    thread = finished;
    log = sink_canceled token ∷ t.log;
  }
  advance a _ t = t

  unfoldable pub move : Event W → Track W → Track W
  unfolding advance
  move (accepts g) t = on_accepted g t.thread t
  move (planner_feedback state) t = on_planner_feedback state t.entry t
  move (plan_done o) t = on_plan_done o t.thread t.entry t
  move (advances a) t = advance a t.thread t
  move cancel_locks t = lock_cancel t
  move cancel_calls t = call_cancel t.cancels t
  move cancel_returns t = return_cancel t.returning t
  move feedback t = publish_feedback t.entry t
  move (settle_locks r) t = lock_settle r t.supervised t.entry t
  move settle_ends t = end_settle t.settles t

  -- The server after a history of steps, its newest first.
  unfoldable pub after : List (GoalId × Event W) → GoalId → Track W
  unfolding move
  after [] = λ _. fresh
  after ((id, e) ∷ older) = update (after older) id (move e (after older id))

  -- A predicate that holds of a fresh track and that every step keeps holds of every goal's track
  -- after every history.
  pub always {ℓ} :
      (P : Track W → Type ℓ)
      → P fresh
      → ((e : Event W) (t : Track W) → P t → P (move e t))
      → (h : List (GoalId × Event W)) (id : GoalId) → P (after h id)
  unfolding after
  always P base keep [] id = base
  always P base keep ((j, e) ∷ older) id = elim (Bool-cases (j == id)) [
    | inl same ↦ rw (if_yes _ _ same) (keep e _ (always P base keep older j))
    | inr other ↦ rw (if_no _ _ other) (always P base keep older id)
  ]

  -- A predicate that every step keeps, once it holds of a goal's track, holds after every later
  -- history.
  pub later {ℓ} :
      (P : Track W → Type ℓ)
      → ((e : Event W) (t : Track W) → P t → P (move e t))
      → (newer older : List (GoalId × Event W)) (id : GoalId) → P (after older id)
      → P (after (newer ++ older) id)
  unfolding after
  later P keep [] older id h = h
  later P keep ((j, e) ∷ newer) older id h = elim (Bool-cases (j == id)) [
    | inl y ↦ rw (if_yes _ _ y) (
        keep e (after (newer ++ older) j) (
          later P keep newer older j
            (subst (λ i. P (after older i)) (sym ((ℕ_eq.equals_iff j id).0 y)) h)))
    | inr n ↦ rw (if_no _ _ n) (later P keep newer older id h)
  ]
