-- ===== src/Planner.antt =====
-- curobo_plan_client.h and curobo_plan_client.cpp: the asynchronous client of the cuRobo planner.
-- The three action clients share one `active_cancel_`. A dispatch is numbered by its caller; the
-- executor's callbacks are the steps below, and a log, newest call first, records what the client
-- calls. Poses and quaternions are opaque values `P` and `Q`, which the client only passes on.
pub mod Dispatch
pub mod Holds
pub mod Cancel
use kinova_gen3_ros.Common.{
  ℕ, Bool, true, false, not, ◌&&◌, List, [], ◌∷◌, Option, none, some, ◌==◌, string_eq, ℕ_eq,
  if◌then◌else◌, update,
}
use kinova_gen3_ros.Common.Text.{String}
use kinova_gen3_ros.Messages.{JointTrajectory}
use kinova_gen3_ros.Externals.{Double}

pub record Outcome (W : Type 0) : Type 0 where
  pub ok : Bool
  pub message : String
  pub trajectory : JointTrajectory W
  pub goal_mismatch_rad : W

abbrev pub no_trajectory : {W : Type 0} → JointTrajectory W
no_trajectory = record { frame_id = ""; joint_names = []; points = [] }

module _ {W : Type 0} ⦃d : Double W⦄ where
  -- `{false, message, {}, 0.0}`
  abbrev pub failure : String → Outcome W
  failure message = record {
    ok = false;
    message = message;
    trajectory = no_trajectory;
    goal_mismatch_rad = d.decimal 0 0;
  }

-- The result fields that the three plan actions share. `goal_mismatch_rad` is `none` for the
-- actions whose result has no such field.
pub record PlanResult (W : Type 0) : Type 0 where
  pub success : Bool
  pub message : String
  pub trajectory : JointTrajectory W
  pub goal_mismatch_rad : Option W

-- rclcpp_action's WrappedResult: whether its code is SUCCEEDED, and the result if there is one.
pub record WrappedResult (W : Type 0) : Type 0 where
  pub succeeded : Bool
  pub result : Option (PlanResult W)

module _ {W : Type 0} ⦃d : Double W⦄ where
  mismatch_of : PlanResult W → W
  mismatch_of r = elim r.goal_mismatch_rad [ none ↦ d.decimal 0 0 | some m ↦ m ]

  failure_message : Option (PlanResult W) → String
  failure_message none = "cuRobo plan failed"
  failure_message (some r) = if r.message == "" then "cuRobo plan failed" else r.message

  planned : PlanResult W → Outcome W
  unfolding mismatch_of
  planned r = record {
    ok = true;
    message = r.message;
    trajectory = r.trajectory;
    goal_mismatch_rad = mismatch_of r;
  }

  -- The result callback's mapping.
  unfoldable pub to_outcome : WrappedResult W → Outcome W
  unfolding failure_message planned
  to_outcome wr = elim wr.result [
    | none ↦ failure (failure_message none)
    | some r ↦ if wr.succeeded && r.success then planned r else failure (failure_message (some r))
  ]

-- What the client calls: `on_done` of a dispatch, `async_cancel_goal` of a goal handle.
pub data Call (W : Type 0) : Type 0 where
  done : ℕ → Outcome W → Call W
  cancels : ℕ → Call W

pub record Client (W : Type 0) : Type 0 where
  pub fired : ℕ → Bool  -- the once_flag of each dispatch
  pub active_cancel : Option ℕ  -- the goal handle that cancel() would cancel
  pub log : List (Call W)

-- What happens to the client: a dispatch that finds the action server or not, the goal response
-- with its handle or without, the result, and cancel().
pub data Event (W : Type 0) : Type 0 where
  dispatched : ℕ → Bool → Event W
  responded : ℕ → Option ℕ → Event W
  finished : ℕ → WrappedResult W → Event W
  canceled : Event W

abbrev pub idle : {W : Type 0} → Client W
idle = record { fired = λ _. false; active_cancel = none; log = [] }

module _ {W : Type 0} where
  -- std::call_once around on_done.
  unfoldable pub fire : ℕ → Outcome W → Client W → Client W
  fire n o c =
      if c.fired n then c else record c { fired = update c.fired n true; log = done n o ∷ c.log }

  -- cancel()
  unfoldable pub cancel : Client W → Client W
  cancel c = elim c.active_cancel [
    | none ↦ c
    | some handle ↦ record c { log = cancels handle ∷ c.log }
  ]

module _ {W : Type 0} ⦃d : Double W⦄ where
  -- dispatch_plan up to async_send_goal.
  unfoldable pub dispatch : ℕ → Bool → Client W → Client W
  unfolding fire
  dispatch n available c =
      if available then c else fire n (failure "cuRobo action server unavailable") c

  unfoldable pub on_response : ℕ → Option ℕ → Client W → Client W
  unfolding fire
  on_response n none c = fire n (failure "cuRobo rejected plan goal") c
  on_response n (some handle) c = record c { active_cancel = some handle }

  unfoldable pub on_result : ℕ → WrappedResult W → Client W → Client W
  unfolding fire
  on_result n wr c = fire n (to_outcome wr) (record c { active_cancel = none })

  unfoldable pub step : Event W → Client W → Client W
  unfolding dispatch on_response on_result cancel
  step (dispatched n available) c = dispatch n available c
  step (responded n handle) c = on_response n handle c
  step (finished n wr) c = on_result n wr c
  step canceled c = cancel c

  -- The client after a history, its newest event first.
  unfoldable pub after : List (Event W) → Client W
  after [] = idle
  after (e ∷ older) = step e (after older)
