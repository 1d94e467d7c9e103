-- ===== src/Legs/Feedback.antt =====
-- The planner's feedback on its way to a client: dispatch_plan in curobo_plan_client.cpp, the
-- prefixes of plan_legs.h, and the callback that planned_move_server.h hands to start_plan. A
-- callback is what it makes of a planner's state, or `none` when it publishes nothing.
use kinova_gen3_ros.Common.{ℕ, Bool, Option, none, some, if◌then◌else◌}
use kinova_gen3_ros.Common.Text.{String, ◌++◌}
use kinova_gen3_ros.Legs.{leg_name}

-- The fields of a GoTo action's feedback that planning fills.
pub record PlanningFeedback : Type 0 where
  pub phase : String
  pub planner_state : String

abbrev pub FeedbackCb : Type 0
FeedbackCb = String → Option PlanningFeedback

-- `if (on_fb) on_fb(state)`
unfoldable pub relay : Option FeedbackCb → FeedbackCb
relay none state = none
relay (some on_fb) state = on_fb state

-- detail::prefixed
unfoldable pub prefixed_feedback : Option FeedbackCb → String → FeedbackCb
unfolding relay
prefixed_feedback fb prefix state = relay fb (prefix ++ state)

unfoldable pub leg_feedback : Option FeedbackCb → ℕ → ℕ → FeedbackCb
unfolding prefixed_feedback
leg_feedback fb k n = prefixed_feedback fb (leg_name k n)

unfoldable pub blend_feedback : Option FeedbackCb → FeedbackCb
unfolding prefixed_feedback
blend_feedback fb = prefixed_feedback fb "blend: "

-- What the server publishes of a state, for a goal that is tracked or not.
unfoldable pub publish_planning : Bool → FeedbackCb
publish_planning tracked state =
    if tracked then some (record { phase = "planning"; planner_state = state }) else none

-- The feedback of the k-th of `n` legs, from the action server to the goal's handle.
unfoldable pub leg_planning : Bool → ℕ → ℕ → FeedbackCb
unfolding leg_feedback publish_planning
leg_planning tracked k n = relay (some (leg_feedback (some (publish_planning tracked)) k n))
