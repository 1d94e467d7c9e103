-- ===== src/Tests/Planning.antt =====
-- Witnesses: the planner's client and the chain of legs on concrete answers.
use kinova_gen3_ros.Common.{
  ltb, ℕ, ◌≡◌, ◌⊎◌, refl, true, false, List, [], ◌∷◌, none, some, arith, if◌then◌else◌,
}
use kinova_gen3_ros.Common.Text.{String}
use kinova_gen3_ros.Planner.{
  Outcome, failure, PlanResult, WrappedResult, to_outcome, Client, Event, dispatched, responded,
  finished, canceled, idle, dispatch, done, cancel, cancels,
}
use kinova_gen3_ros.Planner as Planning
use kinova_gen3_ros.Planner.Cancel.{OneAtATime, NoneInFlight, in_flight, cancel_reaches_plan}
use kinova_gen3_ros.Planner.Dispatch.{dones, ended, Reports, done_exactly_once, outcome_Reports}
use kinova_gen3_ros.Planner.Holds.{AllHold, SomeUnknown, blend, blend_holds_by_name}
use kinova_gen3_ros.Legs.{World, plan_legs, plan_leg, checked, finish, finish_blend, Action}
use kinova_gen3_ros.Legs.Chain.{Total, done_once}
use kinova_gen3_ros.Legs.Order.{AllSound, plan_legs_sound}
use kinova_gen3_ros.Legs.Verdict.{reported}
use kinova_gen3_ros.Legs.Verdict.Ends.{PassedTo, EndsAt, first_end_reported}
use kinova_gen3_ros.Tests.{thousandths, gen3, trajectory, at_rest}

abbrev good_result : WrappedResult ℕ
good_result = record {
  succeeded = true;
  result =
      some (record {
        success = true;
        message = "";
        trajectory = trajectory;
        goal_mismatch_rad = none;
      });
}

-- A dispatch that gets its result twice, and one still under way.
abbrev planning_history : List (Event ℕ)
planning_history =
    finished 1 good_result
    ∷ finished 1 good_result
    ∷ responded 2 (some 20)
    ∷ dispatched 2 true
    ∷ responded 1 (some 10)
    ∷ dispatched 1 true
    ∷ []

done_exactly_once_example :
    dones 1 (Planning.after planning_history).log ≡ (if ended 1 planning_history then 1 else 0)
done_exactly_once_example = done_exactly_once 1 planning_history

outcome_Reports_example : Reports good_result (to_outcome good_result)
outcome_Reports_example = outcome_Reports good_result

blend_holds_by_name_example :
    ((hs : List ℕ) × AllHold gen3 (1 ∷ 2 ∷ []) hs
      × (blend {Q = ℕ} 3 true
            (trajectory ∷ trajectory ∷ [])
            (100 ∷ [])
            (1000 ∷ 500 ∷ [])
            (1 ∷ 2 ∷ [])
            (0 ∷ 0 ∷ [])
            idle
          ≡ record {
            goal = some (record {
              legs = trajectory ∷ trajectory ∷ [];
              blend_radius = 100 ∷ [];
              speed_scale = 1000 ∷ 500 ∷ [];
              hold = hs;
              hold_orientation = 0 ∷ 0 ∷ [];
            });
            client = dispatch 3 true idle;
          }))
    ⊎ (SomeUnknown gen3 (1 ∷ 2 ∷ [])
        × ((why : String) × (blend {Q = ℕ} 3 true
                (trajectory ∷ trajectory ∷ [])
                (100 ∷ [])
                (1000 ∷ 500 ∷ [])
                (1 ∷ 2 ∷ [])
                (0 ∷ 0 ∷ [])
                idle
              ≡ record { goal = none; client = record idle { log = done 3 (failure why) ∷ [] } })))
blend_holds_by_name_example =
    blend_holds_by_name 3 true (trajectory ∷ trajectory ∷ []) (100 ∷ []) (1000 ∷ 500 ∷ [])
      (1 ∷ 2 ∷ []) (0 ∷ 0 ∷ []) idle

-- The planner has answered dispatch 3, and has accepted dispatch 4.
abbrev one_planned : List (Event ℕ)
one_planned =
    responded 4 (some 14)
    ∷ dispatched 4 true
    ∷ finished 3 (record { succeeded = true; result = none })
    ∷ responded 3 (some 13)
    ∷ dispatched 3 true
    ∷ []

one_planned-OneAtATime : OneAtATime one_planned
one_planned-OneAtATime = (λ n. ground arith, ((13, refl), (λ n. refl, tt)))

cancel_reaches_plan_example :
    ((n handle : ℕ)
      → in_flight n one_planned ≡ some handle
      → (cancel (Planning.after one_planned)).log
        ≡ cancels handle ∷ (Planning.after one_planned).log)
    × (NoneInFlight one_planned → cancel (Planning.after one_planned) ≡ Planning.after one_planned)
cancel_reaches_plan_example = cancel_reaches_plan one_planned one_planned-OneAtATime

-- A planner that answers every leg and blends them, for a goal that is not canceled.
abbrev planned : Outcome ℕ
planned = record { ok = true; message = ""; trajectory = trajectory; goal_mismatch_rad = 0 }

abbrev able : World ℕ
able = record { answer = λ k s. planned; blended = λ ls. planned; canceling = λ i. false }

done_once_example : Total (plan_legs able 2 at_rest)
done_once_example = done_once able 2 at_rest

-- What the chain does over two targets.
abbrev actions : List (Action ℕ)
actions =
    Action.asks_cancel
    ∷ Action.plans 0 at_rest
    ∷ Action.asks_cancel
    ∷ Action.plans 1 (2 ∷ 2 ∷ 2 ∷ 2 ∷ 2 ∷ 2 ∷ 2 ∷ [])
    ∷ Action.asks_cancel
    ∷ Action.blends (trajectory ∷ trajectory ∷ [])
    ∷ Action.done planned
    ∷ []

plan_legs_sound_example : AllSound able 2 at_rest actions
unfolding plan_legs plan_leg checked finish finish_blend
plan_legs_sound_example = plan_legs_sound able 2 at_rest (omega arith) actions refl

-- The same targets, for a goal that is canceled while the first leg is planned.
abbrev interrupted : World ℕ
interrupted = record able { canceling = λ i. ltb 0 i }

abbrev interrupted_actions : List (Action ℕ)
interrupted_actions =
    Action.asks_cancel
    ∷ Action.plans 0 at_rest
    ∷ Action.asks_cancel
    ∷ Action.done (failure "canceled during planning")
    ∷ []

first_end_reported_example :
    (o : Outcome ℕ) × (reported interrupted_actions ≡ some o)
    × ((k : ℕ) × PassedTo interrupted 2 at_rest k × EndsAt interrupted 2 at_rest k o)
unfolding plan_legs plan_leg checked finish finish_blend
first_end_reported_example =
    first_end_reported interrupted 2 at_rest interrupted_actions (omega arith) refl
