-- ===== src/PlannedMove/Cancels.antt =====
-- planned_move_server.h: what becomes of a cancel that is latched while a goal is handed over to the
-- supervisor.
pub mod Steps
pub mod Latched
use kinova_gen3_ros.Common.{
  ℕ, zero, suc, ◌≡◌, refl, sym, ap, Bool, true, false, ◌&&◌, ◌||◌, List, [], ◌∷◌, Option, none,
  some, ◌==◌, ℕ_eq, arith, Bool-cases, inl, inr, if_yes, if_no, if◌then◌else◌,
}
use mathlib.Core.Path.{subst}
use kinova_gen3_ros.Common.Text.{String}
use kinova_gen3_ros.Driver.{GoalId, Token}
use kinova_gen3_ros.Externals.{Double, Packages}
use kinova_gen3_ros.Mapping.Limits.{contact_rejection}
use kinova_gen3_ros.Planner.{Outcome}
use kinova_gen3_ros.PlannedMove.{MoveGoal, Verdict, refuses, executes}
use kinova_gen3_ros.PlannedMove.Server.{
  Goal, Effect, handed, sink_canceled, planner_canceled, Thread, unborn, planning, planned,
  settling, erasing, offering, marking, registering, handing, rereading, recanceling, finished,
  PendingCancel, Track, Answers, Event, accepts, planner_feedback, plan_done, advances,
  cancel_locks, cancel_calls, cancel_returns, feedback, settle_locks, settle_ends, follow, reread,
  mark_executing, request_cancel, read_cancel, on_accepted, on_planner_feedback, on_plan_done,
  lock_cancel, call_cancel, return_cancel, publish_feedback, lock_settle, end_settle, refused_by,
  refused_for, advance, move, after, always,
}

-- Whether a cancel call is on its way to the supervisor with this token.
unfoldable pub stop_pending : Token → List PendingCancel → Bool
stop_pending token [] = false
stop_pending token (c ∷ cs) = c.executing && c.token == token || stop_pending token cs

module _ {W : Type 0} where
  -- Whether the supervisor was sent a cancel with this token after it was handed the goal.
  unfoldable pub stop_sent : Token → List (Effect W) → Bool
  stop_sent token [] = false
  stop_sent token (sink_canceled u ∷ es) = u == token || stop_sent token es
  stop_sent token (handed _ ∷ es) = false
  stop_sent token (_ ∷ es) = stop_sent token es

  -- Whether the goal was marked executing.
  pub is_marked : Thread W → Bool
  is_marked (registering _) = true
  is_marked (handing _) = true
  is_marked rereading = true
  is_marked (recanceling _) = true
  is_marked finished = true
  is_marked _ = false

  pub sent : Goal W → List PendingCancel → List (Effect W) → Bool
  sent g cs es = stop_sent g.token es || stop_pending g.token cs

  -- Where on_plan_done has left the latched cancel of a goal.
  pub Kept : Thread W → Goal W → List PendingCancel → List (Effect W) → Type 0
  Kept (recanceling u) g cs es = u ≡ g.token
  Kept finished g cs es = g.cancel_requested ≡ true → sent g cs es ≡ true
  Kept _ g cs es = Unit

  pub Good : Thread W → Option (Goal W) → List PendingCancel → List (Effect W) → Type 0
  Good th none cs es = Unit
  Good th (some g) cs es =
      (g.token ≡ g.goal.token) × (is_marked th ≡ true → g.executing ≡ true) × Kept th g cs es

  abbrev pub Sure : Track W → Type 0
  Sure t = Good t.thread t.entry t.cancels t.log

  -- More cancels sent or pending only help.
  pub Good-grows :
      (th : Thread W) (en : Option (Goal W)) (cs cs' : List PendingCancel)
      (es es' : List (Effect W))
      → ((g : Goal W) → sent g cs es ≡ true → sent g cs' es' ≡ true)
      → Good th en cs es
      → Good th en cs' es'
  unfolding Good Kept
  Good-grows th none cs cs' es es' f h = tt
  Good-grows (recanceling u) (some g) cs cs' es es' f h = h
  Good-grows finished (some g) cs cs' es es' f h = (h.0, h.1, λ c. f g (h.2 c))
  Good-grows _ (some g) cs cs' es es' f h = h

  -- A thread that moves on, with what its new position asks of the latched cancel.
  pub Good-moves :
      (th th' : Thread W) (en : Option (Goal W)) (cs cs' : List PendingCancel)
      (es es' : List (Effect W))
      → (is_marked th' ≡ true → is_marked th ≡ true)
      → ((g : Goal W) → Kept th' g cs' es')
      → Good th en cs es
      → Good th' en cs' es'
  unfolding Good
  Good-moves th th' none cs cs' es es' f k h = tt
  Good-moves th th' (some g) cs cs' es es' f k h = (h.0, λ m. h.1 (f m), k g)

  unmarked-Kept :
      (th : Thread W) (g : Goal W) (cs : List PendingCancel) (es : List (Effect W))
      → is_marked th ≡ false
      → Kept th g cs es
  unfolding Kept is_marked
  unmarked-Kept (recanceling u) g cs es e = cc
  unmarked-Kept finished g cs es e = cc
  unmarked-Kept _ g cs es e = tt

  -- To a position before the goal is marked executing.
  pub to_unmarked :
      (th : Thread W) (t : Track W) (es : List (Effect W))
      → is_marked th ≡ false
      → Sure t
      → Good th t.entry t.cancels es
  to_unmarked th t es e h =
      Good-moves t.thread th t.entry t.cancels t.cancels t.log es (λ m. cc)
        (λ g. unmarked-Kept th g t.cancels es e) h
