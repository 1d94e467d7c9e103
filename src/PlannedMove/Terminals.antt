-- ===== src/PlannedMove/Terminals.antt =====
-- planned_move_server.h: who still owes a goal its terminal. Soundness of a goal's track counts the
-- terminals made, the settles under way and the one still owed.
pub mod Steps
pub mod Completion
pub mod Handover
pub mod Legality
use kinova_gen3_ros.Common.{
  ℕ, zero, suc, ◌≡◌, ◌≤◌, ◌+◌, ◌-◌, refl, sym, ap, ◌∙◌, Bool, true, false, not, ◌&&◌, ◌||◌, List,
  [], ◌∷◌, Option, none, some, length, arith, Bool-cases, Option-cases, if_yes, if_no, inl, inr,
  if◌then◌else◌,
}
use kinova_gen3_ros.Common.Text.{String}
use kinova_gen3_ros.Driver.{GoalId}
use kinova_gen3_ros.Externals.{Double, Packages}
use kinova_gen3_ros.Mapping.Limits.{contact_rejection}
use kinova_gen3_ros.Planner.{Outcome}
use kinova_gen3_ros.PlannedMove.{Verdict, refuses, executes}
use kinova_gen3_ros.PlannedMove.Server.{
  Goal, Effect, planning_feedback, executing_feedback, offered, registered, handed, sink_canceled,
  planner_canceled, terminaled, Thread, unborn, planning, planned, settling, erasing, offering,
  marking, registering, handing, rereading, recanceling, finished, Track, Answers, Event, accepts,
  planner_feedback, plan_done, advances, cancel_locks, cancel_calls, cancel_returns, feedback,
  settle_locks, settle_ends, fresh, follow, reread, mark_executing, request_cancel, on_accepted,
  on_planner_feedback, on_plan_done, lock_cancel, call_cancel, return_cancel, publish_feedback,
  lock_settle, end_settle, refused_by, refused_for, advance, move, after, always,
}

module _ {W : Type 0} where
  unfoldable pub terminals : List (Effect W) → ℕ
  terminals [] = 0
  terminals (terminaled _ _ _ ∷ es) = 1 + terminals es
  terminals (_ ∷ es) = terminals es

  pub tracked : Option (Goal W) → Bool
  tracked none = false
  tracked (some _) = true

  -- Whether a thread stands before the goal's fate is decided.
  pub undecided : Thread W → Bool
  undecided unborn = false
  undecided erasing = false
  undecided rereading = false
  undecided (recanceling _) = false
  undecided finished = false
  undecided _ = true

  pub is_unborn : Thread W → Bool
  is_unborn unborn = true
  is_unborn _ = false

  pub is_erasing : Thread W → Bool
  is_erasing erasing = true
  is_erasing _ = false

  pub started : Thread W → ℕ
  unfolding is_unborn
  started th = if is_unborn th then 0 else 1

  -- Terminals still to be made by the thread, or by a settle that has not begun.
  pub owed : Thread W → Option (Goal W) → ℕ
  unfolding undecided tracked is_erasing
  owed th en = if undecided th then 1 else if is_erasing th then 0 else if tracked en then 1 else 0

  -- Which entries and owners a thread's position allows.
  pub Shape : Thread W → Option (Goal W) → Bool → Type 0
  unfolding undecided is_erasing tracked is_unborn
  Shape th en supervised =
      ((undecided th || is_erasing th) ≡ true → (tracked en ≡ true) × (supervised ≡ false))
      × (is_unborn th ≡ true → (tracked en ≡ false) × (supervised ≡ false))
      × (supervised ≡ false → (undecided th || is_erasing th) ≡ false → tracked en ≡ false)

  pub record Sound (t : Track W) : Type 0 where
    pub shape : Shape t.thread t.entry t.supervised
    pub conserved : terminals t.log + length t.settles + owed t.thread t.entry ≡ started t.thread

  pub undecided-born : (th : Thread W) → undecided th ≡ true → is_unborn th ≡ false
  unfolding undecided is_unborn
  undecided-born unborn e = cc
  undecided-born _ e = refl

  -- A step that keeps what soundness reads.
  pub same-Sound :
      (t u : Track W)
      → Sound t
      → u.thread ≡ t.thread
      → u.supervised ≡ t.supervised
      → tracked u.entry ≡ tracked t.entry
      → u.settles ≡ t.settles
      → terminals u.log ≡ terminals t.log
      → Sound u
  unfolding Shape owed
  same-Sound t u h th sup en se lo = record {
    shape = ground (arith, th, sup, en, h.shape);
    conserved = ground (arith, th, sup, en, se, lo, h.conserved);
  }

  pub tracked-request_cancel : (en : Option (Goal W)) → tracked (request_cancel en) ≡ tracked en
  unfolding tracked
  tracked-request_cancel none = refl
  tracked-request_cancel (some g) = refl

  pub tracked-mark_executing : (en : Option (Goal W)) → tracked (mark_executing en) ≡ tracked en
  unfolding tracked
  tracked-mark_executing none = refl
  tracked-mark_executing (some g) = refl

  -- From one undecided position to another.
  pub undecided-Sound :
      (t u : Track W)
      → Sound t
      → undecided t.thread ≡ true
      → undecided u.thread ≡ true
      → u.supervised ≡ t.supervised
      → tracked u.entry ≡ tracked t.entry
      → u.settles ≡ t.settles
      → terminals u.log ≡ terminals t.log
      → Sound u
  unfolding Shape owed started
  undecided-Sound t u h a b sup en se lo = record {
    shape =
        ground (arith, a, b, sup, en, h.shape, undecided-born t.thread, undecided-born u.thread);
    conserved = ground (
      arith,
      a,
      b,
      sup,
      en,
      se,
      lo,
      h.shape,
      h.conserved,
      undecided-born t.thread,
      undecided-born u.thread,
    );
  }

  pub follow-undecided : (v : Verdict W) → undecided (follow v) ≡ true
  unfolding undecided
  follow-undecided (refuses code msg) = refl
  follow-undecided (executes tg) = refl

  -- A position at which only the entry says whether a terminal is owed.
  pub is_released : Thread W → Bool
  unfolding undecided is_erasing is_unborn
  is_released th = not (undecided th) && not (is_erasing th) && not (is_unborn th)

  pub reread-released : (en : Option (Goal W)) → is_released (reread en) ≡ true
  unfolding is_released
  reread-released none = refl
  reread-released (some g) = elim (Bool-cases g.cancel_requested) [
    | inl y ↦ rw (if_yes _ _ y) refl
    | inr n ↦ rw (if_no _ _ n) refl
  ]

  pub released-Sound :
      (t u : Track W)
      → Sound t
      → is_released t.thread ≡ true
      → is_released u.thread ≡ true
      → u.supervised ≡ t.supervised
      → u.entry ≡ t.entry
      → u.settles ≡ t.settles
      → terminals u.log ≡ terminals t.log
      → Sound u
  unfolding Shape owed started is_released
  released-Sound t u h a b sup en se lo = record {
    shape = ground (arith, a, b, sup, en, h.shape);
    conserved = ground (arith, a, b, sup, en, se, lo, h.shape, h.conserved);
  }

module _ (W : Type 0) where
  pub refused_for-undecided : (why : Option String) → undecided (refused_for {W = W} why) ≡ true
  unfolding undecided
  refused_for-undecided none = refl
  refused_for-undecided (some why) = refl
