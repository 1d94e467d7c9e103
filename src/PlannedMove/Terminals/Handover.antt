-- ===== src/PlannedMove/Terminals/Handover.antt =====
-- planned_move_server.h: a goal between the router and the supervisor, seen from its track. `owner`
-- says that the router has an owner for the goal, `held` that the supervisor has been handed it and
-- has not settled it, `arriving` that its result is on the way to the server.
pub mod Moves
pub mod Births
use kinova_gen3_ros.Common.{
  ℕ, zero, suc, ◌≡◌, refl, ap, sym, ◌∙◌, Bool, true, false, not, ◌&&◌, ◌||◌, List, [], ◌∷◌, Option,
  none, some, length, arith, Bool-cases, if_yes, if_no, inl, inr,
}
use kinova_gen3_ros.Common.Text.{String}
use kinova_gen3_ros.Driver.{TrajectoryResult}
use kinova_gen3_ros.Externals.{Double, Packages}
use kinova_gen3_ros.Mapping.Limits.{contact_rejection}
use kinova_gen3_ros.Planner.{Outcome}
use kinova_gen3_ros.PlannedMove.{MoveGoal, Verdict, refuses, executes}
use kinova_gen3_ros.PlannedMove.Server.{
  Goal, Thread, unborn, planning, planned, settling, erasing, offering, marking, registering,
  handing, rereading, recanceling, finished, PendingCancel, Track, Answers, Event, accepts,
  planner_feedback, plan_done, advances, cancel_locks, cancel_calls, cancel_returns, feedback,
  settle_locks, settle_ends, follow, reread, fresh, on_accepted, on_planner_feedback, on_plan_done,
  lock_cancel, call_cancel, return_cancel, publish_feedback, lock_settle, end_settle, refused_by,
  refused_for, advance, move,
}
use kinova_gen3_ros.PlannedMove.Terminals.{
  terminals, Sound, tracked, undecided, is_unborn, is_erasing, started, owed, Shape, is_released,
  tracked-request_cancel, tracked-mark_executing,
}

pub or-false : (b : Bool) → (b || false) ≡ b
or-false true = refl
or-false false = refl

module _ {W : Type 0} where
  -- The steps that the server's own threads and ROS make; the others are the supervisor's calls.
  unfoldable pub is_own : Event W → Bool
  is_own (accepts g) = false
  is_own feedback = false
  is_own (settle_locks r) = false
  is_own _ = true

  -- The step calls router_.register_owner.
  unfoldable pub registers_now : Event W → Thread W → Bool
  registers_now (advances a) (registering tg) = true
  registers_now _ _ = false

  -- The step calls sink_->on_trajectory_accepted.
  unfoldable pub hands_now : Event W → Thread W → Bool
  hands_now (advances a) (handing tg) = true
  hands_now _ _ = false

  pub is_handing : Thread W → Bool
  is_handing (handing tg) = true
  is_handing _ = false

  pub record Linked (t : Track W) (owner held arriving : Bool) : Type 0 where
    pub before :
        t.supervised ≡ false → (owner ≡ is_handing t.thread) × (held ≡ false) × (arriving ≡ false)
    pub after :
        t.supervised ≡ true
        → (owner ≡ held)
          × (held ≡ true → arriving ≡ false)
          × (tracked t.entry ≡ true → (held || arriving) ≡ true)

  -- A step that keeps what the link reads.
  pub same-Linked :
      (t u : Track W) (o h a : Bool)
      → u.supervised ≡ t.supervised
      → is_handing u.thread ≡ is_handing t.thread
      → tracked u.entry ≡ tracked t.entry
      → Linked t o h a
      → Linked u o h a
  same-Linked t u o h a sup th en l = record {
    before = ground (arith, sup, th, l.before);
    after = ground (arith, sup, en, l.after);
  }

  pub on_planner_feedback-Linked :
      (m : String) (en : Option (Goal W)) (t : Track W) (o h a : Bool)
      → Linked t o h a
      → Linked (on_planner_feedback m en t) o h a
  unfolding on_planner_feedback
  on_planner_feedback-Linked m none t o h a l = l
  on_planner_feedback-Linked m (some g) t o h a l = same-Linked t _ o h a refl refl refl l

  pub on_plan_done-Linked :
      (p : Outcome W) (th : Thread W) (en : Option (Goal W)) (t : Track W) (o h a : Bool)
      → t.thread ≡ th
      → Linked t o h a
      → Linked (on_plan_done p th en t) o h a
  unfolding on_plan_done is_handing
  on_plan_done-Linked p planning none t o h a e l =
      same-Linked t _ o h a refl (ground (arith, e)) refl l
  on_plan_done-Linked p planning (some g) t o h a e l =
      same-Linked t _ o h a refl (ground (arith, e)) refl l
  on_plan_done-Linked p _ en t o h a e l = l

  pub lock_cancel-Linked :
      (t : Track W) (o h a : Bool) → Linked t o h a → Linked (lock_cancel t) o h a
  unfolding lock_cancel
  lock_cancel-Linked t o h a l = same-Linked t _ o h a refl refl (tracked-request_cancel t.entry) l

  pub call_cancel-Linked :
      (cs : List PendingCancel) (t : Track W) (o h a : Bool)
      → Linked t o h a
      → Linked (call_cancel cs t) o h a
  unfolding call_cancel
  call_cancel-Linked [] t o h a l = l
  call_cancel-Linked (c ∷ cs) t o h a l = same-Linked t _ o h a refl refl refl l

  pub return_cancel-Linked :
      (n : ℕ) (t : Track W) (o h a : Bool) → Linked t o h a → Linked (return_cancel n t) o h a
  unfolding return_cancel
  return_cancel-Linked zero t o h a l = l
  return_cancel-Linked (suc n) t o h a l = same-Linked t _ o h a refl refl refl l

  pub end_settle-Linked :
      (rs : List (TrajectoryResult W)) (t : Track W) (o h a : Bool)
      → Linked t o h a
      → Linked (end_settle rs t) o h a
  unfolding end_settle
  end_settle-Linked [] t o h a l = l
  end_settle-Linked (r ∷ rs) t o h a l = same-Linked t _ o h a refl refl refl l

  follow-handing : (v : Verdict W) → is_handing (follow v) ≡ false
  unfolding is_handing
  follow-handing (refuses code msg) = refl
  follow-handing (executes tg) = refl

  reread-handing : (en : Option (Goal W)) → is_handing (reread en) ≡ false
  unfolding is_handing
  reread-handing none = refl
  reread-handing (some g) = elim (Bool-cases g.cancel_requested) [
    | inl y ↦ rw (if_yes _ _ y) refl
    | inr n ↦ rw (if_no _ _ n) refl
  ]

module _ (W : Type 0) where
  refused_for-handing : (why : Option String) → is_handing (refused_for {W = W} why) ≡ false
  unfolding is_handing
  refused_for-handing none = refl
  refused_for-handing (some why) = refl

module _ {W : Type 0} ⦃d : Double W⦄ ⦃k : Packages W⦄ (arm_joint_names : List String)
    (check_plan : Outcome W → Option String) where
  pub advance-Linked :
      (x : Answers W) (th : Thread W) (t : Track W) (o h a : Bool)
      → t.thread ≡ th
      → Sound t
      → Linked t o h a
      → Linked
          (advance arm_joint_names check_plan x th t)
          (o || registers_now (advances x) th)
          (h || hands_now (advances x) th)
          a
  unfolding advance refused_by is_handing registers_now hands_now Shape undecided is_erasing tracked
  advance-Linked x (planned g v) t o h a e s l =
      rw (or-false o, or-false h)
        (same-Linked t _ o h a refl (follow-handing _ ∙ sym (ap is_handing e)) refl l)
  advance-Linked x (settling code msg) t o h a e s l =
      rw (or-false o, or-false h) (same-Linked t _ o h a refl (sym (ap is_handing e)) refl l)
  advance-Linked x erasing t o h a e s l = record {
    before = ground (arith, e, l.before);
    after = ground (arith, e, s.shape, l.after);
  }
  advance-Linked x (offering tg) t o h a e s l =
      rw (or-false o, or-false h)
        (same-Linked t _ o h a refl
          (elim (Bool-cases x.accepts) [
            | inl y ↦ rw (if_yes _ _ y) (sym (ap is_handing e))
            | inr n ↦
                rw (if_no _ _ n)
                  (refused_for-handing W (contact_rejection x.contact) ∙ sym (ap is_handing e))
          ])
          refl l)
  advance-Linked x (marking tg) t o h a e s l =
      rw (or-false o, or-false h)
        (same-Linked t _ o h a refl (sym (ap is_handing e)) (tracked-mark_executing t.entry) l)
  advance-Linked x (registering tg) t o h a e s l = record {
    before = ground (arith, e, l.before);
    after = ground (arith, e, s.shape, l.after);
  }
  advance-Linked x (handing tg) t o h a e s l = record {
    before = λ f. absurd (cc f);
    after = ground (arith, e, s.shape, l.before);
  }
  advance-Linked x rereading t o h a e s l =
      rw (or-false o, or-false h)
        (same-Linked t _ o h a refl (reread-handing t.entry ∙ sym (ap is_handing e)) refl l)
  advance-Linked x (recanceling token) t o h a e s l =
      rw (or-false o, or-false h) (same-Linked t _ o h a refl (sym (ap is_handing e)) refl l)
  advance-Linked x unborn t o h a e s l = rw (or-false o, or-false h) l
  advance-Linked x planning t o h a e s l = rw (or-false o, or-false h) l
  advance-Linked x finished t o h a e s l = rw (or-false o, or-false h) l
