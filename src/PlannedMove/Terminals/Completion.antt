-- ===== src/PlannedMove/Terminals/Completion.antt =====
-- planned_move_server.h: the planner's answer, the rest of on_plan_done and a settle, run from any
-- state of a goal.
use kinova_gen3_ros.Common.{
  ◌==◌, ℕ_eq, map, ◌++◌, replicate, ◌≢◌, ℕ, zero, suc, ◌≡◌, ◌≤◌, ◌+◌, ◌-◌, refl, ap, Bool, true,
  false, List, [], ◌∷◌, Option, none, some, length, arith, Bool-cases, if_yes, if_no, inl, inr,
}
use kinova_gen3_ros.Common.Text.{String}
use kinova_gen3_ros.Driver.{GoalId, TrajectoryResult}
use kinova_gen3_ros.Externals.{Double, Packages}
use kinova_gen3_ros.Mapping.Limits.{contact_rejection}
use kinova_gen3_ros.Planner.{Outcome}
use kinova_gen3_ros.PlannedMove.{Verdict, refuses, executes}
use kinova_gen3_ros.PlannedMove.Server.{
  Goal, Thread, unborn, planning, planned, settling, erasing, offering, marking, registering,
  handing, rereading, recanceling, finished, Track, Answers, Event, plan_done, advances,
  settle_locks, settle_ends, follow, reread, on_plan_done, lock_settle, end_settle, refused_by,
  refused_for, advance, move, after,
}
use kinova_gen3_ros.PlannedMove.Terminals.{
  terminals, Sound, tracked, undecided, is_unborn, is_erasing, started, owed, Shape, is_released,
}
use kinova_gen3_ros.PlannedMove.Terminals.Steps.{after-Sound, move-Sound}

module _ {W : Type 0} where
  -- The planner's answer, the rest of on_plan_done, and a settle by the supervisor.
  abbrev pub closing : Outcome W → Answers W → TrajectoryResult W → List (Event W)
  closing o a r = settle_ends ∷ settle_locks r ∷ replicate 8 (advances a) ++ (plan_done o ∷ [])

  -- At most this many more steps of on_plan_done bring the thread to its end.
  rank : Thread W → ℕ
  rank (planned _ _) = 8
  rank (offering _) = 7
  rank (marking _) = 6
  rank (registering _) = 5
  rank (handing _) = 4
  rank rereading = 3
  rank (settling _ _) = 2
  rank erasing = 1
  rank (recanceling _) = 1
  rank _ = 0

  is_planning : Thread W → Bool
  is_planning planning = true
  is_planning _ = false

  born : (th : Thread W) → th ≢ unborn → is_unborn th ≡ false
  unfolding is_unborn
  born unborn b = absurd (b refl)
  born _ b = refl

  -- The thread is past the plan.
  Planned : Thread W → Type 0
  unfolding is_planning is_unborn
  Planned th = (is_planning th ≡ false) × (is_unborn th ≡ false)

  follow-rank : (v : Verdict W) → (rank (follow v) ≤ 7) × Planned (follow v)
  unfolding rank Planned
  follow-rank (refuses code msg) = ground arith
  follow-rank (executes tg) = ground arith

  reread-rank : (en : Option (Goal W)) → (rank (reread en) ≤ 1) × Planned (reread en)
  unfolding rank Planned
  reread-rank none = ground arith
  reread-rank (some g) = elim (Bool-cases g.cancel_requested) [
    | inl y ↦ rw (if_yes _ _ y) (ground arith)
    | inr n ↦ rw (if_no _ _ n) (ground arith)
  ]

module _ (W : Type 0) where
  refused_for-rank :
      (why : Option String)
      → (rank (refused_for {W = W} why) ≤ 2) × Planned (refused_for {W = W} why)
  unfolding rank Planned
  refused_for-rank none = ground arith
  refused_for-rank (some why) = ground arith

module _ {W : Type 0} ⦃d : Double W⦄ ⦃k : Packages W⦄ (arm_joint_names : List String)
    (check_plan : Outcome W → Option String) where
  advance-rank :
      (a : Answers W) (th : Thread W) (t : Track W)
      → t.thread ≡ th
      → Planned th
      → (rank (advance arm_joint_names check_plan a th t).thread ≤ rank th - 1)
        × Planned (advance arm_joint_names check_plan a th t).thread
  unfolding advance refused_by rank Planned
  advance-rank a unborn t e p = ground arith
  advance-rank a planning t e p = ground arith
  advance-rank a (planned g o) t e p = follow-rank _
  advance-rank a (settling code msg) t e p = ground arith
  advance-rank a erasing t e p = ground arith
  advance-rank a (offering tg) t e p = elim (Bool-cases a.accepts) [
    | inl y ↦ rw (if_yes _ _ y) (ground arith)
    | inr n ↦ rw (if_no _ _ n) (ground (arith, refused_for-rank W (contact_rejection a.contact)))
  ]
  advance-rank a (marking tg) t e p = ground arith
  advance-rank a (registering tg) t e p = ground arith
  advance-rank a (handing tg) t e p = ground arith
  advance-rank a rereading t e p = ground (arith, reread-rank t.entry)
  advance-rank a (recanceling token) t e p = ground arith
  advance-rank a finished t e p = ground (arith, e)

  -- Any number of on_plan_done's steps, all under one answer of the supervisor.
  abbrev pub advanced : ℕ → Answers W → Track W → Track W
  advanced zero a t = t
  advanced (suc n) a t = move arm_joint_names check_plan (advances a) (advanced n a t)

  advanced-rank :
      (n : ℕ) (a : Answers W) (t : Track W)
      → Planned t.thread
      → (rank (advanced n a t).thread ≤ rank t.thread - n) × Planned (advanced n a t).thread
  unfolding move
  advanced-rank zero a t p = (ground arith, p)
  advanced-rank (suc n) a t p =
      let (r, q) = advanced-rank n a t p in
      let (r', q') = advance-rank a (advanced n a t).thread (advanced n a t) refl q in
      (omega (arith, r, r'), q')

  advanced-Sound : (n : ℕ) (a : Answers W) (t : Track W) → Sound t → Sound (advanced n a t)
  advanced-Sound zero a t h = h
  advanced-Sound (suc n) a t h =
      move-Sound arm_joint_names check_plan (advances a) _ (advanced-Sound n a t h)

  on_plan_done-Planned :
      (o : Outcome W) (th : Thread W) (en : Option (Goal W)) (t : Track W)
      → t.thread ≡ th
      → is_unborn th ≡ false
      → Planned (on_plan_done o th en t).thread
  unfolding on_plan_done Planned is_planning is_unborn
  on_plan_done-Planned o unborn en t e u = cc
  on_plan_done-Planned o planning none t e u = (refl, refl)
  on_plan_done-Planned o planning (some g) t e u = (refl, refl)
  on_plan_done-Planned o _ en t e u = ground (arith, e)

  rank-bound : (th : Thread W) → rank th ≤ 8
  unfolding rank
  rank-bound _ = ground arith

  -- At the end of on_plan_done, the terminal is made, under way, or owed by a settle.
  ended : (th : Thread W) → Planned th → rank th ≤ 0 → is_released th ≡ true
  unfolding Planned rank is_released is_planning is_unborn is_erasing undecided
  ended _ p r = ground (arith, p, r)

  lock_settle-pays :
      (r : _) (sup : Bool) (en : Option (Goal W)) (t : Track W)
      → t.supervised ≡ sup
      → t.entry ≡ en
      → Sound t
      → is_released t.thread ≡ true
      → terminals (lock_settle r sup en t).log + length (lock_settle r sup en t).settles ≡ 1
  unfolding lock_settle Shape owed started is_released tracked
  lock_settle-pays r true none t e f h d = ground (arith, e, f, h.conserved, d)
  lock_settle-pays r true (some g) t e f h d = ground (arith, e, f, h.conserved, d)
  lock_settle-pays r false none t e f h d = ground (arith, e, f, h.conserved, d)
  lock_settle-pays r false (some g) t e f h d = ground (arith, e, f, h.shape, d)

  end_settle-pays :
      (rs : _) (t : Track W)
      → t.settles ≡ rs
      → terminals t.log + length t.settles ≡ 1
      → terminals (end_settle rs t).log ≡ 1
  unfolding end_settle terminals
  end_settle-pays [] t e h = ground (arith, e, h)
  end_settle-pays (r ∷ rs) t e h = ground (arith, e, h)

  self : (id : GoalId) → (id == id) ≡ true
  self id = ground arith

  -- Steps of one goal, newest first.
  abbrev pub run : List (Event W) → Track W → Track W
  run [] t = t
  run (e ∷ es) t = move arm_joint_names check_plan e (run es t)

  after-run :
      (es : List (Event W)) (h : List (GoalId × Event W)) (id : GoalId)
      → after arm_joint_names check_plan (map (λ e. (id, e)) es ++ h) id
        ≡ run es (after arm_joint_names check_plan h id)
  unfolding after
  after-run [] h id = refl
  after-run (e ∷ es) h id =
      rw (if_yes _ _ (self id)) (ap (move arm_joint_names check_plan e) (after-run es h id))

  run-advances :
      (n : ℕ) (a : Answers W) (t : Track W) → run (replicate n (advances a)) t ≡ advanced n a t
  run-advances zero a t = refl
  run-advances (suc n) a t = ap (move arm_joint_names check_plan (advances a)) (run-advances n a t)

  pub closing-pays :
      (o : Outcome W) (a : Answers W) (r : TrajectoryResult W) (t : Track W)
      → Sound t
      → is_unborn t.thread ≡ false
      → terminals (run (closing o a r) t).log ≡ 1
  unfolding move
  closing-pays o a r t h b = end_settle-pays _ _ refl (
      lock_settle-pays r _ _ v refl refl
        (advanced-Sound 8 a u (move-Sound arm_joint_names check_plan (plan_done o) t h))
        (ended v.thread q (omega (arith, few, rank-bound u.thread))))
    where
      u : Track W
      u = on_plan_done o t.thread t.entry t

      v : Track W
      v = advanced 8 a u

      p : Planned u.thread
      p = on_plan_done-Planned o t.thread t.entry t refl b

      few : rank v.thread ≤ rank u.thread - 8
      few = (advanced-rank 8 a u p).0

      q : Planned v.thread
      q = (advanced-rank 8 a u p).1

  -- No goal is left without its terminal: after any history in which a goal was accepted, the
  -- planner's answer (ignored when it was given before), eight steps of on_plan_done and one settle
  -- by the supervisor (ignored when it does not own the goal, or has settled it) leave the goal's
  -- handle terminaled exactly once, whatever the answers are.
  pub goal_terminals_once :
      (h : List (GoalId × Event W)) (id : GoalId) (o : Outcome W) (a : Answers W)
      (r : TrajectoryResult W)
      → (after arm_joint_names check_plan h id).thread ≢ unborn
      → terminals
          (after arm_joint_names check_plan (map (λ e. (id, e)) (closing o a r) ++ h) id).log
        ≡ 1
  unfolding is_unborn
  goal_terminals_once h id o a r b =
      rw (after-run (closing o a r) h id)
        (closing-pays o a r _ (after-Sound arm_joint_names check_plan h id) (born _ b))
