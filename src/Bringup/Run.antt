-- ===== src/Bringup/Run.antt =====
-- main in bringup_node.cpp from `sup.start()` to its end: the drain thread, the link's run on the
-- main thread, and the order in which everything is stopped. The drain's rounds are its clock: what
-- g_stop says, what the sample ring holds and what time it is are functions of the round.
pub mod Ends
use kinova_gen3_ros.Common.{
  ℕ, zero, suc, ◌+◌, Bool, true, false, ◌||◌, ◌&&◌, List, [], ◌∷◌, ◌++◌, map, Option, none, some,
  leb, if◌then◌else◌,
}
use mathlib.Core.Option.{map as map_option}
use kinova_gen3_ros.Common.Results.{Result, returns, throws}
use kinova_gen3_ros.Bringup.Startup.{run_status}

-- What the drain thread does with its sink and its log.
pub data Drained (S : Type 0) : Type 0 where
  consumed : S → Drained S
  logged : ℕ → Drained S  -- a line, at that time in ms
  logged_final : Drained S

-- What a round of the drain thread meets: the samples that its pops find until one fails, and the
-- steady clock in ms after them.
pub record Round (S : Type 0) : Type 0 where
  pub popped : List S
  pub now_ms : ℕ

-- The calls that main makes once the node is up, and those that end it.
pub data Call : Type 0 where
  supervisor_started spin_started drain_started stop_stored supervisor_stopped : Call
  transport_shut_down executor_canceled spin_joined drain_joined rclcpp_shut_down : Call

-- `link_run` is how the link's run ends: it returns, or throws a std::logic_error. `ended` is the
-- drain's next round then, and `signaled` whether a signal has set g_stop when a round looks at it.
pub record Running (S : Type 0) : Type 0 where
  pub link_run : Result (Unit {0})
  pub ended : ℕ
  pub signaled : ℕ → Bool
  pub rounds : ℕ → Round S
  pub started_ms : ℕ

pub record Ending (S : Type 0) : Type 0 where
  pub calls : List Call  -- in order
  pub drained : List (Drained S)  -- in order
  pub status : ℕ

-- `now - last >= 5 s`
abbrev pub is_due : ℕ → ℕ → Bool
is_due now last = leb (last + 5000) now

-- Whether the link's run ended in a configuration error.
abbrev pub threw : Result (Unit {0}) → Bool
threw (returns _) = false
threw (throws why) = true

abbrev pub on_error : Result (Unit {0}) → List Call
on_error (returns _) = []
on_error (throws why) = stop_stored ∷ []

module _ {S : Type 0} where
  -- `while (ring.pop(s)) sink.consume(s);`
  unfoldable pub consume_all : List S → List (Drained S)
  consume_all samples = map consumed samples

  -- The drain thread's loop; `none` when the fuel runs out.
  unfoldable pub drain_loop : ℕ → (ℕ → Bool) → (ℕ → Round S) → ℕ → ℕ → Option (List (Drained S))
  unfolding consume_all
  drain_loop zero stop rounds i last = none
  drain_loop (suc fuel) stop rounds i last =
      let due = is_due (rounds i).now_ms last in
      let round =
        consume_all (rounds i).popped ++ (if due then logged (rounds i).now_ms ∷ [] else []) in
      let rest =
        map_option (λ more. round ++ more)
          (drain_loop fuel stop rounds (suc i) (if due then (rounds i).now_ms else last)) in
      if stop i then some (consume_all (rounds i).popped ++ (logged_final ∷ [])) else rest

  -- g_stop as the drain reads it: set by a signal, or by main after a configuration error.
  unfoldable pub g_stop : Running S → ℕ → Bool
  g_stop r i = r.signaled i || (threw r.link_run && leb r.ended i)

  -- The rest of main; `none` when the drain thread does not end within the fuel, so that its join
  -- does not return.
  unfoldable pub run : ℕ → Running S → Option (Ending S)
  unfolding drain_loop g_stop
  run fuel r =
      map_option
        (λ drained. record {
          calls =
              (supervisor_started ∷ spin_started ∷ drain_started ∷ [])
              ++ (on_error r.link_run
                  ++ (supervisor_stopped ∷ transport_shut_down ∷ executor_canceled ∷ spin_joined
                      ∷ drain_joined ∷ rclcpp_shut_down ∷ []));
          drained = drained;
          status = run_status r.link_run;
        })
        (drain_loop fuel (g_stop r) r.rounds 0 r.started_ms)
