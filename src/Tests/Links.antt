-- ===== src/Tests/Links.antt =====
-- The theorems on the link and the speed scale, at concrete inputs.
use kinova_gen3_ros.Common.{
  ℕ, ◌+◌, ◌*◌, ◌≡◌, refl, true, false, List, [], ◌∷◌, none, some, ltb, leb, ℕ_eq, string_eq,
  if◌then◌else◌, arith,
}
use kinova_gen3_ros.Common.Text.{String}
use kinova_gen3_ros.Common.Results.{returns}
use kinova_gen3_ros.Link.{
  LinkState, running, faulted, LinkStatus, Call, TriggerResponse, on_clear, answer, wait,
  still_waiting, because,
}
use kinova_gen3_ros.Link.Clear.{IsTicking, Answered, clear_answers}
use kinova_gen3_ros.Speed.{SpeedSink, SpeedScaleParam, start_scale, scale_name}
use kinova_gen3_ros.Speed.Applied as Applied
use kinova_gen3_ros.Speed.Applied.{after_sets, value_is_core}
use kinova_gen3_ros.Speed.Applied.Parameter.{Stored, AllSingle, after_stored, parameter_is_core}
use kinova_gen3_ros.Tests.{thousandths, gen3}

-- A clear that resolves in the third round.
abbrev status_of : LinkState → ℕ → LinkStatus
status_of state clears = record {
  state = state;
  reason = "";
  faults = 1;
  reconnects = 0;
  clears_done = clears;
}

abbrev clearing : Call
clearing = record {
  contact = none;
  before = 0;
  requested = true;
  refused_status = status_of faulted 0;
  start_ms = 1000;
  rounds = λ i. record {
    status = if ltb i 2 then status_of faulted 0 else status_of running 1;
    stop = false;
    now_ms = 1000 + 20 * i;
  };
  stop_after = false;
}

clearing-IsTicking : IsTicking clearing
clearing-IsTicking = record { starts = omega arith; ticks = λ i. omega arith }

clear_answers_example :
    (res : TriggerResponse) × (on_clear (λ s. "state") clearing ≡ some res)
    × Answered (λ s. "state") clearing res
clear_answers_example = clear_answers (λ s. "state") clearing clearing-IsTicking

clear_runs :
    on_clear (λ s. "running") clearing ≡ some (record { success = true; message = "running" })
unfolding on_clear answer wait still_waiting because
clear_runs = refl

-- A core that accepts scales up to 1, started at 1 and set twice.
abbrev pub speed_sink : SpeedSink ℕ ℕ
speed_sink = record {
  set_speed_override = λ s x.
      if leb x 1000
      then (x, record { accepted = true; message = "" })
      else (s, record { accepted = false; message = "too fast" });
}

speed_sink-IsHonest : Applied.IsHonest speed_sink (λ s. s)
speed_sink-IsHonest = record {
  accepted_runs = λ s x e. ground (arith, e);
  refused_kept = λ s x e. ground (arith, e);
}

abbrev full_speed : SpeedScaleParam ℕ ℕ
full_speed = record { value = 1000; core = 1000 }

full_speed_started : start_scale speed_sink 1000 0 ≡ returns full_speed
unfolding start_scale
full_speed_started = refl

abbrev sets : List (List (String × ℕ))
sets = ((scale_name, 2000) ∷ []) ∷ ((scale_name, 500) ∷ ("other", 1) ∷ []) ∷ []

value_is_core_example :
    (after_sets speed_sink full_speed sets).value ≡ (after_sets speed_sink full_speed sets).core
value_is_core_example =
    value_is_core speed_sink (λ s. s) speed_sink-IsHonest 1000 0 full_speed full_speed_started sets

abbrev stored_speed : Stored ℕ ℕ
stored_speed = record { parameter = 1000; server = full_speed }

sets-AllSingle : AllSingle sets
sets-AllSingle = (tt, ((refl, tt), tt))

parameter_is_core_example :
    (after_stored speed_sink stored_speed sets).parameter
    ≡ (after_stored speed_sink stored_speed sets).server.core
parameter_is_core_example =
    parameter_is_core speed_sink (λ s. s) speed_sink-IsHonest 1000 0 full_speed full_speed_started
      sets sets-AllSingle
