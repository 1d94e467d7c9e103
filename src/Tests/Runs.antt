-- ===== src/Tests/Runs.antt =====
-- Witness: a run of the node that a configuration error ends.
use kinova_gen3_ros.Common.{ℕ, ◌+◌, ◌*◌, ◌≡◌, ◌↔◌, false, [], ◌∷◌, some, arith}
use kinova_gen3_ros.Common.Results.{returns, throws}
use kinova_gen3_ros.Bringup.Run.{Running, Ending, run, g_stop}
use kinova_gen3_ros.Bringup.Run.Ends.{DrainEnds, run_ends}

-- No signal comes; the link refuses the arm when the drain has made three rounds of two samples.
abbrev refused_arm : Running ℕ
refused_arm = record {
  link_run = throws "unknown arm";
  ended = 3;
  signaled = λ i. false;
  rounds = λ i. record { popped = 2 * i ∷ (2 * i + 1) ∷ []; now_ms = 4000 * i };
  started_ms = 0;
}

run_ends_example :
    (n : ℕ) × (e : Ending ℕ) × (run 4 refused_arm ≡ some e)
    × ((e.status ≡ 0) ↔ (refused_arm.link_run ≡ returns tt))
    × DrainEnds (g_stop refused_arm) refused_arm.rounds 0 0 3 n e.drained
run_ends_example = run_ends refused_arm 4 (λ e. absurd (cc e)) (omega arith)
