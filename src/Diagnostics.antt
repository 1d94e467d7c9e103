-- ===== src/Diagnostics.antt =====
-- The entries of a diagnostics page: diagnostic_updater's DiagnosticStatusWrapper, as a server fills
-- it. `summary` replaces the level and the message; `add` appends a key with the value it was given,
-- which the library prints.
use kinova_gen3_ros.Common.{ℕ, Bool, List}
use kinova_gen3_ros.Common.Text.{String}
use kinova_gen3_ros.Common.Int.{ℤ}

pub data Level : Type 0 where
  ok warn error stale : Level

pub data Value (W : Type 0) : Type 0 where
  text : String → Value W
  number : W → Value W
  count : ℕ → Value W
  integer : ℤ → Value W
  flag : Bool → Value W

pub record Page (W : Type 0) : Type 0 where
  pub level : Level
  pub message : String
  pub values : List (String × Value W)
