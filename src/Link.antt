-- ===== src/Link.antt =====
-- link_server.cpp: the "Arm link" page and /clear_faults. Core's ArmLink and the clock are what the
-- handler reads of them, in order: `Call` holds those reads.
pub mod Clear
use kinova_gen3_ros.Common.{
  ℕ, zero, suc, ◌+◌, ◌*◌, Bool, true, false, not, ◌&&◌, List, [], ◌∷◌, Option, none, some, ltb,
  ◌==◌, ℕ_eq, string_eq, if◌then◌else◌,
}
use kinova_gen3_ros.Common.Text.{String, ◌++◌, to_string}
use kinova_gen3_ros.Diagnostics.{Page, ok, error, stale, text, count}

pub data LinkState : Type 0 where
  running faulted connecting : LinkState

pub record LinkStatus : Type 0 where
  pub state : LinkState
  pub reason : String
  pub faults : ℕ
  pub reconnects : ℕ
  pub clears_done : ℕ

-- std_srvs/Trigger::Response
pub record TriggerResponse : Type 0 where
  pub success : Bool
  pub message : String

-- `s.reason.empty() ? "" : ": " + s.reason`
unfoldable pub because : String → String
because reason = if reason == "" then "" else ": " ++ reason

-- `state_text` is kinova::to_string of a link state.
module _ (state_text : LinkState → String) where
  abbrev pub summary : {W : Type 0} → LinkState → LinkStatus → String → Page W
  summary running s arm = record { level = ok; message = "running"; values = [] }
  summary faulted s arm = record {
    level = error;
    message = "faulted, waiting for /clear_faults: " ++ s.reason;
    values = [];
  }
  summary connecting s arm = record {
    level = stale;
    message = "waiting for the arm at " ++ (arm ++ because s.reason);
    values = [];
  }

  unfoldable pub link_diagnostics : {W : Type 0} → LinkStatus → String → Page W
  link_diagnostics s arm = record (summary s.state s arm) {
    values =
        ("link_state", text (state_text s.state))
        ∷ ("reason", text s.reason)
        ∷ ("faults", count s.faults)
        ∷ ("reconnects", count s.reconnects)
        ∷ [];
  }

-- What one evaluation of the loop's condition reads.
pub record Round : Type 0 where
  pub status : LinkStatus
  pub stop : Bool
  pub now_ms : ℕ

-- What a call of /clear_faults meets: `clear_contact_` (`none` when it is empty) with its result,
-- `clears_done` before the request, whether `request_clear` took it, the status that a refusal
-- names, the clock at the start of the wait, the rounds of the loop, and the stop flag after it.
pub record Call : Type 0 where
  pub contact : Option Bool
  pub before : ℕ
  pub requested : Bool
  pub refused_status : LinkStatus
  pub start_ms : ℕ
  pub rounds : ℕ → Round
  pub stop_after : Bool

abbrev pub contact_cleared : Option Bool → Bool
contact_cleared none = false
contact_cleared (some cleared) = cleared

abbrev pub is_running : LinkState → Bool
is_running running = true
is_running _ = false

-- kClearWait, in seconds.
abbrev pub clear_wait : ℕ
clear_wait = 10

-- The condition of the loop.
unfoldable pub still_waiting : ℕ → ℕ → Round → Bool
still_waiting before deadline r =
    r.status.clears_done == before && not r.stop && ltb r.now_ms deadline

-- The loop from round `i` on, and the status it leaves with; `none` when the fuel is used up.
unfoldable pub wait : ℕ → ℕ → ℕ → (ℕ → Round) → ℕ → Option LinkStatus
wait zero before deadline rounds i = none
wait (suc fuel) before deadline rounds i =
    let rest = wait fuel before deadline rounds (suc i) in
    if still_waiting before deadline (rounds i) then rest else some (rounds i).status

-- One round for each 20 ms of the wait, and the first.
abbrev pub max_rounds : ℕ
max_rounds = 501

module _ (state_text : LinkState → String) where
  outcome_text : Call → LinkStatus → String
  outcome_text c s =
      if s.clears_done == c.before && c.stop_after
      then "stopping"
      else if s.clears_done == c.before
      then "clear requested; no outcome within " ++ (to_string clear_wait ++ " s")
      else state_text s.state ++ because s.reason

  -- The answer after the loop, which left with this status.
  unfoldable pub answer : Call → LinkStatus → TriggerResponse
  unfolding outcome_text
  answer c s = record {
    success = is_running s.state;
    message =
        if contact_cleared c.contact
        then "contact stop cleared" ++ ("; " ++ outcome_text c s)
        else outcome_text c s;
  }

  abbrev pub answer_wait : Call → Option LinkStatus → Option TriggerResponse
  answer_wait c none = none
  answer_wait c (some s) = some (answer c s)

  -- LinkServer::on_clear
  unfoldable pub on_clear : Call → Option TriggerResponse
  on_clear c =
      let waited =
        answer_wait c (wait max_rounds c.before (c.start_ms + clear_wait * 1000) c.rounds 0) in
      if not c.requested
      then if contact_cleared c.contact
        then some (record { success = true; message = "contact stop cleared" })
        else some (record {
          success = false;
          message = "not faulted (" ++ (state_text c.refused_status.state ++ ")");
        })
      else waited
