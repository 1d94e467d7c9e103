-- ===== src/Stream/Threads/Alone.antt =====
-- A session handler that nothing runs beside does what the handler as one step does.
use kinova_gen3_ros.Common.{
  ◌≡◌, refl, Bool, true, false, not, Option, none, some, Bool-cases, inl, inr, if◌then◌else◌,
}
use kinova_gen3_ros.Common.Text.{String}
use kinova_gen3_ros.Driver.{Token}
use kinova_gen3_ros.Externals.{Packages}
use kinova_gen3_ros.Mapping.Gains.{mode_gains_rejection}
use kinova_gen3_ros.Stream.{
  ControllerRow, registry, find_row, available, StreamServer, StreamSink, OpenStreamRequest,
  OpenStreamResponse, status_message, publish_locked, publish_status_if_changed, on_open, on_close,
  open_found, check_gains, gains_mode, repeats,
}
use kinova_gen3_ros.Stream.Threads.{
  Poll, asks, Point, reports, Threads, opens, closes, advances, fires, polls, enter_row, poll_step,
  point_step, enter_open, enter_found, enter_close, step,
}

module _ {S W : Type 0} ⦃k : Packages W⦄ (w_eq : W → W → Bool) (sink : StreamSink S W) where
  -- The threads, by the server and where the two stand.
  abbrev pub at : StreamServer S W → Option (Point W) → Option (Poll W) → Threads S W
  at v session timer = record { server = v; session = session; timer = timer }

  abbrev pub three : Threads S W → Threads S W
  three t = step w_eq sink advances (step w_eq sink advances (step w_eq sink advances t))

  reports_alone :
      (v : StreamServer S W) (p : Option (Poll W))
      → three (at v (some (reports asks)) p) ≡ at (publish_status_if_changed w_eq sink v) none p
  unfolding step point_step poll_step publish_status_if_changed publish_locked
  reports_alone v p =
      elim (Bool-cases
        (repeats w_eq v.last_published (status_message (sink.query_stream v.core) v))) [
          | inl y ↦ rw y refl
          | inr n ↦ rw n refl
        ]

  polls_alone :
      (v : StreamServer S W) (o : Option (Point W))
      → step w_eq sink polls
          (step w_eq sink polls (step w_eq sink polls (step w_eq sink fires (at v o none))))
        ≡ at (publish_status_if_changed w_eq sink v) o none
  unfolding step point_step poll_step publish_status_if_changed publish_locked
  polls_alone v o =
      elim (Bool-cases
        (repeats w_eq v.last_published (status_message (sink.query_stream v.core) v))) [
          | inl y ↦ rw y refl
          | inr n ↦ rw n refl
        ]

  abbrev pub four : Threads S W → Threads S W
  four t = three (step w_eq sink advances t)

  idle_alone : (v : StreamServer S W) (p : Option (Poll W)) → four (at v none p) ≡ at v none p
  unfolding step
  idle_alone v p = refl

  opened_alone :
      (req : OpenStreamRequest W) (v : StreamServer S W) (p : Option (Poll W)) (r : ControllerRow)
      (gains : Option String)
      → four (enter_row w_eq sink req r gains (at v none p))
        ≡ at (check_gains w_eq sink req r v gains).0 none p
  unfolding step point_step
  opened_alone req v p r (some why) = idle_alone v p
  opened_alone req v p r none = reports_alone _ p

  checked_alone :
      (req : OpenStreamRequest W) (v : StreamServer S W) (p : Option (Poll W)) (r : ControllerRow)
      (gains : Option String) (answer : OpenStreamResponse) (refused : Bool)
      → four (if refused then at v none p else enter_row w_eq sink req r gains (at v none p))
        ≡ at (if refused then (v, answer) else check_gains w_eq sink req r v gains).0 none p
  checked_alone req v p r gains answer true = idle_alone v p
  checked_alone req v p r gains answer false = opened_alone req v p r gains

  found_alone :
      (req : OpenStreamRequest W) (v : StreamServer S W) (p : Option (Poll W))
      (o : Option ControllerRow)
      → four (enter_found w_eq sink req o (at v none p))
        ≡ at (open_found w_eq sink req v o).0 none p
  found_alone req v p none = idle_alone v p
  found_alone req v p (some r) =
      checked_alone req v p r (mode_gains_rejection (gains_mode r.mode) req.gains) _
        (not (available W r))

  -- A callback that nothing runs beside, whether or not the other thread is in one, does in its steps
  -- what it does as one step: on_open and on_close in their call of core and at most four more steps,
  -- and the timer's poll in three.
  pub handlers_alone :
      (v : StreamServer S W)
      → ((req : OpenStreamRequest W) (p : Option (Poll W))
          → four (step w_eq sink (opens req) (at v none p)) ≡ at (on_open w_eq sink req v).0 none p)
        × ((token : Token) (p : Option (Poll W))
            → four (step w_eq sink (closes token) (at v none p))
              ≡ at (on_close w_eq sink token v) none p)
        × ((o : Option (Point W))
            → step w_eq sink polls
                (step w_eq sink polls (step w_eq sink polls (step w_eq sink fires (at v o none))))
              ≡ at (publish_status_if_changed w_eq sink v) o none)
  unfolding step enter_open enter_close point_step on_open on_close
  handlers_alone v = (
    λ req p. found_alone req v p (find_row req.controller registry),
    λ token p.
        reports_alone (record v { core = sink.stream_close v.core token; open_controller = "" }) p,
    polls_alone v,
  )
