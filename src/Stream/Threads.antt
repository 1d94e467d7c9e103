-- ===== src/Stream/Threads.antt =====
-- stream_server.cpp: the session handlers and the 10 Hz timer as two threads. Their callback groups
-- are different, and each takes one callback at a time, so that a poll of the timer runs beside a
-- handler. Each is cut at its calls of core, its holds of the mutex and its publication, which is
-- after the hold; an event of a thread that is not at that point changes nothing.
pub mod Honest
pub mod Alone
use kinova_gen3_ros.Common.{Bool, not, List, [], ◌∷◌, Option, none, some, string_eq, if◌then◌else◌}
use kinova_gen3_ros.Common.Text.{String}
use kinova_gen3_ros.Driver.{Token}
use kinova_gen3_ros.Externals.{Packages}
use kinova_gen3_ros.Mapping.Gains.{mode_gains_rejection}
use kinova_gen3_ros.Stream.{
  ControllerRow, registry, find_row, available, StreamStatus, StreamStatusMsg, StreamServer,
  StreamSink, OpenStreamRequest, label, status_message, publish_status_if_changed, open_request,
  gains_mode, repeats,
}

-- Where a run of publish_status_if_changed stands: before its query, before its hold of the mutex
-- with what core said, and before the publication of a message.
pub data Poll (W : Type 0) : Type 0 where
  asks : Poll W
  knows : StreamStatus W → Poll W
  publishes : StreamStatusMsg W → Poll W

-- Where a session handler stands: after on_stream_open, which accepted or not, after
-- on_stream_close, and in its publish_status_if_changed.
pub data Point (W : Type 0) : Type 0 where
  opened : ControllerRow → Bool → Point W
  closed : Point W
  reports : Poll W → Point W

pub record Threads (S W : Type 0) : Type 0 where
  pub server : StreamServer S W
  pub session : Option (Point W)
  pub timer : Option (Poll W)

-- `advances` is the session handler's next step, `polls` the timer's; `changes` is core moving on
-- its own.
pub data Event (S W : Type 0) : Type 0 where
  opens : OpenStreamRequest W → Event S W
  closes : Token → Event S W
  advances : Event S W
  fires : Event S W
  polls : Event S W
  changes : (S → S) → Event S W

abbrev pub reporting : {W : Type 0} → Option (Poll W) → Option (Point W)
reporting none = none
reporting (some p) = some (reports p)

module _ {S W : Type 0} (w_eq : W → W → Bool) (sink : StreamSink S W) where
  -- One step of publish_status_if_changed, and where it then stands.
  unfoldable pub poll_step : Poll W → StreamServer S W → StreamServer S W × Option (Poll W)
  unfolding repeats
  poll_step asks v = (v, some (knows (sink.query_stream v.core)))
  poll_step (knows s) v =
      let m = status_message s v in
      let labelled = record v { open_controller = label s v } in
      if repeats w_eq v.last_published m
      then (labelled, none)
      else (record labelled { last_published = some m }, some (publishes m))
  poll_step (publishes m) v = (record v { published = m ∷ v.published }, none)

  -- One step of a session handler.
  unfoldable pub point_step : Point W → StreamServer S W → StreamServer S W × Option (Point W)
  unfolding poll_step
  point_step (opened r accepted) v = (
    record v { open_controller = if accepted then r.name else v.open_controller },
    some (reports asks),
  )
  point_step closed v = (record v { open_controller = "" }, some (reports asks))
  point_step (reports p) v = let (v', p') = poll_step p v in (v', reporting p')

  abbrev pub advance : Option (Point W) → Threads S W → Threads S W
  advance none t = t
  advance (some p) t = let (v, p') = point_step p t.server in record t { server = v; session = p' }

  abbrev pub poll : Option (Poll W) → Threads S W → Threads S W
  poll none t = t
  poll (some p) t = let (v, p') = poll_step p t.server in record t { server = v; timer = p' }

  -- The timer's group takes its next callback when the last one has ended.
  abbrev pub fire : Option (Poll W) → Threads S W → Threads S W
  fire none t = record t { timer = some asks }
  fire (some p) t = t

module _ {S W : Type 0} ⦃k : Packages W⦄ (w_eq : W → W → Bool) (sink : StreamSink S W) where
  -- on_open up to the return of on_stream_open; a request that it refuses itself ends there.
  abbrev pub enter_row :
      OpenStreamRequest W → ControllerRow → Option String → Threads S W → Threads S W
  enter_row req r (some why) t = t
  enter_row req r none t =
      let (core, res) = sink.stream_open t.server.core (open_request req r) in
      record t { server = record t.server { core = core }; session = some (opened r res.accepted) }

  abbrev pub enter_found : OpenStreamRequest W → Option ControllerRow → Threads S W → Threads S W
  enter_found req none t = t
  enter_found req (some r) t =
      if not (available W r)
      then t
      else enter_row req r (mode_gains_rejection (gains_mode r.mode) req.gains) t

  unfoldable pub enter_open : OpenStreamRequest W → Threads S W → Threads S W
  enter_open req t = enter_found req (find_row req.controller registry) t

  -- on_close up to the return of on_stream_close.
  unfoldable pub enter_close : Token → Threads S W → Threads S W
  enter_close token t = record t {
    server = record t.server { core = sink.stream_close t.server.core token };
    session = some closed;
  }

  unfoldable pub step : Event S W → Threads S W → Threads S W
  unfolding enter_open enter_close point_step poll_step
  step (opens req) t = elim t.session [ none ↦ enter_open req t | some p ↦ t ]
  step (closes token) t = elim t.session [ none ↦ enter_close token t | some p ↦ t ]
  step advances t = advance w_eq sink t.session t
  step fires t = fire w_eq sink t.timer t
  step polls t = poll w_eq sink t.timer t
  step (changes f) t = record t { server = record t.server { core = f t.server.core } }

  -- The server, which has seeded its topic, after a history, newest event first.
  unfoldable pub after : S → List (Event S W) → Threads S W
  unfolding step publish_status_if_changed
  after s [] = record {
    server =
        publish_status_if_changed w_eq sink
          (record { core = s; open_controller = ""; last_published = none; published = [] });
    session = none;
    timer = none;
  }
  after s (e ∷ h) = step e (after s h)
