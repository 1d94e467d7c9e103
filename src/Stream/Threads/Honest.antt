-- ===== src/Stream/Threads/Honest.antt =====
-- What the status topic says, however the threads interleave.
use kinova_gen3_ros.Common.{
  ◌≡◌, refl, ap, Bool, true, not, List, [], ◌∷◌, Option, none, some, Bool-cases, inl, inr, if_yes,
  if_no, All,
}
use kinova_gen3_ros.Common.Text.{String}
use kinova_gen3_ros.Driver.{Token}
use kinova_gen3_ros.Externals.{Packages}
use mathlib.Core.Path.{subst}
use kinova_gen3_ros.Stream.{
  ControllerRow, registry, find_row, available, StreamServer, StreamStatusMsg, StreamSink,
  OpenStreamRequest, status_message, repeats, label,
}
use kinova_gen3_ros.Stream.Sessions.{
  Truthful, Labelled, Sound, message-Truthful, label-Labelled, either, found_again, publish-Sound,
}
use kinova_gen3_ros.Stream.Threads.{
  Poll, asks, knows, publishes, Point, opened, closed, reports, Threads, Event, opens, closes,
  advances, fires, polls, changes, reporting, poll_step, point_step, enter_row, enter_found,
  enter_open, enter_close, advance, poll, fire, step, after,
}

module _ {S W : Type 0} ⦃k : Packages W⦄ (w_eq : W → W → Bool) (sink : StreamSink S W) where
  -- A message on its way is truthful.
  abbrev PollSound : Option (Poll W) → Type 0
  PollSound (some (publishes m)) = Truthful w_eq sink m
  PollSound (some asks) = Unit
  PollSound (some (knows s)) = Unit
  PollSound none = Unit

  -- The row of a session that was opened is available, and found under its name.
  abbrev PointSound : Option (Point W) → Type 0
  PointSound (some (opened r accepted)) =
      (find_row r.name registry ≡ some r) × (available W r ≡ true)
  PointSound (some closed) = Unit
  PointSound (some (reports p)) = PollSound (some p)
  PointSound none = Unit

  record Good (t : Threads S W) : Type 0 where
    server : Sound w_eq sink t.server
    session : PointSound t.session
    timer : PollSound t.timer

  reporting-Sound : (p : Option (Poll W)) → PollSound p → PointSound (reporting p)
  reporting-Sound none h = tt
  reporting-Sound (some p) h = h

  poll_step-Sound :
      (p : Poll W) (v : StreamServer S W)
      → PollSound (some p)
      → Sound w_eq sink v
      → Sound w_eq sink (poll_step w_eq sink p v).0 × PollSound (poll_step w_eq sink p v).1
  unfolding poll_step
  poll_step-Sound asks v h s = (s, tt)
  poll_step-Sound (publishes m) v h s =
      (record { labelled = s.labelled; honest = (h, s.honest) }, tt)
  poll_step-Sound (knows c) v h s =
      either (λ (x : StreamServer S W × Option (Poll W)). Sound w_eq sink x.0 × PollSound x.1)
        (repeats w_eq v.last_published m) {x = (w, none)}
        {y = (record w { last_published = some m }, some (publishes m))} (kept, tt)
        (
          record { labelled = kept.labelled; honest = kept.honest },
          message-Truthful w_eq sink c v s.labelled,
        )
    where
      m : StreamStatusMsg W
      m = status_message c v

      w : StreamServer S W
      w = record v { open_controller = label c v }

      kept : Sound w_eq sink (record v { open_controller = label c v })
      kept = record { labelled = label-Labelled w_eq sink c v s.labelled; honest = s.honest }

  point_step-Sound :
      (p : Point W) (v : StreamServer S W)
      → PointSound (some p)
      → Sound w_eq sink v
      → Sound w_eq sink (point_step w_eq sink p v).0 × PointSound (point_step w_eq sink p v).1
  unfolding point_step
  point_step-Sound (opened r accepted) v h s = (
    record {
      labelled = either (Labelled w_eq sink) accepted (inr (r, h.0, h.1)) s.labelled;
      honest = s.honest;
    },
    tt,
  )
  point_step-Sound closed v h s = (record { labelled = inl refl; honest = s.honest }, tt)
  point_step-Sound (reports p) v h s =
      let (s', h') = poll_step-Sound p v h s in (s', reporting-Sound _ h')

  advance-Good :
      (o : Option (Point W)) (t : Threads S W)
      → t.session ≡ o
      → Good t
      → Good (advance w_eq sink o t)
  advance-Good none t e g = g
  advance-Good (some p) t e g =
      let (server, session) = point_step-Sound p t.server (subst PointSound e g.session) g.server in
      record { server = server; session = session; timer = g.timer }

  poll-Good :
      (o : Option (Poll W)) (t : Threads S W) → t.timer ≡ o → Good t → Good (poll w_eq sink o t)
  poll-Good none t e g = g
  poll-Good (some p) t e g =
      let (server, timer) = poll_step-Sound p t.server (subst PollSound e g.timer) g.server in
      record { server = server; session = g.session; timer = timer }

  fire-Good : (o : Option (Poll W)) (t : Threads S W) → Good t → Good (fire w_eq sink o t)
  fire-Good none t g = record { server = g.server; session = g.session; timer = tt }
  fire-Good (some p) t g = g

  recored :
      (c : S) (v : StreamServer S W) → Sound w_eq sink v → Sound w_eq sink (record v { core = c })
  recored c v s = record { labelled = s.labelled; honest = s.honest }

  enter_row-Good :
      (req : OpenStreamRequest W) (r : ControllerRow) (gains : Option String) (t : Threads S W)
      → (find_row r.name registry ≡ some r) × (available W r ≡ true)
      → Good t
      → Good (enter_row w_eq sink req r gains t)
  enter_row-Good req r (some why) t h g = g
  enter_row-Good req r none t h g = record {
    server = recored _ t.server g.server;
    session = h;
    timer = g.timer;
  }

  enter_found-Good :
      (req : OpenStreamRequest W) (o : Option ControllerRow) (t : Threads S W)
      → find_row req.controller registry ≡ o
      → Good t
      → Good (enter_found w_eq sink req o t)
  enter_found-Good req none t e g = g
  enter_found-Good req (some r) t e g = elim (Bool-cases (available W r)) [
    | inr n ↦ rw (if_yes _ _ (ap not n)) g
    | inl y ↦
        rw (if_no _ _ (ap not y)) (enter_row-Good req r _ t (found_again req.controller r e, y) g)
  ]

  enter_open-Good :
      (req : OpenStreamRequest W) (o : Option (Point W)) (t : Threads S W)
      → Good t
      → Good (elim o [ none ↦ enter_open w_eq sink req t | some p ↦ t ])
  unfolding enter_open
  enter_open-Good req none t g = enter_found-Good req _ t refl g
  enter_open-Good req (some p) t g = g

  enter_close-Good :
      (token : Token) (o : Option (Point W)) (t : Threads S W)
      → Good t
      → Good (elim o [ none ↦ enter_close w_eq sink token t | some p ↦ t ])
  unfolding enter_close
  enter_close-Good token none t g = record {
    server = recored _ t.server g.server;
    session = tt;
    timer = g.timer;
  }
  enter_close-Good token (some p) t g = g

  step-Good : (e : Event S W) (t : Threads S W) → Good t → Good (step w_eq sink e t)
  unfolding step
  step-Good (opens req) t g = enter_open-Good req t.session t g
  step-Good (closes token) t g = enter_close-Good token t.session t g
  step-Good advances t g = advance-Good t.session t refl g
  step-Good fires t g = fire-Good t.timer t g
  step-Good polls t g = poll-Good t.timer t refl g
  step-Good (changes f) t g = record {
    server = recored _ t.server g.server;
    session = g.session;
    timer = g.timer;
  }

  after-Good : (s : S) (h : List (Event S W)) → Good (after w_eq sink s h)
  unfolding after
  after-Good s [] = record {
    server =
        publish-Sound w_eq sink
          (record { core = s; open_controller = ""; last_published = none; published = [] })
          (record { labelled = inl refl; honest = tt });
    session = tt;
    timer = tt;
  }
  after-Good s (e ∷ h) = step-Good e (after w_eq sink s h) (after-Good s h)

  -- However the session handlers, the timer's polls and changes that core makes on its own
  -- interleave, each message ever published on the status topic either names no controller and no
  -- channels, or is of a session that core reported open and names an available controller with
  -- exactly its channels.
  pub every_status_honest :
      (s : S) (h : List (Event S W))
      → All (Truthful w_eq sink) (after w_eq sink s h).server.published
  every_status_honest s h = (after-Good s h).server.honest
