-- ===== src/Tests/Streams.antt =====
-- The interleaved streaming server, at the core and the request of Tests/Goals.
use kinova_gen3_ros.Common.{ℕ, ◌≡◌, refl, Bool, true, false, List, [], ◌∷◌, map, nat_eq, All}
use kinova_gen3_ros.Common.Text.{String}
use kinova_gen3_ros.Mapping.Gains.{mode_gains_rejection}
use kinova_gen3_ros.Stream.{
  StreamStatusMsg, publish_status_if_changed, find_row, registry, available,
}
use kinova_gen3_ros.Stream.Sessions.{Truthful}
use kinova_gen3_ros.Stream.Threads.{
  Event, opens, advances, fires, polls, changes, step, after, poll_step, point_step, enter_open,
}
use kinova_gen3_ros.Stream.Threads.Honest.{every_status_honest}
use kinova_gen3_ros.Tests.{gen3}
use kinova_gen3_ros.Tests.Goals.{core, twist_request}

-- A session is opened while a poll of the timer is between its query and its hold of the mutex.
abbrev late_poll : List (Event Bool ℕ)
late_poll =
    polls
    ∷ polls
    ∷ advances
    ∷ advances
    ∷ advances
    ∷ advances
    ∷ opens twist_request
    ∷ polls
    ∷ fires
    ∷ []

every_status_honest_example :
    All (Truthful nat_eq core) (after nat_eq core false late_poll).server.published
every_status_honest_example = every_status_honest nat_eq core false late_poll

-- What a message says.
abbrev told : StreamStatusMsg ℕ → Bool × String
told m = (m.is_open, m.controller)

-- The session is open and has lost its label, which the next poll tells.
late_poll_unlabels :
    ((after nat_eq core false late_poll).server.open_controller ≡ "")
    × ((after nat_eq core false late_poll).server.core ≡ true)
    × (map told
          (after nat_eq core false (polls ∷ polls ∷ polls ∷ fires ∷ late_poll)).server.published
        ≡ (true, "") ∷ (false, "") ∷ (true, "ee_twist") ∷ (false, "") ∷ [])
unfolding after step enter_open point_step poll_step publish_status_if_changed find_row registry
    available mode_gains_rejection
late_poll_unlabels = (refl, refl, refl)

-- The session ends while its handler is between its hold of the mutex and its publication.
abbrev late_publication : List (Event Bool ℕ)
late_publication =
    advances
    ∷ polls
    ∷ polls
    ∷ polls
    ∷ fires
    ∷ changes (λ s. false)
    ∷ advances
    ∷ advances
    ∷ advances
    ∷ opens twist_request
    ∷ []

-- The newest message says that it is open, and a further poll does not correct it.
late_publication_stays :
    map
      (λ m. m.is_open)
      (after nat_eq core false (polls ∷ polls ∷ polls ∷ fires ∷ late_publication)).server.published
    ≡ true ∷ false ∷ false ∷ []
unfolding after step enter_open point_step poll_step publish_status_if_changed find_row registry
    available mode_gains_rejection
late_publication_stays = refl
