-- ===== src/Arbitration/Status.antt =====
-- arbitration_server.cpp: the latched status topic against the arbiter's status.
use kinova_gen3_ros.Common.{ℕ, ◌≡◌, ◌∙◌, false, List, [], ◌∷◌, some, ℕ_eq, string_eq}
use kinova_gen3_ros.Arbitration.{
  ArbitrationSink, ArbitrationStatus, ControlStatus, Server, Callback, same, to_control_status,
  step, start,
}

-- The payload of the current status, with the stamp of a message.
abbrev pub Tells : ArbitrationStatus → ControlStatus → Type 0
Tells s c = to_control_status c.stamp s ≡ c

-- No two successive messages have the same payload.
abbrev pub Changing : List ControlStatus → Type 0
Changing [] = Unit
Changing (c ∷ []) = Unit
Changing (c ∷ b ∷ older) = (same b c ≡ false) × Changing (b ∷ older)

-- What happens to the server: a callback, or core's status changing on its own, such as the count of
-- rejected commands.
pub data Moment (S : Type 0) : Type 0 where
  calls : ℕ × Callback → Moment S
  changes : (S → S) → Moment S

module _ {S : Type 0} (a : ArbitrationSink S) where
  -- After a history, its newest moment first.
  pub after_moments : ℕ → S → List (Moment S) → Server S
  after_moments t s [] = start a t s
  after_moments t s (calls c ∷ older) = step a c (after_moments t s older)
  after_moments t s (changes f ∷ older) =
      let v = after_moments t s older in record v { arb = f v.arb }

  -- The retained message is the newest one published.
  pub record Topic (v : Server S) : Type 0 where
    pub newest : ControlStatus
    pub older : List ControlStatus
    pub retained : v.last_published ≡ some newest
    pub on_topic : v.published ≡ newest ∷ older
    pub changing : Changing (newest ∷ older)

  -- A topic that tells the current status.
  pub record Told (v : Server S) : Type 0 where
    pub topic : Topic v
    pub current : Tells (a.status v.arb) topic.newest

  -- A change of the server that leaves its topic alone.
  Topic-carried :
      (v w : Server S)
      → w.last_published ≡ v.last_published
      → w.published ≡ v.published
      → Topic v
      → Topic w
  Topic-carried v w l p t = record {
    newest = t.newest;
    older = t.older;
    retained = l ∙ t.retained;
    on_topic = p ∙ t.on_topic;
    changing = t.changing;
  }
