-- ===== src/Arbitration.antt =====
-- arbitration_server.h and arbitration_server.cpp: ownership services, the broadcast e-stop and the
-- latched status topic. The server holds core's ArbitrationSink and nothing else of core; the sink
-- is a parameter over an abstract state `S`. Each callback is one step, so two that overlap in
-- different callback groups are taken in one of the two orders; core's status changing on its own is
-- in Status. `now` is the node's clock, and `published` records the messages sent on the status
-- topic, newest first. `engaged_sources_` is a list without duplicates (only its members and its
-- emptiness matter to the code).
pub mod Cases
pub mod Sources
pub mod Stop
pub mod Status
pub mod Page
use kinova_gen3_ros.Common.{
  ℕ, ◌≡◌, ◌≢◌, ap, ◌⊎◌, inl, inr, arith, Bool-cases, if_yes, if_no, Bool, true, false, not, ◌&&◌,
  ◌||◌, List, [], ◌∷◌, Option, none, some, is_empty, ◌==◌, ℕ_eq, string_eq, if◌then◌else◌,
}
use kinova_gen3_ros.Common.Text.{String}
use kinova_gen3_ros.Driver.{Token, zero_token}

pub data ArbitrationMode : Type 0 where
  enforced disabled : ArbitrationMode

pub record ArbitrationStatus : Type 0 where
  pub mode : ArbitrationMode
  pub estopped : Bool
  pub owned : Bool
  pub owner_id : String
  pub generation : ℕ
  pub rejected_count : ℕ

pub record GrantResult : Type 0 where
  pub accepted : Bool
  pub token : Token
  pub generation : ℕ
  pub message : String

-- core's ArbitrationSink
pub record ArbitrationSink (S : Type 0) : Type 0 where
  pub grant : S → String → Option Token → S × GrantResult
  pub revoke : S → S
  pub estop : S → S
  pub estop_clear : S → S
  pub status : S → ArbitrationStatus

-- What core documents of the stop: estop() latches it and clears ownership, estop_clear() lifts it,
-- and neither a grant nor a revoke touches it.
pub record IsStoppable {S : Type 0} (a : ArbitrationSink S) : Type 0 where
  pub estop_stops : (s : S) → (a.status (a.estop s)).estopped ≡ true
  pub clear_lifts : (s : S) → (a.status (a.estop_clear s)).estopped ≡ false
  pub grant_keeps :
      (s : S) (owner : String) (t : Option Token)
      → (a.status (a.grant s owner t).0).estopped ≡ (a.status s).estopped
  pub revoke_keeps : (s : S) → (a.status (a.revoke s)).estopped ≡ (a.status s).estopped

-- rammp_common_interfaces/ControlStatus
pub record ControlStatus : Type 0 where
  pub stamp : ℕ
  pub arbitration_enabled : Bool
  pub estopped : Bool
  pub owned : Bool
  pub owner_id : String
  pub generation : ℕ
  pub rejected_count : ℕ

-- rammp_common_interfaces/EStop; `state` is a uint8, and STATE_NOT_ENGAGED is 0.
pub record EStop : Type 0 where
  pub state : ℕ
  pub source : String
  pub clear_target : String

pub record AcquireRequest : Type 0 where
  pub owner_id : String
  pub token : Token

pub record AcquireResponse : Type 0 where
  pub accepted : Bool
  pub token : Token
  pub generation : ℕ
  pub message : String

pub record ReleaseResponse : Type 0 where
  pub released : Bool
  pub message : String

pub record RevokeResponse : Type 0 where
  pub revoked : Bool
  pub message : String

pub record Server (S : Type 0) : Type 0 where
  pub arb : S
  pub have_retained : Bool
  pub retained_token : Token
  pub last_published : Option ControlStatus
  pub engaged_sources : List String
  pub published : List ControlStatus

abbrev bool_eq : Bool → Bool → Bool
bool_eq true b = b
bool_eq false b = not b

-- The payload, without the header stamp.
pub same : ControlStatus → ControlStatus → Bool
unfolding bool_eq
same a b =
    bool_eq a.arbitration_enabled b.arbitration_enabled
    && bool_eq a.estopped b.estopped
    && bool_eq a.owned b.owned
    && a.owner_id == b.owner_id
    && a.generation == b.generation
    && a.rejected_count == b.rejected_count

abbrev pub is_enforced : ArbitrationMode → Bool
is_enforced enforced = true
is_enforced disabled = false

pub to_control_status : ℕ → ArbitrationStatus → ControlStatus
unfolding is_enforced
to_control_status now s = record {
  stamp = now;
  arbitration_enabled = is_enforced s.mode;
  estopped = s.estopped;
  owned = s.owned;
  owner_id = s.owner_id;
  generation = s.generation;
  rejected_count = s.rejected_count;
}

-- Whether `m` repeats the message published last.
unchanged : Option ControlStatus → ControlStatus → Bool
unfolding same
unchanged none m = false
unchanged (some last) m = same last m

module _ {S : Type 0} where
  abbrev pub forget_token : Server S → Server S
  forget_token v = record v { have_retained = false; retained_token = zero_token }

-- std::set<std::string>
pub contains : String → List String → Bool
contains x [] = false
contains x (y ∷ ys) = y == x || contains x ys

pub insert : String → List String → List String
insert x xs = if contains x xs then xs else x ∷ xs

pub erase : String → List String → List String
erase x [] = []
erase x (y ∷ ys) = if y == x then ys else y ∷ erase x ys

module _ {S : Type 0} (a : ArbitrationSink S) where
  pub publish_status_if_changed : ℕ → Server S → Server S
  publish_status_if_changed now v =
      let m = to_control_status now (a.status v.arb) in
      if unchanged v.last_published m
      then v
      else record v { last_published = some m; published = m ∷ v.published }

  -- The response, and whether a seizure was warned of.
  pub on_acquire : ℕ → AcquireRequest → Server S → Server S × AcquireResponse × Bool
  on_acquire now req v =
      let before = a.status v.arb in
      let supplied = not (req.token == zero_token) in
      let granted = a.grant v.arb req.owner_id (if supplied then some req.token else none) in
      let r = granted.1 in
      let v' = record v {
        arb = granted.0;
        have_retained = r.accepted;
        retained_token = if r.accepted then r.token else zero_token;
      } in
      (
        publish_status_if_changed now v',
        record {
          accepted = r.accepted;
          token = r.token;
          generation = r.generation;
          message = r.message;
        },
        r.accepted && before.owned && not (before.owner_id == req.owner_id),
      )

  pub on_release : ℕ → Token → Server S → Server S × ReleaseResponse
  on_release now token v =
      if not (v.have_retained && token == v.retained_token)
      then (v, record { released = false; message = "token does not match the current owner" })
      else (
        publish_status_if_changed now (forget_token (record v { arb = a.revoke v.arb })),
        record { released = true; message = "" },
      )

  pub on_revoke : ℕ → Server S → Server S × RevokeResponse
  on_revoke now v = (
    publish_status_if_changed now (forget_token (record v { arb = a.revoke v.arb })),
    record { revoked = true; message = "" },
  )

  engage : ℕ → EStop → Server S → Server S
  engage now msg v =
      let first = not (contains msg.source v.engaged_sources) in
      let v' = record v { engaged_sources = insert msg.source v.engaged_sources } in
      if first || not (a.status v.arb).estopped
      then publish_status_if_changed now (forget_token (record v' { arb = a.estop v.arb }))
      else v'

  disengage : ℕ → EStop → Server S → Server S
  disengage now msg v =
      let v' = record v { engaged_sources = erase msg.source v.engaged_sources } in
      if not (contains msg.source v.engaged_sources)
      then v
      else if not (is_empty (erase msg.source v.engaged_sources))
      then v'
      else publish_status_if_changed now (record v' { arb = a.estop_clear v.arb })

  pub on_estop : ℕ → EStop → Server S → Server S
  unfolding engage disengage
  on_estop now msg v =
      if not (msg.state == 0)
      then engage now msg v
      else if not (msg.clear_target == "")
      then v
      else disengage now msg v

-- The callbacks; `ticks` is the 10 Hz timer.
pub data Callback : Type 0 where
  acquires : AcquireRequest → Callback
  releases : Token → Callback
  revokes : Callback
  estops : EStop → Callback
  ticks : Callback

module _ {S : Type 0} (a : ArbitrationSink S) where
  pub step : ℕ × Callback → Server S → Server S
  unfolding on_acquire on_release on_revoke on_estop
  step (now, acquires req) v = (on_acquire a now req v).0
  step (now, releases token) v = (on_release a now token v).0
  step (now, revokes) v = (on_revoke a now v).0
  step (now, estops msg) v = on_estop a now msg v
  step (now, ticks) v = publish_status_if_changed a now v

  -- The constructor, which seeds the topic.
  pub start : ℕ → S → Server S
  start now s = publish_status_if_changed a now (record {
    arb = s;
    have_retained = false;
    retained_token = zero_token;
    last_published = none;
    engaged_sources = [];
    published = [];
  })

  -- After a history, its newest callback first.
  pub after : ℕ → S → List (ℕ × Callback) → Server S
  after t s [] = start t s
  after t s (c ∷ older) = step c (after t s older)
