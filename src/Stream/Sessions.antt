-- ===== src/Stream/Sessions.antt =====
-- stream_server.cpp: on_open, and the status topic over a history of calls.
use kinova_gen3_ros.Common.{
  ℕ, length, ℕ_eq, ◌≡◌, refl, sym, ap, ◌∙◌, ◌↔◌, ◌⊎◌, Bool, true, false, not, List, [], ◌∷◌, Option,
  none, some, string_eq, arith, Bool-cases, Option-cases, inl, inr, if_yes, if_no, if◌then◌else◌,
  All,
}
use mathlib.Core.Path.{subst}
use text.Mathlib.TextEquality.{eq_iff}
use kinova_gen3_ros.Common.Text.{String}
use kinova_gen3_ros.Driver.{Token, ControlModeKind, position, impedance, torque, velocity}
use kinova_gen3_ros.Externals.{Packages}
use kinova_gen3_ros.Mapping.Gains.{mode_gains_rejection, to_impedance_gains}
use kinova_gen3_ros.Stream.{
  ControllerRow, registry, find_row, available, StreamStatusMsg, StreamServer, StreamSink,
  OpenStreamRequest, channels_of, StreamStatus, label, status_message, publish_locked,
  publish_status_if_changed, on_open, on_close, open_row, open_found, gains_mode, repeats,
}

some_injective : {r r' : ControllerRow} → some r ≡ some r' → r ≡ r'
some_injective p = cc

-- A row that was found is found again under its own name.
found-name :
    (name : String) (rs : List ControllerRow) (r : ControllerRow)
    → find_row name rs ≡ some r
    → name ≡ r.name
unfolding find_row
found-name name [] r e = cc
found-name name (x ∷ rs) r e = ground (arith, eq_iff x.name name, found-name name rs r)

pub found_again :
    (name : String) (r : ControllerRow)
    → find_row name registry ≡ some r
    → find_row r.name registry ≡ some r
found_again name r e = subst (λ n. find_row n registry ≡ some r) (found-name name registry r e) e

pub either {ℓ κ} :
    {A : Type ℓ} (P : A → Type κ) (b : Bool) {x y : A} → P x → P y → P (if b then x else y)
either P true p q = p
either P false p q = q

-- The control-mode byte that the gains are checked with: 1 for an impedance controller, else 0.
abbrev pub mode_byte : ControlModeKind → ℕ
mode_byte position = 0
mode_byte impedance = 1
mode_byte torque = 0
mode_byte velocity = 0

gains_mode-byte : (m : ControlModeKind) → gains_mode m ≡ mode_byte m
gains_mode-byte position = refl
gains_mode-byte impedance = refl
gains_mode-byte torque = refl
gains_mode-byte velocity = refl

module _ {S W : Type 0} ⦃k : Packages W⦄ (w_eq : W → W → Bool) (sink : StreamSink S W) where
  -- What core answers to a session of the controller's kind and mode, with the request's own timeout,
  -- gains and token.
  abbrev pub core_accepts : OpenStreamRequest W → ControllerRow → StreamServer S W → Bool
  core_accepts req r v =
      (sink.stream_open v.core (record {
        kind = r.kind;
        control_mode = r.mode;
        timeout_s = req.timeout_s;
        gains = to_impedance_gains req.gains;
        token = req.token;
      })).1.accepted

  -- What opening a session asks of the registered controller.
  abbrev pub Openable : OpenStreamRequest W → StreamServer S W → ControllerRow → Type 0
  Openable req v r =
      (r.core_backed ≡ true)
      × (length r.channels ≡ 1)
      × (k.pair_supported r.kind r.mode ≡ true)
      × (mode_gains_rejection (mode_byte r.mode) req.gains ≡ none)
      × (core_accepts req r v ≡ true)

  available_iff :
      (r : ControllerRow)
      → (available W r ≡ true) ↔ (
          (r.core_backed ≡ true)
          × (length r.channels ≡ 1)
          × (k.pair_supported r.kind r.mode ≡ true))
  unfolding available
  available_iff r = ground arith

  open_found-accepts :
      (req : OpenStreamRequest W) (v : StreamServer S W) (r : ControllerRow)
      → ((open_found w_eq sink req v (some r)).1.accepted ≡ true) ↔ Openable req v r
  open_found-accepts req v r = rw (← gains_mode-byte r.mode) (elim (Bool-cases (available W r)) [
    | inr n ↦ rw (if_yes _ _ (ap not n)) (ground (arith, n, available_iff r))
    | inl y ↦
        rw (if_no _ _ (ap not y))
          (elim (Option-cases (mode_gains_rejection (gains_mode r.mode) req.gains)) [
            | inl e ↦ rw e (ground (arith, y, available_iff r))
            | inr (why, e) ↦ rw e (ground (arith, y))
          ])
  ])

  -- A session opens exactly when its controller is registered, is available in this driver (one
  -- that core backs, with one channel, whose pair core supports), the gains suit the controller's
  -- mode, and core accepts the session with the kind and mode of that controller.
  pub session_opens_iff :
      (req : OpenStreamRequest W) (v : StreamServer S W)
      → ((on_open w_eq sink req v).1.accepted ≡ true)
        ↔ ((r : ControllerRow) × (find_row req.controller registry ≡ some r) × Openable req v r)
  unfolding on_open
  session_opens_iff req v = elim (Option-cases (find_row req.controller registry)) [
    | inl e ↦ rw e (ground arith)
    | inr (r, e) ↦ rw e (
      λ a. (r, refl, (open_found-accepts req v r).0 a),
      λ (r', p, o).
          (open_found-accepts req v r).1 (subst (Openable req v) (sym (some_injective p)) o),
    )
  ]

  -- What a published status may say: nothing of a controller, or, of a session that core reports
  -- open, an available controller and its channels.
  abbrev pub Truthful : StreamStatusMsg W → Type 0
  Truthful m =
      ((m.controller ≡ "") × (m.channels ≡ []))
      ⊎ ((m.is_open ≡ true)
          × ((r : ControllerRow) × (find_row m.controller registry ≡ some r)
              × (available W r ≡ true)
              × (m.channels ≡ r.channels)))

  -- The label names an available controller, or nothing.
  abbrev pub Labelled : String → Type 0
  Labelled name =
      (name ≡ "")
      ⊎ ((r : ControllerRow) × (find_row name registry ≡ some r) × (available W r ≡ true))

  -- The server's label and every message it has published.
  pub record Sound (v : StreamServer S W) : Type 0 where
    pub labelled : Labelled v.open_controller
    pub honest : All Truthful v.published

  nameless : find_row "" registry ≡ none
  unfolding find_row registry
  nameless = refl

  pub label-Labelled :
      (s : StreamStatus W) (v : StreamServer S W)
      → Labelled v.open_controller
      → Labelled (label s v)
  label-Labelled s v l = elim (Bool-cases s.is_open) [
    | inl e ↦ rw (if_no "" v.open_controller (ap not e)) l
    | inr e ↦ rw (if_yes "" v.open_controller (ap not e)) (inl refl)
  ]

  named-Truthful :
      (s : StreamStatus W) (name : String) (v : StreamServer S W)
      → name ≡ label s v
      → s.is_open ≡ true
      → Labelled name
      → Truthful (status_message s v)
  named-Truthful s name v e o (inl n) =
      inl (
        sym e ∙ n,
        ap (λ l. channels_of (find_row l registry)) (sym e ∙ n) ∙ ap channels_of nameless,
      )
  named-Truthful s name v e o (inr (r, f, a)) =
      let g = subst (λ l. find_row l registry ≡ some r) e f in inr (o, (r, g, a, ap channels_of g))

  pub message-Truthful :
      (s : StreamStatus W) (v : StreamServer S W)
      → Labelled v.open_controller
      → Truthful (status_message s v)
  message-Truthful s v l = elim (Bool-cases s.is_open) [
    | inl e ↦ named-Truthful s v.open_controller v (sym (if_no "" v.open_controller (ap not e))) e l
    | inr e ↦
        (let closed = if_yes "" v.open_controller (ap not e) in
          inl
            (closed, ap (λ l. channels_of (find_row l registry)) closed ∙ ap channels_of nameless))
  ]

  pub publish_locked-Sound :
      (s : StreamStatus W) (v : StreamServer S W) → Sound v → Sound (publish_locked w_eq s v)
  unfolding publish_locked
  publish_locked-Sound s v h =
      either Sound (repeats w_eq v.last_published m) {x = w} {y = w'}
        (record { labelled = label-Labelled s v h.labelled; honest = h.honest })
        (record { labelled = label-Labelled s v h.labelled; honest = told })
    where
      m : StreamStatusMsg W
      m = status_message s v

      w : StreamServer S W
      w = record v { open_controller = label s v }

      w' : StreamServer S W
      w' = record w { last_published = some m; published = m ∷ v.published }

      told : All Truthful (status_message s v ∷ v.published)
      told = (message-Truthful s v h.labelled, h.honest)

  pub publish-Sound :
      (v : StreamServer S W) → Sound v → Sound (publish_status_if_changed w_eq sink v)
  unfolding publish_status_if_changed
  publish-Sound v h = publish_locked-Sound (sink.query_stream v.core) v h

  open_row-Sound :
      (req : OpenStreamRequest W) (r : ControllerRow) (v : StreamServer S W)
      → find_row r.name registry ≡ some r
      → available W r ≡ true
      → Sound v
      → Sound (open_row w_eq sink req r v).0
  open_row-Sound req r v f a h =
      publish-Sound _
        (record { labelled = either Labelled _ (inr (r, f, a)) h.labelled; honest = h.honest })

  open_found-Sound :
      (req : OpenStreamRequest W) (v : StreamServer S W) (o : Option ControllerRow)
      → ((r : ControllerRow) → o ≡ some r → find_row r.name registry ≡ some r)
      → Sound v
      → Sound (open_found w_eq sink req v o).0
  open_found-Sound req v none f h = h
  open_found-Sound req v (some r) f h = elim (Bool-cases (available W r)) [
    | inr n ↦ rw (if_yes _ _ (ap not n)) h
    | inl y ↦
        rw (if_no _ _ (ap not y))
          (elim (Option-cases (mode_gains_rejection (gains_mode r.mode) req.gains)) [
            | inl e ↦ rw e (open_row-Sound req r v (f r refl) y h)
            | inr (why, e) ↦ rw e h
          ])
  ]

-- What happens to a streaming server; `changes` is core moving on its own, such as a session that
-- misses its deadline.
pub data Event (S W : Type 0) : Type 0 where
  opens : OpenStreamRequest W → Event S W
  closes : Token → Event S W
  polls : Event S W
  changes : (S → S) → Event S W

module _ {S W : Type 0} ⦃k : Packages W⦄ (w_eq : W → W → Bool) (sink : StreamSink S W) where
  pub step : Event S W → StreamServer S W → StreamServer S W
  unfolding on_open on_close publish_status_if_changed
  step (opens req) v = (on_open w_eq sink req v).0
  step (closes token) v = on_close w_eq sink token v
  step polls v = publish_status_if_changed w_eq sink v
  step (changes f) v = record v { core = f v.core }

  -- The server, which seeds its topic, after a history, newest event first.
  pub after : S → List (Event S W) → StreamServer S W
  unfolding step
  after s [] =
      publish_status_if_changed w_eq sink
        (record { core = s; open_controller = ""; last_published = none; published = [] })
  after s (e ∷ h) = step e (after s h)

  after-Sound : (s : S) (h : List (Event S W)) → Sound w_eq sink (after s h)
  unfolding after step on_open on_close
  after-Sound s [] =
      publish-Sound w_eq sink
        (record { core = s; open_controller = ""; last_published = none; published = [] })
        (record { labelled = inl refl; honest = tt })
  after-Sound s (opens req ∷ h) =
      open_found-Sound w_eq sink req (after s h) (find_row req.controller registry)
        (λ r e. found_again req.controller r e) (after-Sound s h)
  after-Sound s (closes token ∷ h) =
      publish-Sound w_eq sink
        (record (after s h) {
          core = sink.stream_close (after s h).core token;
          open_controller = "";
        })
        (record { labelled = inl refl; honest = (after-Sound s h).honest })
  after-Sound s (polls ∷ h) = publish-Sound w_eq sink _ (after-Sound s h)
  after-Sound s (changes f ∷ h) = record {
    labelled = (after-Sound s h).labelled;
    honest = (after-Sound s h).honest;
  }

  -- After any history of openings, closings, polls and changes that core makes on its own, each
  -- message ever published on the status topic either names no controller and no channels, or is of
  -- a session that core reported open and names an available controller with exactly its channels.
  pub statuses_honest :
      (s : S) (h : List (Event S W)) → All (Truthful w_eq sink) (after s h).published
  statuses_honest s h = (after-Sound s h).honest
