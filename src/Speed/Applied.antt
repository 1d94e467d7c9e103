-- ===== src/Speed/Applied.antt =====
-- SpeedScaleParam: its member value_, and the scale core runs at.
pub mod Parameter
use kinova_gen3_ros.Common.{
  ◌≡◌, sym, ◌∙◌, true, false, List, [], ◌∷◌, ◌==◌, string_eq, arith, Bool-cases, inl, inr,
}
use kinova_gen3_ros.Common.Text.{String}
use kinova_gen3_ros.Common.Results.{returns}
use kinova_gen3_ros.Speed.{SpeedSink, SpeedScaleParam, start_scale, on_set, scale_name}

-- What core documents of a set: an accepted scale is the one it runs at, and a refused one changes
-- nothing. `scale` is what it runs at.
pub record IsHonest {W S : Type 0} (sink : SpeedSink W S) (scale : S → W) : Type 0 where
  pub accepted_runs :
      (s : S) (x : W)
      → ((sink.set_speed_override s x).1).accepted ≡ true
      → scale (sink.set_speed_override s x).0 ≡ x
  pub refused_kept :
      (s : S) (x : W)
      → ((sink.set_speed_override s x).1).accepted ≡ false
      → scale (sink.set_speed_override s x).0 ≡ scale s

module _ {W S : Type 0} (sink : SpeedSink W S) where
  -- The server after a history of sets, each of several parameters, the newest first.
  unfoldable pub after_sets : SpeedScaleParam W S → List (List (String × W)) → SpeedScaleParam W S
  after_sets p [] = p
  after_sets p (params ∷ h) = (on_set sink params (after_sets p h)).0

module _ {W S : Type 0} (sink : SpeedSink W S) (scale : S → W) where
  abbrev pub IsShown : SpeedScaleParam W S → Type 0
  IsShown p = p.value ≡ scale p.core

  pub on_set-IsShown :
      IsHonest sink scale
      → (params : List (String × W)) (p : SpeedScaleParam W S) → IsShown p
      → IsShown (on_set sink params p).0
  unfolding on_set
  on_set-IsShown h [] p shown = shown
  on_set-IsShown h ((name, x) ∷ params) p shown = elim (Bool-cases (name == scale_name)) [
    | inl y ↦ elim (Bool-cases ((sink.set_speed_override p.core x).1).accepted) [
      | inl a ↦ rw (y, a) (on_set-IsShown h params _ (sym (h.accepted_runs p.core x a)))
      | inr a ↦ rw (y, a) (shown ∙ sym (h.refused_kept p.core x a))
    ]
    | inr n ↦ rw n (on_set-IsShown h params p shown)
  ]

  -- The member value_, which the page shows, is the scale that core runs at, over a core that runs at
  -- the scale it accepted and keeps its own on a refusal: it is when the constructor returns, and
  -- after any history of sets, each of any parameters, also a set that fails part of the way.
  pub value_is_core :
      IsHonest sink scale
      → (start : W) (core : S) (p : SpeedScaleParam W S) → start_scale sink start core ≡ returns p
      → (h : List (List (String × W))) → IsShown (after_sets sink p h)
  unfolding start_scale after_sets
  value_is_core honest start core p e [] =
      elim (Bool-cases ((sink.set_speed_override core start).1).accepted) [
        | inl y ↦ ground (arith, e, y, honest.accepted_runs core start y)
        | inr n ↦ absurd (ground (arith, e, n))
      ]
  value_is_core honest start core p e (params ∷ h) =
      on_set-IsShown honest params _ (value_is_core honest start core p e h)
