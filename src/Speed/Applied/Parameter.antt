-- ===== src/Speed/Applied/Parameter.antt =====
-- The parameter global_speed_scale itself, which rclcpp keeps: a set that on_set refuses leaves it,
-- and any other makes it the last value of its name in the set.
use mathlib.Core.Path.{subst}
use kinova_gen3_ros.Common.{
  ◌≡◌, sym, ◌∙◌, false, List, [], ◌∷◌, ◌==◌, string_eq, arith, Bool-cases, inl, inr, if_yes, if_no,
  if◌then◌else◌,
}
use kinova_gen3_ros.Common.Text.{String}
use kinova_gen3_ros.Common.Results.{returns}
use kinova_gen3_ros.Speed.{SpeedSink, SpeedScaleParam, SetResult, start_scale, on_set, scale_name}
use kinova_gen3_ros.Speed.Applied.{IsHonest}

-- The parameter server's value, and the server.
pub record Stored (W S : Type 0) : Type 0 where
  pub parameter : W
  pub server : SpeedScaleParam W S

-- The last value of the name in a set.
abbrev pub last_value : {W : Type 0} → List (String × W) → W → W
last_value [] x = x
last_value ((name, y) ∷ params) x = last_value params (if name == scale_name then y else x)

-- No entry of the name, and at most one.
abbrev pub Unnamed : {W : Type 0} → List (String × W) → Type 0
Unnamed [] = Unit
Unnamed ((name, x) ∷ params) = (name == scale_name ≡ false) × Unnamed params

abbrev pub IsSingle : {W : Type 0} → List (String × W) → Type 0
IsSingle [] = Unit
IsSingle ((name, x) ∷ params) = if name == scale_name then Unnamed params else IsSingle params

abbrev pub AllSingle : {W : Type 0} → List (List (String × W)) → Type 0
AllSingle [] = Unit
AllSingle (params ∷ h) = IsSingle params × AllSingle h

module _ {W S : Type 0} (sink : SpeedSink W S) where
  abbrev pub stored : List (String × W) → SpeedScaleParam W S × SetResult → Stored W S → Stored W S
  stored params (p, r) t = record {
    parameter = if r.successful then last_value params t.parameter else t.parameter;
    server = p;
  }

  -- set_parameters_atomically, with the callback.
  unfoldable pub set_parameters : List (String × W) → Stored W S → Stored W S
  set_parameters params t = stored params (on_set sink params t.server) t

  -- After a history of sets, the newest first.
  unfoldable pub after_stored : Stored W S → List (List (String × W)) → Stored W S
  unfolding set_parameters
  after_stored t [] = t
  after_stored t (params ∷ h) = set_parameters params (after_stored t h)

module _ {W S : Type 0} (sink : SpeedSink W S) (scale : S → W) where
  -- The parameter and core after a set, of which `x` is the value so far; `old` is the parameter if
  -- the set is refused.
  abbrev Fits : W → W → List (String × W) → SpeedScaleParam W S × SetResult → Type 0
  Fits old x params (p, r) = (if r.successful then last_value params x else old) ≡ scale p.core

  Unnamed-Fits :
      (params : List (String × W)) (old x : W) (p : SpeedScaleParam W S)
      → Unnamed params
      → x ≡ scale p.core
      → Fits old x params (on_set sink params p)
  unfolding on_set
  Unnamed-Fits [] old x p u e = e
  Unnamed-Fits ((name, y) ∷ params) old x p u e = rw u.0 (Unnamed-Fits params old x p u.1 e)

  IsSingle-Fits :
      IsHonest sink scale
      → (params : List (String × W)) (x : W) (p : SpeedScaleParam W S) → IsSingle params
      → x ≡ scale p.core
      → Fits x x params (on_set sink params p)
  unfolding on_set
  IsSingle-Fits honest [] x p u e = e
  IsSingle-Fits honest ((name, y) ∷ params) x p u e = elim (Bool-cases (name == scale_name)) [
    | inr n ↦ rw n (IsSingle-Fits honest params x p (subst (λ t. t) (if_no _ _ n) u) e)
    | inl m ↦ elim (Bool-cases ((sink.set_speed_override p.core y).1).accepted) [
      | inl a ↦
          rw (m, a)
            (Unnamed-Fits params x y _ (subst (λ t. t) (if_yes _ _ m) u)
              (sym (honest.accepted_runs p.core y a)))
      | inr a ↦ rw (m, a) (e ∙ sym (honest.refused_kept p.core y a))
    ]
  ]

  -- The parameter is the scale that core runs at, over a core that runs at the scale it accepted and
  -- keeps its own on a refusal: it is when the constructor returns with the parameter's value, and
  -- after any history of sets that each name the parameter once at most, among any others, whether
  -- they are accepted or refused.
  pub parameter_is_core :
      IsHonest sink scale
      → (start : W) (core : S) (p : SpeedScaleParam W S) → start_scale sink start core ≡ returns p
      → (h : List (List (String × W))) → AllSingle h
      → (after_stored sink (record { parameter = start; server = p }) h).parameter
        ≡ scale (after_stored sink (record { parameter = start; server = p }) h).server.core
  unfolding after_stored set_parameters start_scale
  parameter_is_core honest start core p e [] s =
      elim (Bool-cases ((sink.set_speed_override core start).1).accepted) [
        | inl y ↦ ground (arith, e, y, honest.accepted_runs core start y)
        | inr n ↦ absurd (ground (arith, e, n))
      ]
  parameter_is_core honest start core p e (params ∷ h) s =
      IsSingle-Fits honest params _ _ s.0 (parameter_is_core honest start core p e h s.1)
