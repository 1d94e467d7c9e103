-- ===== src/GoTo/Presets.antt =====
-- goto_preset_server.h: the preset registry and the validation of a goal against it.
use kinova_gen3_ros.Common.{
  ◌≡◌, sym, ap, ◌∙◌, List, [], ◌∷◌, Option, none, some, length, arith, ℕ_eq, string_eq,
  Option-cases, inl, inr,
}
use text.Mathlib.TextEquality.{eq_iff}
use kinova_gen3_ros.Common.Text.{String}
use kinova_gen3_ros.Driver.{num_joints}
use kinova_gen3_ros.Externals.{Double, Packages}
use kinova_gen3_ros.GoTo.{
  find_preset, validate_preset, load_presets, load_preset_registry, ◌or_else◌,
}

module _ {W : Type 0} where
  -- The configuration that a name stands for: its parameter, or its default.
  abbrev pub configured : (String → Option (List W)) → List (String × List W) → String → List W
  configured param defaults n = param n or_else (find_preset defaults n or_else [])

  load_presets-sized :
      (param : String → Option (List W)) (default_of : String → List W) (ns : List String)
      (name : String) (q : List W)
      → find_preset (load_presets param default_of ns) name ≡ some q
      → (length q ≡ num_joints) × (q ≡ (param name or_else default_of name))
  unfolding load_presets find_preset
  load_presets-sized param default_of [] name q e = cc
  load_presets-sized param default_of (n ∷ ns) name q e =
      ground (arith, e, eq_iff n name, load_presets-sized param default_of ns name q)

module _ {W : Type 0} ⦃d : Double W⦄ ⦃k : Packages W⦄ where
  -- A GoToPreset goal that is accepted names a preset of seven joint values, which are those of its
  -- parameter, or its default when the parameter is not set: a preset of another size is never
  -- moved to.
  pub accepted_preset_whole :
      (param : String → Option (List W)) (names : List String) (defaults : List (String × List W))
      (speed_scale : W) (name : String)
      → validate_preset (load_preset_registry param names defaults) speed_scale name ≡ none
      → (find_preset (load_preset_registry param names defaults) name
          ≡ some (configured param defaults name))
        × (length (configured param defaults name) ≡ num_joints)
  unfolding validate_preset load_preset_registry
  accepted_preset_whole param names defaults speed_scale name e =
      elim (Option-cases (find_preset reg name)) [
        | inl absent ↦ absurd (ground (arith, e, absent))
        | inr (q, found) ↦
            (let (size, same) = load_presets-sized param _ _ name q found in
              (found ∙ ap some same, ap length (sym same) ∙ size))
      ]
    where
      reg : List (String × List W)
      reg = load_preset_registry param names defaults
