-- ===== src/Mapping/Names.antt =====
-- message_mapping.cpp: joint_names_rejection and goal_joint_names_rejection.
use kinova_gen3_ros.Common.{
  List, [], ◌∷◌, map, is_empty, Option, none, some, ◌==◌, list_eq, string_eq, if◌then◌else◌, ◌≡◌,
  ◌↔◌, ◌⊎◌, arith,
}
use kinova_gen3_ros.Common.Text.{String, ◌++◌}
use kinova_gen3_ros.Messages.{JointTolerance, ExecuteGoal}

bracket_from : String → List String → String
bracket_from s [] = s
bracket_from s (n ∷ ns) = bracket_from (s ++ ((if s == "" then "" else ", ") ++ n)) ns

unfoldable pub bracketed : List String → String
unfolding bracket_from
bracketed names = "[" ++ (bracket_from "" names ++ "]")

unfoldable pub joint_names_rejection : List String → List String → Option String
joint_names_rejection got arm =
    if got == arm
    then none
    else some ("got " ++ (bracketed got ++ (", expected " ++ (bracketed arm ++ " in that order"))))

-- A reason with its context in front.
abbrev pub prefixed : String → Option String → Option String
prefixed what none = none
prefixed what (some why) = some (what ++ why)

-- The first reason of two checks made in order.
infixr 5 ◌orelse◌
abbrev pub ◌orelse◌ : Option String → Option String → Option String
none orelse next = next
some why orelse next = some why

module _ {W : Type 0} where
  tolerance_names_rejection : List String → String → List (JointTolerance W) → Option String
  unfolding joint_names_rejection
  tolerance_names_rejection arm field tol =
      if is_empty tol
      then none
      else prefixed (field ++ " names: ") (joint_names_rejection (map (λ t. t.name) tol) arm)

  unfoldable pub goal_joint_names_rejection : ExecuteGoal W → List String → Option String
  unfolding joint_names_rejection tolerance_names_rejection
  goal_joint_names_rejection g arm =
      prefixed "trajectory joint_names: " (joint_names_rejection g.trajectory.joint_names arm)
      orelse tolerance_names_rejection arm "path_tolerance" g.path_tolerance
      orelse tolerance_names_rejection arm "goal_tolerance" g.goal_tolerance

pub joint_names_accepted :
    (got arm : List String) → (joint_names_rejection got arm ≡ none) ↔ (got ≡ arm)
unfolding joint_names_rejection
joint_names_accepted got arm = ground (arith, (list_eq {A = String}).equals_iff got arm)

-- The names on a tolerance list that is given.
abbrev pub TolerancesNamed : {W : Type 0} → List String → List (JointTolerance W) → Type 0
TolerancesNamed arm tol = (tol ≡ []) ⊎ (map (λ t. t.name) tol ≡ arm)

tolerances_accepted :
    {W : Type 0} (arm : List String) (field : String) (tol : List (JointTolerance W))
    → (tolerance_names_rejection arm field tol ≡ none) ↔ TolerancesNamed arm tol
unfolding tolerance_names_rejection
tolerances_accepted arm field [] = ground arith
tolerances_accepted arm field (t ∷ ts) =
    ground (arith, joint_names_accepted (map (λ t. t.name) (t ∷ ts)) arm)

-- A trajectory goal passes the joint-name check exactly when the trajectory names the arm's joints
-- in chain order, and each of the two tolerance lists is empty or names them in that order too.
pub goal_names_accepted_iff :
    {W : Type 0} (g : ExecuteGoal W) (arm : List String)
    → (goal_joint_names_rejection g arm ≡ none) ↔ (
        (g.trajectory.joint_names ≡ arm)
        × TolerancesNamed arm g.path_tolerance
        × TolerancesNamed arm g.goal_tolerance)
unfolding goal_joint_names_rejection
goal_names_accepted_iff g arm = ground (
  arith,
  joint_names_accepted g.trajectory.joint_names arm,
  tolerances_accepted arm "path_tolerance" g.path_tolerance,
  tolerances_accepted arm "goal_tolerance" g.goal_tolerance,
)
