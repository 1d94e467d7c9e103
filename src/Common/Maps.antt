-- ===== src/Common/Maps.antt =====
-- A `std::map` as a function from its keys, which are 16-byte identifiers read as numbers.
use Prim.Native.Nat.{ℕ}
use package.kinova_gen3_ros.Common.Tests.{◌==◌, ℕ_eq, if◌then◌else◌}

-- One entry changed: `m[k] = v` with `some v`, `m.erase(k)` with `none`.
abbrev pub update {ℓ} : {A : Type ℓ} → (ℕ → A) → ℕ → A → ℕ → A
update f k v j = if k == j then v else f j
