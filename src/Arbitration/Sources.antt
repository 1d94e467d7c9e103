-- ===== src/Arbitration/Sources.antt =====
-- arbitration_server.cpp: the set of engaged sources against the messages received.
use kinova_gen3_ros.Common.{
  ℕ, ◌≡◌, refl, ap, ◌∙◌, Bool, false, not, ◌&&◌, ◌||◌, List, [], ◌∷◌, ◌==◌, ℕ_eq, string_eq,
  if◌then◌else◌, arith, Bool-cases, inl, inr,
}
use text.Mathlib.TextEquality.{eq_iff}
use kinova_gen3_ros.Common.Text.{String}
use kinova_gen3_ros.Arbitration.{
  ArbitrationSink, EStop, Server, Callback, acquires, releases, revokes, estops, ticks, contains,
  insert, erase, step, after, start, publish_status_if_changed, on_estop, on_acquire, on_revoke,
}
use kinova_gen3_ros.Arbitration.Cases.{on_estop_cases, on_release_cases}

abbrev pub Distinct : List String → Type 0
Distinct [] = Unit
Distinct (x ∷ xs) = (contains x xs ≡ false) × Distinct xs

pub contains-insert :
    (x y : String) (xs : List String) → contains x (insert y xs) ≡ (y == x || contains x xs)
unfolding contains insert
contains-insert x y xs = elim (Bool-cases (contains y xs)) [
  | inl old ↦ rw old (ground (arith, eq_iff y x))
  | inr new ↦ rw new
]

pub contains-erase :
    (x y : String) (xs : List String)
    → Distinct xs
    → contains x (erase y xs) ≡ (not (y == x) && contains x xs)
unfolding contains erase
contains-erase x y [] h = ground arith
contains-erase x y (z ∷ xs) h =
    ground (arith, eq_iff z y, eq_iff z x, eq_iff y x, contains-erase x y xs h.1)

insert-Distinct : (x : String) (xs : List String) → Distinct xs → Distinct (insert x xs)
unfolding insert
insert-Distinct x xs h = ground arith

erase-Distinct : (x : String) (xs : List String) → Distinct xs → Distinct (erase x xs)
unfolding erase
erase-Distinct x [] h = tt
erase-Distinct x (y ∷ xs) h = ground (arith, erase-Distinct x xs h.1, contains-erase y x xs h.1)

erase-absent : (x : String) (xs : List String) → contains x xs ≡ false → erase x xs ≡ xs
unfolding contains erase
erase-absent x [] h = refl
erase-absent x (y ∷ xs) h = ground (arith, erase-absent x xs)

-- Whether a message says something of its source: a clear attempt does not.
abbrev pub counts : EStop → Bool
counts m = not (m.state == 0) || m.clear_target == ""

-- Whether the newest message of a source that counts asked for the stop.
abbrev pub asks : String → List (ℕ × Callback) → Bool
asks x [] = false
asks x ((now, estops m) ∷ older) =
    if m.source == x && counts m then not (m.state == 0) else asks x older
asks x ((now, acquires req) ∷ older) = asks x older
asks x ((now, releases token) ∷ older) = asks x older
asks x ((now, revokes) ∷ older) = asks x older
asks x ((now, ticks) ∷ older) = asks x older

-- What a message does to the set.
abbrev told : EStop → List String → List String
told m xs =
    if not (m.state == 0)
    then insert m.source xs
    else if not (m.clear_target == "")
    then xs
    else erase m.source xs

told-Distinct : (m : EStop) (xs : List String) → Distinct xs → Distinct (told m xs)
told-Distinct m xs h = ground (arith, insert-Distinct m.source xs h, erase-Distinct m.source xs h)

contains-told :
    (x : String) (m : EStop) (xs : List String)
    → Distinct xs
    → contains x (told m xs)
      ≡ (if m.source == x && counts m then not (m.state == 0) else contains x xs)
contains-told x m xs h = ground (
  arith,
  contains-insert x m.source xs,
  contains-erase x m.source xs h,
  eq_iff m.source x,
  eq_iff m.clear_target "",
)

module _ {S : Type 0} (a : ArbitrationSink S) where
  pub publish-frame :
      (now : ℕ) (v : Server S)
      → ((publish_status_if_changed a now v).engaged_sources ≡ v.engaged_sources)
        × ((publish_status_if_changed a now v).arb ≡ v.arb)
        × ((publish_status_if_changed a now v).have_retained ≡ v.have_retained)
        × ((publish_status_if_changed a now v).retained_token ≡ v.retained_token)
  unfolding publish_status_if_changed
  publish-frame now v = ground arith

  on_estop-sources :
      (now : ℕ) (m : EStop) (v : Server S)
      → (on_estop a now m v).engaged_sources ≡ told m v.engaged_sources
  on_estop-sources now m v =
      on_estop_cases a now m v (λ w. w.engaged_sources ≡ told m v.engaged_sources)
        (λ e. (publish-frame now _).0 ∙ ground arith) (λ e k t. ground arith)
        (λ e k. ground (arith, erase-absent m.source v.engaged_sources)) (λ e c k n. ground arith)
        (λ e c k n. (publish-frame now _).0 ∙ ground arith)

  abbrev pub AreSources : List (ℕ × Callback) → List String → Type 0
  AreSources h xs = Distinct xs × ((x : String) → contains x xs ≡ asks x h)

  pub after-AreSources :
      (t : ℕ) (s : S) (h : List (ℕ × Callback)) → AreSources h (after a t s h).engaged_sources
  unfolding after step start on_acquire on_revoke contains
  after-AreSources t s [] = rw ((publish-frame t _).0) (tt, λ x. refl)
  after-AreSources t s ((now, estops m) ∷ h) =
      let (distinct, asked) = after-AreSources t s h in
      let v = after a t s h in
      rw (on_estop-sources now m v) (
        told-Distinct m v.engaged_sources distinct,
        λ x.
            contains-told x m v.engaged_sources distinct
            ∙ ap (λ b. if m.source == x && counts m then not (m.state == 0) else b) (asked x),
      )
  after-AreSources t s ((now, acquires req) ∷ h) =
      rw ((publish-frame now _).0) (after-AreSources t s h)
  after-AreSources t s ((now, releases token) ∷ h) =
      on_release_cases a now token (after a t s h) (λ r. AreSources h r.0.engaged_sources)
        (λ e. after-AreSources t s h) (λ e. rw ((publish-frame now _).0) (after-AreSources t s h))
  after-AreSources t s ((now, revokes) ∷ h) = rw ((publish-frame now _).0) (after-AreSources t s h)
  after-AreSources t s ((now, ticks) ∷ h) =
      rw ((publish-frame now (after a t s h)).0) (after-AreSources t s h)
