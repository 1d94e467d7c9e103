-- ===== src/Arbitration/Stop.antt =====
-- arbitration_server.cpp: the arbiter's stop against the messages received.
use kinova_gen3_ros.Common.{
  ℕ, ◌≡◌, refl, sym, ap, ◌∙◌, ◌↔◌, true, false, not, List, [], ◌∷◌, is_empty, ℕ_eq, string_eq,
  arith,
}
use text.Mathlib.TextEquality.{eq_iff}
use kinova_gen3_ros.Common.Text.{String}
use kinova_gen3_ros.Arbitration.{
  ArbitrationSink, IsStoppable, EStop, Server, Callback, acquires, releases, revokes, estops, ticks,
  contains, insert, step, after, start, publish_status_if_changed, on_estop, on_acquire, on_revoke,
}
use kinova_gen3_ros.Arbitration.Cases.{on_estop_cases, on_release_cases}
use kinova_gen3_ros.Arbitration.Sources.{asks, publish-frame, after-AreSources}

insert-ne-nil : (x : String) (xs : List String) → is_empty (insert x xs) ≡ false
unfolding insert contains
insert-ne-nil x [] = refl
insert-ne-nil x (y ∷ xs) = ground arith

some_source : (xs : List String) → is_empty xs ≡ false → (x : String) × (contains x xs ≡ true)
unfolding contains
some_source [] e = cc
some_source (x ∷ xs) e = (x, ground (arith, eq_iff x x))

contains-ne-nil : (x : String) (xs : List String) → contains x xs ≡ true → is_empty xs ≡ false
unfolding contains
contains-ne-nil x [] e = cc
contains-ne-nil x (y ∷ xs) e = refl

module _ {S : Type 0} (a : ArbitrationSink S) where
  -- The arbiter is stopped exactly while the set of engaged sources is not empty.
  abbrev pub Agrees : Server S → Type 0
  Agrees v = (a.status v.arb).estopped ≡ not (is_empty v.engaged_sources)

  publish-Agrees : (now : ℕ) (v : Server S) → Agrees v → Agrees (publish_status_if_changed a now v)
  publish-Agrees now v h = ground (arith, publish-frame a now v, h)

  module _ (laws : IsStoppable a) where
    on_estop-Agrees : (now : ℕ) (m : EStop) (v : Server S) → Agrees v → Agrees (on_estop a now m v)
    on_estop-Agrees now m v h =
        on_estop_cases a now m v Agrees
          (λ e.
            publish-Agrees now _
              (laws.estop_stops v.arb ∙ sym (ap not (insert-ne-nil m.source v.engaged_sources))))
          (λ e k t. ground (arith, insert-ne-nil m.source v.engaged_sources)) (λ e k. h)
          (λ e c k n. h ∙ ap not (contains-ne-nil _ _ k ∙ sym n))
          (λ e c k n. publish-Agrees now _ (laws.clear_lifts v.arb ∙ sym (ap not n)))

    after-Agrees :
        (t : ℕ) (s : S) (h : List (ℕ × Callback))
        → (a.status s).estopped ≡ false
        → Agrees (after a t s h)
    unfolding after step start on_acquire on_revoke
    after-Agrees t s [] e = publish-Agrees t _ e
    after-Agrees t s ((now, estops m) ∷ h) e =
        on_estop-Agrees now m (after a t s h) (after-Agrees t s h e)
    after-Agrees t s ((now, acquires req) ∷ h) e =
        publish-Agrees now _ (laws.grant_keeps (after a t s h).arb _ _ ∙ after-Agrees t s h e)
    after-Agrees t s ((now, releases token) ∷ h) e =
        on_release_cases a now token (after a t s h) (λ r. Agrees r.0) (λ _. after-Agrees t s h e)
          (λ _. publish-Agrees now _ (laws.revoke_keeps (after a t s h).arb ∙ after-Agrees t s h e))
    after-Agrees t s ((now, revokes) ∷ h) e =
        publish-Agrees now _ (laws.revoke_keeps (after a t s h).arb ∙ after-Agrees t s h e)
    after-Agrees t s ((now, ticks) ∷ h) e =
        publish-Agrees now (after a t s h) (after-Agrees t s h e)

    -- Over an arbiter whose stop behaves as core documents, started unstopped, the arm is stopped
    -- after a history of callbacks exactly when some source's newest message that is not a clear
    -- attempt asked for the stop: every engage stops it whatever else happened, a heartbeat or a
    -- clear attempt never ends a stop, and it is released only by the last engaged source.
    pub stopped_iff_asked :
        (t : ℕ) (s : S) (h : List (ℕ × Callback))
        → (a.status s).estopped ≡ false
        → ((a.status (after a t s h).arb).estopped ≡ true)
          ↔ ((source : String) × (asks source h ≡ true))
    stopped_iff_asked t s h e = (asked, stopped)
      where
        v : Server S
        v = after a t s h

        agrees : Agrees v
        agrees = after-Agrees t s h e

        sources : (x : String) → contains x v.engaged_sources ≡ asks x h
        sources = (after-AreSources a t s h).1

        asked : (a.status v.arb).estopped ≡ true → (source : String) × (asks source h ≡ true)
        asked on =
            let (x, k) = some_source v.engaged_sources (ground (arith, agrees, on)) in
            (x, sym (sources x) ∙ k)

        stopped : (source : String) × (asks source h ≡ true) → (a.status v.arb).estopped ≡ true
        stopped (x, k) = agrees ∙ ap not (contains-ne-nil x v.engaged_sources (sources x ∙ k))
