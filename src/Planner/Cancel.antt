-- ===== src/Planner/Cancel.antt =====
-- curobo_plan_client.cpp: which plan cancel() reaches.
use kinova_gen3_ros.Common.{
  ℕ, ◌≡◌, inl, inr, refl, sym, ap, ◌∙◌, Bool, true, false, List, [], ◌∷◌, Option, none, some, ◌==◌,
  ℕ_eq, if◌then◌else◌, arith, Bool-cases, Option-cases,
}
use mathlib.Core.Path.{subst}
use kinova_gen3_ros.Externals.{Double}
use kinova_gen3_ros.Planner.{
  Client, cancels, Event, dispatched, responded, finished, canceled, cancel, fire, dispatch,
  on_response, on_result, step, after,
}

module _ {W : Type 0} where
  -- The handle of a dispatch whose goal the planner has accepted and not answered.
  abbrev pub in_flight : ℕ → List (Event W) → Option ℕ
  in_flight n [] = none
  in_flight n (dispatched m available ∷ h) = in_flight n h
  in_flight n (responded m none ∷ h) = in_flight n h
  in_flight n (responded m (some handle) ∷ h) = if m == n then some handle else in_flight n h
  in_flight n (finished m wr ∷ h) = if m == n then none else in_flight n h
  in_flight n (canceled ∷ h) = in_flight n h

  abbrev pub NoneInFlight : List (Event W) → Type 0
  NoneInFlight h = (n : ℕ) → in_flight n h ≡ none

  -- The planner takes one plan at a time: it accepts a goal only when it has answered all others,
  -- and answers only a goal that it has accepted.
  abbrev pub OneAtATime : List (Event W) → Type 0
  OneAtATime [] = Unit
  OneAtATime (dispatched m available ∷ h) = OneAtATime h
  OneAtATime (responded m none ∷ h) = OneAtATime h
  OneAtATime (responded m (some handle) ∷ h) = NoneInFlight h × OneAtATime h
  OneAtATime (finished m wr ∷ h) = ((handle : ℕ) × (in_flight m h ≡ some handle)) × OneAtATime h
  OneAtATime (canceled ∷ h) = OneAtATime h

  -- What cancel() would reach, and the plan in flight.
  abbrev Reaches : Option ℕ → List (Event W) → Type 0
  Reaches none h = NoneInFlight h
  Reaches (some handle) h =
      (n : ℕ) × (in_flight n h ≡ some handle) × ((k : ℕ) → (n == k) ≡ false → in_flight k h ≡ none)

  -- A step that changes nothing in flight.
  same-Reaches :
      (x : Option ℕ) (h h' : List (Event W))
      → ((n : ℕ) → in_flight n h' ≡ in_flight n h)
      → Reaches x h
      → Reaches x h'
  same-Reaches none h h' e r = λ n. e n ∙ r n
  same-Reaches (some g) h h' e (n, f, others) = (n, e n ∙ f, λ k o. e k ∙ others k o)

  fire-active : (n : ℕ) (o : _) (c : Client W) → (fire n o c).active_cancel ≡ c.active_cancel
  unfolding fire
  fire-active n o c = ground arith

  cancel-active : (c : Client W) → (cancel c).active_cancel ≡ c.active_cancel
  unfolding cancel
  cancel-active c = elim (Option-cases c.active_cancel) [
    | inl e ↦ ground (arith, e)
    | inr (handle, e) ↦ ground (arith, e)
  ]

  -- A goal that is answered was the one in flight, so that none is left.
  answered :
      (m : ℕ) (h : List (Event W)) (active : Option ℕ) (handle : ℕ)
      → in_flight m h ≡ some handle
      → Reaches active h
      → (k : ℕ) → (if m == k then none else in_flight k h) ≡ none
  answered m h none handle e r k = ground (arith, r k)
  answered m h (some g) handle e (n, f, others) k = elim (Bool-cases (n == m)) [
    | inr other ↦ absurd (cc (others m other, e))
    | inl same ↦ ground (arith, same, others k)
  ]

  cancel-silent : (c : Client W) → c.active_cancel ≡ none → cancel c ≡ c
  unfolding cancel
  cancel-silent c e = ground (arith, e)

  cancel-speaks :
      (c : Client W) (g : ℕ) → c.active_cancel ≡ some g → (cancel c).log ≡ cancels g ∷ c.log
  unfolding cancel
  cancel-speaks c g e = ground (arith, e)

  in_flight-active :
      (x : Option ℕ) (h : List (Event W)) (n g : ℕ)
      → in_flight n h ≡ some g
      → Reaches x h
      → x ≡ some g
  in_flight-active none h n g e r = absurd (cc (r n, e))
  in_flight-active (some x) h n g e (m, f, others) = elim (Bool-cases (m == n)) [
    | inl same ↦ sym f ∙ ap (λ k. in_flight k h) ((ℕ_eq.equals_iff m n).0 same) ∙ e
    | inr other ↦ absurd (cc (others n other, e))
  ]

  none-active : (x : Option ℕ) (h : List (Event W)) → NoneInFlight h → Reaches x h → x ≡ none
  none-active none h e r = refl
  none-active (some x) h e (m, f, others) = absurd (cc (e m, f))

module _ {W : Type 0} ⦃d : Double W⦄ where
  dispatch-active :
      (m : ℕ) (a : Bool) (c : Client W) → (dispatch m a c).active_cancel ≡ c.active_cancel
  unfolding dispatch
  dispatch-active m true c = refl
  dispatch-active m false c = fire-active m _ c

  after-Reaches : (h : List (Event W)) → OneAtATime h → Reaches (after h).active_cancel h
  unfolding after step on_response on_result
  after-Reaches [] o = λ n. refl
  after-Reaches (dispatched m a ∷ h) o =
      subst (λ x. Reaches x (dispatched m a ∷ h)) (sym (dispatch-active m a (after h)))
        (same-Reaches _ h _ (λ n. refl) (after-Reaches h o))
  after-Reaches (responded m none ∷ h) o =
      subst (λ x. Reaches x (responded m none ∷ h)) (sym (fire-active m _ (after h)))
        (same-Reaches _ h _ (λ n. refl) (after-Reaches h o))
  after-Reaches (responded m (some g) ∷ h) (empty, o) =
      (m, ground arith, λ k other. ground (arith, other, empty k))
  after-Reaches (finished m wr ∷ h) ((handle, e), o) =
      subst (λ x. Reaches x (finished m wr ∷ h))
        (sym (fire-active m _ (record (after h) { active_cancel = none })))
        (answered m h (after h).active_cancel handle e (after-Reaches h o))
  after-Reaches (canceled ∷ h) o =
      subst (λ x. Reaches x (canceled ∷ h)) (sym (cancel-active (after h)))
        (same-Reaches _ h _ (λ n. refl) (after-Reaches h o))

  -- A cancel reaches the plan in flight, with a planner that takes one plan at a time (it accepts a
  -- goal only when it has answered all others, and answers only goals that it has accepted): after
  -- any history of callbacks, cancel() asks to cancel the goal that the planner has accepted and not
  -- answered, and when there is none it does nothing.
  pub cancel_reaches_plan :
      (h : List (Event W))
      → OneAtATime h
      → ((n handle : ℕ)
          → in_flight n h ≡ some handle
          → (cancel (after h)).log ≡ cancels handle ∷ (after h).log)
        × (NoneInFlight h → cancel (after h) ≡ after h)
  cancel_reaches_plan h o = (
    λ n handle e.
        cancel-speaks (after h) handle
          (in_flight-active (after h).active_cancel h n handle e (after-Reaches h o)),
    λ e. cancel-silent (after h) (none-active (after h).active_cancel h e (after-Reaches h o)),
  )
