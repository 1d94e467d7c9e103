-- ===== src/Contact/Thresholds.antt =====
-- to_contact_request and on_set: what is read of a request, and what its answer reports.
use kinova_gen3_ros.Common.{
  ℕ, ◌+◌, ◌≡◌, refl, sym, ap, ◌∙◌, ◌↔◌, ◌⊎◌, Bool, true, false, List, [], ◌∷◌, length, every, ◌==◌,
  ℕ_eq, if◌then◌else◌, arith, Bool-cases, inl, inr,
}
use mathlib.Core.Path.{subst}
use kinova_gen3_ros.Common.Results.{Result, returns, throws, ◌>>=◌, >>=-eq-returns}
use kinova_gen3_ros.Driver.{
  num_joints, ContactProfile, custom_profile, default_profile, sensitive, loose,
}
use kinova_gen3_ros.Externals.{Double}
use kinova_gen3_ros.Mapping.Trajectory.Profile.{copy_into_whole}
use kinova_gen3_ros.Contact.{
  profile_byte, is_custom, read_profile, fill_custom, read_custom, to_contact_request, on_set,
  ask_core, with_active, SetContactThresholds, ContactThresholdsRequest, ContactSink, Blank,
  ContactThresholdsResult,
}

read_profile-byte : (p : ContactProfile) → read_profile (profile_byte p) ≡ returns p
unfolding read_profile profile_byte
read_profile-byte default_profile = refl
read_profile-byte sensitive = refl
read_profile-byte loose = refl
read_profile-byte custom_profile = refl

byte-read_profile : (n : ℕ) (p : ContactProfile) → read_profile n ≡ returns p → profile_byte p ≡ n
unfolding read_profile profile_byte
byte-read_profile n p e = ground (arith, e)

module _ {W : Type 0} ⦃d : Double W⦄ where
  -- A request as the message that asks for it.
  abbrev pub to_message : ContactThresholdsRequest W → SetContactThresholds W
  to_message r = record {
    profile = profile_byte r.profile;
    custom = if is_custom r.profile then r.custom else [];
    token = r.token;
  }

  -- The values that such a request can carry.
  abbrev pub Sendable : Bool → List W → List W → Type 0
  Sendable true held custom = (length custom ≡ num_joints) × (every d.is_finite custom ≡ true)
  Sendable false held custom = custom ≡ held

  fill_custom-finite :
      (i : ℕ) (xs out : List W)
      → length xs ≡ length out
      → every d.is_finite xs ≡ true
      → fill_custom i xs out ≡ returns xs
  unfolding fill_custom
  fill_custom-finite i [] [] l f = refl
  fill_custom-finite i [] (o ∷ out) l f = absurd (omega arith)
  fill_custom-finite i (x ∷ xs) [] l f = absurd (omega arith)
  fill_custom-finite i (x ∷ xs) (o ∷ out) l f = ground (arith, f, fill_custom-finite (i + 1) xs out)

  fill_custom-returns :
      (i : ℕ) (xs out ys : List W)
      → length xs ≡ length out
      → fill_custom i xs out ≡ returns ys
      → (every d.is_finite xs ≡ true) × (ys ≡ xs)
  unfolding fill_custom
  fill_custom-returns i [] [] ys l e = ground (arith, e)
  fill_custom-returns i [] (o ∷ out) ys l e = absurd (omega arith)
  fill_custom-returns i (x ∷ xs) [] ys l e = absurd (omega arith)
  fill_custom-returns i (x ∷ xs) (o ∷ out) ys l e = elim (Bool-cases (d.is_finite x)) [
    | inl y ↦
        let (zs, p, q) =
          >>=-eq-returns (fill_custom (i + 1) xs out) (λ f. returns (x ∷ f)) {b = ys}
            (ground (arith, e, y)) in
        let (f, s) = fill_custom-returns (i + 1) xs out zs (omega arith) p in
        ground (arith, y, f, s, q)
    | inr n ↦ absurd (ground (arith, e, n))
  ]

  read_custom-Sendable :
      (c : Bool) (held custom : List W)
      → length held ≡ num_joints
      → Sendable c held custom
      → read_custom c (if c then custom else []) held ≡ returns custom
  unfolding read_custom
  read_custom-Sendable true held custom l s =
      ground (arith, s.0, fill_custom-finite 0 custom held (omega (arith, s.0, l)) s.1)
  read_custom-Sendable false held custom l s = ground (arith, s)

  -- What was read as `ys` is sendable, and is written back as it came.
  read_custom-returns :
      (c : Bool) (held custom ys : List W)
      → length held ≡ num_joints
      → read_custom c custom held ≡ returns ys
      → Sendable c held ys × ((if c then ys else []) ≡ custom)
  unfolding read_custom
  read_custom-returns true held custom ys l e = elim (Bool-cases (length custom == num_joints)) [
    | inl y ↦
        let sized : length custom ≡ num_joints = ground (arith, y) in
        let (f, same) =
          fill_custom-returns 0 custom held ys (omega (arith, sized, l)) (ground (arith, e, y)) in
        ground (arith, f, same, sized)
    | inr n ↦ absurd (ground (arith, e, n))
  ]
  read_custom-returns false held [] ys l e = ground (arith, e)
  read_custom-returns false held (x ∷ xs) ys l e = absurd (ground (arith, e))

  -- Reading a request and writing it as a message are inverse: a message is accepted as the request
  -- `r` exactly when `r`, written as a message, is that message, and `r` can be sent: with the custom
  -- profile it has seven finite values, with a named one the values that `out` held before, which
  -- has seven entries.
  pub read_iff_written :
      (req : SetContactThresholds W) (out r : ContactThresholdsRequest W)
      → length out.custom ≡ num_joints
      → (to_contact_request req out ≡ returns r)
        ↔ ((to_message r ≡ req) × Sendable (is_custom r.profile) out.custom r.custom)
  unfolding to_contact_request
  read_iff_written req out r l = (read, written)
    where
      read :
          to_contact_request req out ≡ returns r
          → (to_message r ≡ req) × Sendable (is_custom r.profile) out.custom r.custom
      read e =
          let (p, named, e₁) =
            >>=-eq-returns (read_profile req.profile)
              (λ p.
                (read_custom (is_custom p) req.custom out.custom >>= λ custom.
                returns (record { profile = p; custom = custom; token = req.token })))
              e in
          let (ys, filled, e₂) =
            >>=-eq-returns (read_custom (is_custom p) req.custom out.custom) _ e₁ in
          let (sent, back) = read_custom-returns (is_custom p) out.custom req.custom ys l filled in
          let same : record { profile = p; custom = ys; token = req.token } ≡ r = cc e₂ in
          subst (λ r. (to_message r ≡ req) × Sendable (is_custom r.profile) out.custom r.custom)
            same (cc (byte-read_profile req.profile p named, back), sent)

      written :
          (to_message r ≡ req) × Sendable (is_custom r.profile) out.custom r.custom
          → to_contact_request req out ≡ returns r
      written h = rw (← h.0) (
          rw
            (
              read_profile-byte r.profile,
              read_custom-Sendable (is_custom r.profile) out.custom r.custom l h.1,
            )
            refl)

-- What core documents of a set: an accepted one answers with what is then active, and a refused one
-- changes nothing. The thresholds are seven.
pub record IsHonest {W S : Type 0} (sink : ContactSink W S) : Type 0 where
  pub accepted_active :
      (s : S) (r : ContactThresholdsRequest W)
      → let answer = sink.set_contact_thresholds s r in
        (answer.1).accepted ≡ true
        → ((answer.1).profile ≡ (sink.query_contact answer.0).profile)
          × ((answer.1).theta ≡ (sink.query_contact answer.0).status.theta)
  pub refused_kept :
      (s : S) (r : ContactThresholdsRequest W)
      → ((sink.set_contact_thresholds s r).1).accepted ≡ false
      → (sink.set_contact_thresholds s r).0 ≡ s
  pub theta_sized : (s : S) → length (sink.query_contact s).status.theta ≡ num_joints

module _ {W S : Type 0} ⦃d : Double W⦄ (sink : ContactSink W S) (blank : Blank W) where
  abbrev IsActive : S → ContactThresholdsResult W → Type 0
  IsActive s out =
      (out.profile ≡ (sink.query_contact s).profile)
      × (out.theta ≡ (sink.query_contact s).status.theta)

  with_active-IsActive :
      (s : S) (out : ContactThresholdsResult W)
      → (out.accepted ≡ true → IsActive s out)
      → IsActive s (with_active sink blank s out)
  with_active-IsActive s out h = elim (Bool-cases out.accepted) [
    | inl y ↦ ground (arith, y, h y)
    | inr n ↦ ground (arith, n)
  ]

  ask_core_lem :
      IsHonest sink
      → blank.result.accepted ≡ false
      → (asked : Result (ContactThresholdsRequest W)) (s : S)
      → let answer = ask_core sink blank asked s in
        ((answer.1).accepted ≡ true → IsActive answer.0 answer.1)
        × (((answer.1).accepted ≡ true) ⊎ (answer.0 ≡ s))
  ask_core_lem h fresh (throws why) s = (λ e. cc (e, fresh), inr refl)
  ask_core_lem h fresh (returns r) s = (
    h.accepted_active s r,
    elim (Bool-cases ((sink.set_contact_thresholds s r).1).accepted) [
      | inl y ↦ inl y
      | inr n ↦ inr (h.refused_kept s r n)
    ],
  )

  -- Whatever is asked, the answer to /set_contact_thresholds reports the profile and the thresholds
  -- that are active after the call, and a call that is not accepted has changed nothing, over a core that answers
  -- an accepted set with what is then active and changes nothing on a refused one.
  pub set_reports_active :
      IsHonest sink
      → blank.result.accepted ≡ false
      → length blank.thresholds ≡ num_joints
      → (req : SetContactThresholds W) (s : S)
      → let after = on_set sink blank req s in
        ((after.1).profile ≡ profile_byte (sink.query_contact after.0).profile)
        × ((after.1).thresholds ≡ (sink.query_contact after.0).status.theta)
        × (((after.1).accepted ≡ true) ⊎ (after.0 ≡ s))
  unfolding on_set
  set_reports_active h fresh sized req s =
      let asked = ask_core sink blank (to_contact_request req blank.request) s in
      let (active, kept) = ask_core_lem h fresh (to_contact_request req blank.request) s in
      let (profile, theta) = with_active-IsActive asked.0 asked.1 active in
      let whole : length (with_active sink blank asked.0 asked.1).theta ≡ length blank.thresholds =
        ap length theta ∙ h.theta_sized asked.0 ∙ sym sized in
      (ap profile_byte profile, copy_into_whole blank.thresholds _ whole ∙ theta, kept)
