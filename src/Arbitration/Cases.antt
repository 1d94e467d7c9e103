-- ===== src/Arbitration/Cases.antt =====
-- arbitration_server.cpp: the ways in which on_release and on_estop end.
use kinova_gen3_ros.Common.{
  ℕ, ◌≡◌, ◌≢◌, ap, ◌⊎◌, inl, inr, arith, Bool-cases, if_yes, if_no, Bool, true, false, not, ◌&&◌,
  ◌||◌, is_empty, ◌==◌, ℕ_eq, string_eq, if◌then◌else◌,
}
use kinova_gen3_ros.Driver.{Token}
use kinova_gen3_ros.Arbitration.{
  ArbitrationSink, Server, EStop, ReleaseResponse, contains, insert, erase, forget_token,
  publish_status_if_changed, on_release, on_estop,
}

-- A release is refused, or it revokes the ownership and forgets the token.
module _ {S : Type 0} (a : ArbitrationSink S) (now : ℕ) (token : Token) (v : Server S) where
  pub on_release_cases {ℓ} :
      (P : Server S × ReleaseResponse → Type ℓ)
      → ((v.have_retained && token == v.retained_token) ≡ false
          → P (v, record { released = false; message = "token does not match the current owner" }))
      → ((v.have_retained && token == v.retained_token) ≡ true
          → P (
            publish_status_if_changed a now (forget_token (record v { arb = a.revoke v.arb })),
            record { released = true; message = "" },
          ))
      → P (on_release a now token v)
  unfolding on_release
  on_release_cases P refused released =
      elim (Bool-cases (v.have_retained && token == v.retained_token)) [
        | inl e ↦ rw (if_no _ _ (ap not e)) (released e)
        | inr e ↦ rw (if_yes _ _ (ap not e)) (refused e)
      ]

-- The five ways in which an e-stop message ends, with the state that each leaves.
module _ {S : Type 0} (a : ArbitrationSink S) (now : ℕ) (m : EStop) (v : Server S) where
  abbrev pub stopped_by : Server S
  stopped_by = publish_status_if_changed a now (
      forget_token
        (record v { arb = a.estop v.arb; engaged_sources = insert m.source v.engaged_sources }))

  abbrev pub released_by : Server S
  released_by =
      publish_status_if_changed a now
        (record v { arb = a.estop_clear v.arb; engaged_sources = erase m.source v.engaged_sources })

  pub on_estop_cases {ℓ} :
      (P : Server S → Type ℓ)
      → (m.state ≢ 0 → P stopped_by)
      → (m.state ≢ 0
          → contains m.source v.engaged_sources ≡ true
          → (a.status v.arb).estopped ≡ true
          → P (record v { engaged_sources = insert m.source v.engaged_sources }))
      → (m.state ≡ 0
          → (m.clear_target == "" ≡ false) ⊎ (contains m.source v.engaged_sources ≡ false)
          → P v)
      → (m.state ≡ 0
          → m.clear_target == "" ≡ true
          → contains m.source v.engaged_sources ≡ true
          → is_empty (erase m.source v.engaged_sources) ≡ false
          → P (record v { engaged_sources = erase m.source v.engaged_sources }))
      → (m.state ≡ 0
          → m.clear_target == "" ≡ true
          → contains m.source v.engaged_sources ≡ true
          → is_empty (erase m.source v.engaged_sources) ≡ true
          → P released_by)
      → P (on_estop a now m v)
  unfolding on_estop
  on_estop_cases P stopped again ignored fewer released = elim (Bool-cases (m.state == 0)) [
    | inr e ↦
        rw (if_yes _ _ (ap not e)) (elim (Bool-cases (first || not (a.status v.arb).estopped)) [
          | inl t ↦ rw (if_yes _ _ t) (stopped (ground arith))
          | inr t ↦ rw (if_no _ _ t) (again (ground arith) (ground arith) (ground arith))
        ])
    | inl e ↦ rw (if_no _ _ (ap not e)) (elim (Bool-cases (m.clear_target == "")) [
      | inr c ↦ rw (if_yes _ _ (ap not c)) (ignored (ground arith) (inl c))
      | inl c ↦ rw (if_no _ _ (ap not c)) (elim (Bool-cases (contains m.source v.engaged_sources)) [
        | inr k ↦ rw (if_yes _ _ (ap not k)) (ignored (ground arith) (inr k))
        | inl k ↦ rw (if_no _ _ (ap not k)) (left c k (ground arith))
      ])
    ])
  ]
    where
      first : Bool
      first = not (contains m.source v.engaged_sources)

      left :
          m.clear_target == "" ≡ true
          → contains m.source v.engaged_sources ≡ true
          → m.state ≡ 0
          → P (
              if not (is_empty (erase m.source v.engaged_sources))
              then record v { engaged_sources = erase m.source v.engaged_sources }
              else released_by)
      left c k e = elim (Bool-cases (is_empty (erase m.source v.engaged_sources))) [
        | inl n ↦ rw (if_no _ _ (ap not n)) (released e c k n)
        | inr n ↦ rw (if_yes _ _ (ap not n)) (fewer e c k n)
      ]
