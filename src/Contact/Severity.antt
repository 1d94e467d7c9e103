-- ===== src/Contact/Severity.antt =====
-- contact_diagnostics: the level of the page.
use kinova_gen3_ros.Common.{◌≡◌, ◌↔◌, ◌≢◌, true, none, arith}
use kinova_gen3_ros.Common.Text.{String}
use kinova_gen3_ros.Driver.{ContactState, armed, enforce}
use kinova_gen3_ros.Diagnostics.{ok, error}
use kinova_gen3_ros.Externals.{Double}
use kinova_gen3_ros.Mapping.Limits.{contact_rejection, contact_refused_iff}
use kinova_gen3_ros.Contact.Page.{contact_diagnostics, phase_page}

module _ {W : Type 0} ⦃d : Double W⦄ where
  -- The page agrees with the refusals: it is an error exactly while the detector stops the arm (it
  -- enforces) and new work is refused for a contact stop, and it is OK exactly while the detector is
  -- on, enforces and is armed.
  pub page_matches_refusal :
      (s : ContactState W) (detection : String)
      → (((contact_diagnostics s detection).level ≡ error)
          ↔ ((contact_rejection s ≢ none) × (s.status.detection ≡ enforce)))
        × (((contact_diagnostics s detection).level ≡ ok)
            ↔ ((s.enabled ≡ true) × (s.status.detection ≡ enforce) × (s.status.phase ≡ armed)))
  unfolding contact_diagnostics phase_page
  page_matches_refusal s detection = ground (arith, contact_refused_iff s)
