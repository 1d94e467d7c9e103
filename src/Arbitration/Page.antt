-- ===== src/Arbitration/Page.antt =====
-- ArbitrationServer::diagnostics.
use kinova_gen3_ros.Common.{not, ◌&&◌, [], ◌∷◌, ◌==◌, string_eq, if◌then◌else◌}
use kinova_gen3_ros.Common.Int.{to_int}
use kinova_gen3_ros.Diagnostics.{Page, ok, warn, error, text, flag, integer}
use kinova_gen3_ros.Arbitration.{ArbitrationStatus, is_enforced}

unfoldable pub arbitration_diagnostics : {W : Type 0} → ArbitrationStatus → Page W
arbitration_diagnostics s =
    let values =
      ("arbitration_mode", text (if is_enforced s.mode then "enforced" else "disabled"))
      ∷ ("estopped", flag s.estopped)
      ∷ ("owned", flag s.owned)
      ∷ ("owner_id", text (if s.owner_id == "" then "(none)" else s.owner_id))
      ∷ ("generation", integer (to_int s.generation))
      ∷ ("rejected_count", integer (to_int s.rejected_count))
      ∷ [] in
    if s.estopped
    then record { level = error; message = "E-STOPPED"; values = values }
    else if is_enforced s.mode && not s.owned
    then record { level = warn; message = "no owner"; values = values }
    else record { level = ok; message = "OK"; values = values }
