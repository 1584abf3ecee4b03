-- ===== src/Acme/System/Logged.antt =====
-- However requests and goroutines interleave, a certificate is made over a proof that leads from its log
-- entry to the root of a checkpoint that was saved.
use ca_extension_mtc_playgro.Prelude.{both}
use ca_extension_mtc_playgro.Prelude.{both, List, All}
use ca_extension_mtc_playgro.Bytes.{Bytes}
use ca_extension_mtc_playgro.Log.WellFormed.{IsLog}
use ca_extension_mtc_playgro.Log.Checkpoint.{Checkpoint}
use ca_extension_mtc_playgro.Acme.Thread.{Thread}
use ca_extension_mtc_playgro.Acme.System.{Server}
use ca_extension_mtc_playgro.Acme.System.Placed.{Rests}

module _ (sha256 : Bytes → Bytes) where
  -- The log is well formed, and the threads may rely on it.
  pub record LogInOrder (w : Server) : Type 0 where
    pub is_log : IsLog sha256 w.shared.log
    pub rests : All (λ t. Rests sha256 t w.shared) w.threads
