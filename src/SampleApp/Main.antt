-- ===== src/SampleApp/Main.antt =====
-- demo/sample-app/main.go: from the environment to the end of the process. `Run`, with its context,
-- is a parameter here; Server.Lifecycle has its steps.
use kubetraffic.Prelude.{ℕ, Str, bytes, Option, none, some}
use kubetraffic.SampleApp.Floats.{Floats}
use kubetraffic.SampleApp.Config.{Process, from_env}
use kubetraffic.SampleApp.Server.{Server, new_server}

-- The last log line and the exit status.
pub record Ending : Type 0 where
  pub line : Str
  pub status : ℕ

pub main : {F : Type 0} → Floats F → Process → (Server F → Option Str) → Ending
main fl p run = elim (run (new_server fl (from_env fl p))) [
  | some e ↦ record { line = bytes "server exited with error"; status = 1 }
  | none ↦ record { line = bytes "server stopped cleanly"; status = 0 }
]
