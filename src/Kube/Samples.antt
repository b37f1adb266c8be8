-- ===== src/Kube/Samples.antt =====
-- A pod that is ready.
use lean_sandbox.Common.{◌≡◌, refl, true, [], ◌∷◌}
use lean_sandbox.Common.Int.{pos}
use lean_sandbox.Common.Text.{text, str_eq}
use lean_sandbox.Common.Dict.{bytes_eq}
use lean_sandbox.Kube.{Pod, ready_condition, pod_ready}

abbrev running : Pod
running = record {
  name = text "lean-sbx-7";
  namespace = text "sandbox";
  created_at = pos 10;
  phase = text "Running";
  conditions =
      record { type = text "Initialized"; status = text "False" }
      ∷ record { type = text "Ready"; status = text "True" }
      ∷ [];
  pod_ip = text "10.0.0.1";
}

ready_running : pod_ready running ≡ true
unfolding pod_ready ready_condition str_eq
ready_running = refl
