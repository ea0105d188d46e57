-- ===== src/Sentinel/Pods/LinuxCapabilities.antt =====
-- pod_capabilities.go: containers with SYS_ADMIN, or without drop ALL.
use yby_cli.Prelude.{
  String, Bool, false, not, List, [], ◌∷◌, ◌++◌, none, some, any, flat_map, cat, ◌==◌, eq_String,
}
use yby_cli.Sentinel.Kube.{Container, Pod}
use yby_cli.Sentinel.Finding.{SecurityFinding, SecurityCheck}
use yby_cli.Sentinel.Pods.{all_containers, context_field, when, run_pods}

unfoldable pub sys_admin_finding : String → Pod → Container → SecurityFinding
sys_admin_finding namespace pod container = record {
  check_id = "POD_CAPABILITIES";
  severity = "critical";
  category = "pod-security";
  pod = pod.name;
  container = container.name;
  namespace = namespace;
  resource = cat (pod.name ∷ "/" ∷ container.name ∷ []);
  message = cat (
      "Container '" ∷ container.name ∷ "' no pod '" ∷ pod.name ∷ "' possui capability SYS_ADMIN"
      ∷ []);
  recommendation =
      "Remova a capability SYS_ADMIN — ela concede privilégios quase equivalentes a root";
  type = "critical";
  description = cat (
      "Container '" ∷ container.name ∷ "' no pod '" ∷ pod.name ∷ "' possui capability SYS_ADMIN"
      ∷ []);
}

unfoldable pub no_drop_all_finding : String → Pod → Container → SecurityFinding
no_drop_all_finding namespace pod container = record {
  check_id = "POD_CAPABILITIES";
  severity = "medium";
  category = "pod-security";
  pod = pod.name;
  container = container.name;
  namespace = namespace;
  resource = cat (pod.name ∷ "/" ∷ container.name ∷ []);
  message = cat (
      "Container '" ∷ container.name ∷ "' no pod '" ∷ pod.name
      ∷ "' não possui drop ALL nas capabilities" ∷ []);
  recommendation =
      "Adicione securityContext.capabilities.drop: [\"ALL\"] e adicione apenas as capabilities necessárias";
  type = "warning";
  description = cat (
      "Container '" ∷ container.name ∷ "' no pod '" ∷ pod.name
      ∷ "' não possui drop ALL nas capabilities" ∷ []);
}

unfoldable pub added_capabilities : Container → List String
added_capabilities container = elim (context_field (λ sc. sc.capabilities) container) [
  | none ↦ []
  | some cs ↦ cs.add
]

unfoldable pub has_drop_all : Container → Bool
has_drop_all container = elim (context_field (λ sc. sc.capabilities) container) [
  | none ↦ false
  | some cs ↦ any (λ c. c == "ALL") cs.drop
]

unfoldable pub capabilities : String → Pod → List SecurityFinding
unfolding all_containers added_capabilities has_drop_all
capabilities namespace pod =
    flat_map
      (λ container.
        flat_map (λ c. when (c == "SYS_ADMIN") (sys_admin_finding namespace pod container))
          (added_capabilities container)
        ++ when (not (has_drop_all container)) (no_drop_all_finding namespace pod container))
      (all_containers pod)

abbrev pub capabilities_check : SecurityCheck
capabilities_check = record {
  id = "POD_CAPABILITIES";
  name = "Capabilities Linux";
  category = "pod-security";
  severity = "medium";
  description = "Detecta capabilities perigosas ou ausência de drop ALL";
  run = run_pods capabilities;
}
