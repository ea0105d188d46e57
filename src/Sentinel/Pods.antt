-- ===== src/Sentinel/Pods.antt =====
-- plugins/sentinel/cli/checks/pod_*.go: what the pod checks share.
pub mod Privilege
pub mod LinuxCapabilities
pub mod Resources
pub mod Spec
pub mod Hardened
pub mod Shape
pub mod Tests
use yby_cli.Prelude.{
  ℕ, String, Bool, true, false, not, ◌&&◌, ◌||◌, List, [], ◌∷◌, ◌++◌, Option, none, some, any,
  flat_map, filter, map, cat, nat_eq, ◌==◌, eq_String, if◌then◌else◌,
}
use yby_cli.Prelude.Result.{Result, ok, err, ◌>>=◌}
use yby_cli.Sentinel.Kube.{Capabilities, SecurityContext, Limits, EnvVar, Container, Pod, Client}
use yby_cli.Sentinel.Finding.{SecurityFinding, SecurityCheck}

-- `append(pod.Spec.Containers, pod.Spec.InitContainers...)`
unfoldable pub all_containers : Pod → List Container
all_containers pod = pod.containers ++ pod.init_containers

-- The field of a security context behind two pointers.
abbrev pub context_field : {A : Type 0} → (SecurityContext → Option A) → Container → Option A
context_field f container = elim container.security_context [ none ↦ none | some sc ↦ f sc ]

-- The value behind a pointer, or a default for nil.
abbrev pub value_or : Bool → Option Bool → Bool
value_or d none = d
value_or d (some b) = b

-- `if b { findings = append(findings, f) }`
abbrev pub when {ℓ} : {A : Type ℓ} → Bool → A → List A
when b f = if b then f ∷ [] else []

-- The `Run` of a pod check: the pods of the namespace are listed, and each adds its findings.
unfoldable pub run_pods :
    (String → Pod → List SecurityFinding) → Client → String → Result String (List SecurityFinding)
run_pods check client namespace = elim (client.list_pods namespace) [
  | ok pods ↦ ok (flat_map (check namespace) pods)
  | err e ↦ err (cat ("falha ao listar pods: " ∷ e ∷ []))
]
