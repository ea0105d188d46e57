-- ===== src/Sentinel/Pods/Privilege.antt =====
-- The checks of a container's privileges: pod_root.go, pod_privileged.go,
-- pod_privilege_escalation.go and pod_readonly_rootfs.go.
use yby_cli.Prelude.{
  String, Bool, true, false, not, ◌&&◌, List, [], ◌∷◌, ◌++◌, none, some, flat_map, cat, nat_eq,
  eq_String, is_none,
}
use yby_cli.Sentinel.Kube.{Container, Pod}
use yby_cli.Sentinel.Finding.{SecurityFinding, SecurityCheck}
use yby_cli.Sentinel.Pods.{all_containers, context_field, value_or, when, run_pods}

-- pod_root.go: containers that run as UID 0, or do not define runAsNonRoot
unfoldable pub uid_zero_finding : String → Pod → Container → SecurityFinding
uid_zero_finding namespace pod container = record {
  check_id = "POD_ROOT_CONTAINER";
  severity = "critical";
  category = "pod-security";
  pod = pod.name;
  container = container.name;
  namespace = namespace;
  resource = cat (pod.name ∷ "/" ∷ container.name ∷ []);
  message =
      cat (
        "Container '" ∷ container.name ∷ "' no pod '" ∷ pod.name ∷ "' roda como root (UID 0)" ∷ []);
  recommendation = "Defina runAsNonRoot: true e runAsUser com UID não-root no securityContext";
  type = "critical";
  description =
      cat (
        "Container '" ∷ container.name ∷ "' no pod '" ∷ pod.name ∷ "' roda como root (UID 0)" ∷ []);
}

unfoldable pub non_root_finding : String → Pod → Container → SecurityFinding
non_root_finding namespace pod container = record {
  check_id = "POD_ROOT_CONTAINER";
  severity = "high";
  category = "pod-security";
  pod = pod.name;
  container = container.name;
  namespace = namespace;
  resource = cat (pod.name ∷ "/" ∷ container.name ∷ []);
  message = cat (
      "Container '" ∷ container.name ∷ "' no pod '" ∷ pod.name ∷ "' não define runAsNonRoot=true"
      ∷ []);
  recommendation = "Adicione securityContext.runAsNonRoot: true ao container";
  type = "warning";
  description = cat (
      "Container '" ∷ container.name ∷ "' no pod '" ∷ pod.name ∷ "' não define runAsNonRoot=true"
      ∷ []);
}

unfoldable pub runs_as_root : Container → Bool
runs_as_root container = elim (context_field (λ sc. sc.run_as_user) container) [
  | none ↦ false
  | some uid ↦ nat_eq uid 0
]

-- neither runAsNonRoot=true nor a user id
unfoldable pub lacks_non_root : Container → Bool
lacks_non_root container =
    not (value_or false (context_field (λ sc. sc.run_as_non_root) container))
    && is_none (context_field (λ sc. sc.run_as_user) container)

unfoldable pub root_container : String → Pod → List SecurityFinding
unfolding runs_as_root lacks_non_root
root_container namespace pod =
    flat_map
      (λ container.
        when (runs_as_root container) (uid_zero_finding namespace pod container)
        ++ when (lacks_non_root container) (non_root_finding namespace pod container))
      pod.containers

abbrev pub root_container_check : SecurityCheck
root_container_check = record {
  id = "POD_ROOT_CONTAINER";
  name = "Container como Root";
  category = "pod-security";
  severity = "critical";
  description = "Detecta containers rodando como UID 0 ou sem runAsNonRoot definido";
  run = run_pods root_container;
}

-- pod_privileged.go: containers with privileged: true
unfoldable pub privileged_finding : String → Pod → Container → SecurityFinding
privileged_finding namespace pod container = record {
  check_id = "POD_PRIVILEGED";
  severity = "critical";
  category = "pod-security";
  pod = pod.name;
  container = container.name;
  namespace = namespace;
  resource = cat (pod.name ∷ "/" ∷ container.name ∷ []);
  message = cat (
      "Container '" ∷ container.name ∷ "' no pod '" ∷ pod.name ∷ "' roda em modo privilegiado"
      ∷ []);
  recommendation =
      "Remova securityContext.privileged: true — containers privilegiados têm acesso irrestrito ao host";
  type = "critical";
  description = cat (
      "Container '" ∷ container.name ∷ "' no pod '" ∷ pod.name ∷ "' roda em modo privilegiado"
      ∷ []);
}

unfoldable pub privileged : String → Pod → List SecurityFinding
unfolding all_containers
privileged namespace pod =
    flat_map
      (λ container.
        when (value_or false (context_field (λ sc. sc.privileged) container))
          (privileged_finding namespace pod container))
      (all_containers pod)

abbrev pub privileged_check : SecurityCheck
privileged_check = record {
  id = "POD_PRIVILEGED";
  name = "Container Privilegiado";
  category = "pod-security";
  severity = "critical";
  description = "Detecta containers rodando em modo privilegiado";
  run = run_pods privileged;
}

-- pod_privilege_escalation.go: containers that may escalate privileges
unfoldable pub privilege_escalation_finding : String → Pod → Container → SecurityFinding
privilege_escalation_finding namespace pod container = record {
  check_id = "POD_PRIVILEGE_ESCALATION";
  severity = "medium";
  category = "pod-security";
  pod = pod.name;
  container = container.name;
  namespace = namespace;
  resource = cat (pod.name ∷ "/" ∷ container.name ∷ []);
  message = cat (
      "Container '" ∷ container.name ∷ "' no pod '" ∷ pod.name
      ∷ "' permite escalação de privilégios" ∷ []);
  recommendation = "Defina securityContext.allowPrivilegeEscalation: false";
  type = "warning";
  description = cat (
      "Container '" ∷ container.name ∷ "' no pod '" ∷ pod.name
      ∷ "' permite escalação de privilégios" ∷ []);
}

unfoldable pub privilege_escalation : String → Pod → List SecurityFinding
unfolding all_containers
privilege_escalation namespace pod =
    flat_map
      (λ container.
        when (value_or true (context_field (λ sc. sc.allow_privilege_escalation) container))
          (privilege_escalation_finding namespace pod container))
      (all_containers pod)

abbrev pub privilege_escalation_check : SecurityCheck
privilege_escalation_check = record {
  id = "POD_PRIVILEGE_ESCALATION";
  name = "Escalação de Privilégios";
  category = "pod-security";
  severity = "medium";
  description = "Detecta containers com allowPrivilegeEscalation habilitado";
  run = run_pods privilege_escalation;
}

-- pod_readonly_rootfs.go: containers with a writable root file system
unfoldable pub readonly_rootfs_finding : String → Pod → Container → SecurityFinding
readonly_rootfs_finding namespace pod container = record {
  check_id = "POD_READONLY_ROOTFS";
  severity = "low";
  category = "pod-security";
  pod = pod.name;
  container = container.name;
  namespace = namespace;
  resource = cat (pod.name ∷ "/" ∷ container.name ∷ []);
  message = cat (
      "Container '" ∷ container.name ∷ "' no pod '" ∷ pod.name
      ∷ "' não possui readOnlyRootFilesystem: true" ∷ []);
  recommendation =
      "Defina securityContext.readOnlyRootFilesystem: true e use volumes para diretórios que precisam de escrita";
  type = "warning";
  description = cat (
      "Container '" ∷ container.name ∷ "' no pod '" ∷ pod.name
      ∷ "' não possui readOnlyRootFilesystem: true" ∷ []);
}

unfoldable pub readonly_rootfs : String → Pod → List SecurityFinding
unfolding all_containers
readonly_rootfs namespace pod =
    flat_map
      (λ container.
        when (not (value_or false (context_field (λ sc. sc.read_only_root_filesystem) container)))
          (readonly_rootfs_finding namespace pod container))
      (all_containers pod)

abbrev pub readonly_rootfs_check : SecurityCheck
readonly_rootfs_check = record {
  id = "POD_READONLY_ROOTFS";
  name = "Root Filesystem Somente-Leitura";
  category = "pod-security";
  severity = "low";
  description = "Detecta containers sem readOnlyRootFilesystem: true";
  run = run_pods readonly_rootfs;
}
