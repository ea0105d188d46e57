-- ===== src/Sentinel/Pods/Spec.antt =====
-- The checks of a pod as a whole: pod_host_namespaces.go, pod_seccomp.go and
-- pod_service_account.go.
use yby_cli.Prelude.{String, true, not, List, [], ◌∷◌, ◌++◌, cat, eq_String}
use yby_cli.Sentinel.Kube.{Pod}
use yby_cli.Sentinel.Finding.{SecurityFinding, SecurityCheck}
use yby_cli.Sentinel.Pods.{value_or, when, run_pods}

-- pod_host_namespaces.go: pods in a namespace of the host
unfoldable pub host_pid_finding : String → Pod → SecurityFinding
host_pid_finding namespace pod = record {
  check_id = "POD_HOST_NAMESPACES";
  severity = "high";
  category = "pod-security";
  pod = pod.name;
  container = "";
  namespace = namespace;
  resource = pod.name;
  message = cat ("Pod '" ∷ pod.name ∷ "' usa hostPID — acesso ao namespace PID do host" ∷ []);
  recommendation = "Remova hostPID: true a menos que seja estritamente necessário";
  type = "critical";
  description = cat ("Pod '" ∷ pod.name ∷ "' usa hostPID — acesso ao namespace PID do host" ∷ []);
}

unfoldable pub host_ipc_finding : String → Pod → SecurityFinding
host_ipc_finding namespace pod = record {
  check_id = "POD_HOST_NAMESPACES";
  severity = "high";
  category = "pod-security";
  pod = pod.name;
  container = "";
  namespace = namespace;
  resource = pod.name;
  message = cat ("Pod '" ∷ pod.name ∷ "' usa hostIPC — acesso ao namespace IPC do host" ∷ []);
  recommendation = "Remova hostIPC: true a menos que seja estritamente necessário";
  type = "critical";
  description = cat ("Pod '" ∷ pod.name ∷ "' usa hostIPC — acesso ao namespace IPC do host" ∷ []);
}

unfoldable pub host_network_finding : String → Pod → SecurityFinding
host_network_finding namespace pod = record {
  check_id = "POD_HOST_NAMESPACES";
  severity = "high";
  category = "pod-security";
  pod = pod.name;
  container = "";
  namespace = namespace;
  resource = pod.name;
  message = cat ("Pod '" ∷ pod.name ∷ "' usa hostNetwork — acesso direto à rede do host" ∷ []);
  recommendation = "Remova hostNetwork: true e use Services/Ingress para exposição de rede";
  type = "critical";
  description = cat ("Pod '" ∷ pod.name ∷ "' usa hostNetwork — acesso direto à rede do host" ∷ []);
}

unfoldable pub host_namespaces : String → Pod → List SecurityFinding
host_namespaces namespace pod =
    when pod.host_pid (host_pid_finding namespace pod)
    ++ (when pod.host_ipc (host_ipc_finding namespace pod)
        ++ when pod.host_network (host_network_finding namespace pod))

abbrev pub host_namespaces_check : SecurityCheck
host_namespaces_check = record {
  id = "POD_HOST_NAMESPACES";
  name = "Host Namespaces";
  category = "pod-security";
  severity = "high";
  description = "Detecta pods com hostPID, hostIPC ou hostNetwork habilitados";
  run = run_pods host_namespaces;
}

-- pod_seccomp.go: pods without a seccomp profile
unfoldable pub seccomp_finding : String → Pod → SecurityFinding
seccomp_finding namespace pod = record {
  check_id = "POD_SECCOMP";
  severity = "low";
  category = "pod-security";
  pod = pod.name;
  container = "";
  namespace = namespace;
  resource = pod.name;
  message = cat ("Pod '" ∷ pod.name ∷ "' não possui perfil seccomp definido" ∷ []);
  recommendation = "Defina spec.securityContext.seccompProfile.type: RuntimeDefault";
  type = "warning";
  description = cat ("Pod '" ∷ pod.name ∷ "' não possui perfil seccomp definido" ∷ []);
}

unfoldable pub seccomp : String → Pod → List SecurityFinding
seccomp namespace pod = when (not pod.has_seccomp_profile) (seccomp_finding namespace pod)

abbrev pub seccomp_check : SecurityCheck
seccomp_check = record {
  id = "POD_SECCOMP";
  name = "Perfil Seccomp";
  category = "pod-security";
  severity = "low";
  description = "Detecta pods sem perfil seccomp definido";
  run = run_pods seccomp;
}

-- pod_service_account.go: pods that do not switch the mounted token off
unfoldable pub service_account_finding : String → Pod → SecurityFinding
service_account_finding namespace pod = record {
  check_id = "POD_SERVICE_ACCOUNT_TOKEN";
  severity = "medium";
  category = "pod-security";
  pod = pod.name;
  container = "";
  namespace = namespace;
  resource = pod.name;
  message = cat ("Pod '" ∷ pod.name ∷ "' não desabilita automountServiceAccountToken" ∷ []);
  recommendation =
      "Defina automountServiceAccountToken: false a menos que o pod precise acessar a API do Kubernetes";
  type = "warning";
  description = cat ("Pod '" ∷ pod.name ∷ "' não desabilita automountServiceAccountToken" ∷ []);
}

unfoldable pub service_account : String → Pod → List SecurityFinding
service_account namespace pod =
    when (value_or true pod.automount_service_account_token) (service_account_finding namespace pod)

abbrev pub service_account_check : SecurityCheck
service_account_check = record {
  id = "POD_SERVICE_ACCOUNT_TOKEN";
  name = "Service Account Token Auto-Mount";
  category = "pod-security";
  severity = "medium";
  description = "Detecta pods com automountServiceAccountToken não desabilitado explicitamente";
  run = run_pods service_account;
}
