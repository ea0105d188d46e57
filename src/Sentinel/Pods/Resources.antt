-- ===== src/Sentinel/Pods/Resources.antt =====
-- The checks of what a container uses: pod_limits.go, pod_pullpolicy.go, pod_secrets.go and
-- pod_host_ports.go. The library calls `strings.ToLower` and the `%d` of `fmt.Sprintf` are
-- parameters.
use yby_cli.Prelude.{
  ℕ, String, Bool, true, not, ◌&&◌, ◌||◌, List, [], ◌∷◌, none, some, flat_map, cat, nat_eq, ◌==◌,
  eq_String, is_some,
}
use yby_cli.Sentinel.Kube.{EnvVar, Container, Pod}
use yby_cli.Sentinel.Finding.{SecurityFinding, SecurityCheck}
use text.Mathlib.Text.{find?}
use yby_cli.Sentinel.Pods.{all_containers, when, run_pods}

-- pod_limits.go: containers without limits of CPU and memory
unfoldable pub resource_limits_finding : String → Pod → Container → SecurityFinding
resource_limits_finding namespace pod container = record {
  check_id = "POD_RESOURCE_LIMITS";
  severity = "medium";
  category = "pod-security";
  pod = pod.name;
  container = container.name;
  namespace = namespace;
  resource = cat (pod.name ∷ "/" ∷ container.name ∷ []);
  message = cat (
      "Container '" ∷ container.name ∷ "' no pod '" ∷ pod.name
      ∷ "' sem limites de CPU/memória definidos" ∷ []);
  recommendation = "Defina resources.limits.cpu e resources.limits.memory no container";
  type = "warning";
  description = cat (
      "Container '" ∷ container.name ∷ "' no pod '" ∷ pod.name
      ∷ "' sem limites de CPU/memória definidos" ∷ []);
}

unfoldable pub lacks_limits : Container → Bool
lacks_limits container = elim container.limits [
  | none ↦ true
  | some limits ↦ limits.cpu_is_zero && limits.memory_is_zero
]

unfoldable pub resource_limits : String → Pod → List SecurityFinding
unfolding lacks_limits
resource_limits namespace pod =
    flat_map
      (λ container. when (lacks_limits container) (resource_limits_finding namespace pod container))
      pod.containers

abbrev pub resource_limits_check : SecurityCheck
resource_limits_check = record {
  id = "POD_RESOURCE_LIMITS";
  name = "Limites de Recursos";
  category = "pod-security";
  severity = "medium";
  description = "Detecta containers sem limites de CPU/memória";
  run = run_pods resource_limits;
}

-- pod_pullpolicy.go: containers whose pull policy is not Always
unfoldable pub image_pull_policy_finding : String → Pod → Container → SecurityFinding
image_pull_policy_finding namespace pod container = record {
  check_id = "POD_IMAGE_PULL_POLICY";
  severity = "low";
  category = "pod-security";
  pod = pod.name;
  container = container.name;
  namespace = namespace;
  resource = cat (pod.name ∷ "/" ∷ container.name ∷ []);
  message = cat (
      "Container '" ∷ container.name ∷ "' no pod '" ∷ pod.name ∷ "' com ImagePullPolicy="
      ∷ container.image_pull_policy ∷ " (recomendado: Always)" ∷ []);
  recommendation =
      "Defina imagePullPolicy: Always para garantir que imagens sejam sempre baixadas do registry";
  type = "warning";
  description = cat (
      "Container '" ∷ container.name ∷ "' no pod '" ∷ pod.name ∷ "' com ImagePullPolicy="
      ∷ container.image_pull_policy ∷ " (recomendado: Always)" ∷ []);
}

unfoldable pub image_pull_policy : String → Pod → List SecurityFinding
image_pull_policy namespace pod =
    flat_map
      (λ container.
        when (not (container.image_pull_policy == "Always"))
          (image_pull_policy_finding namespace pod container))
      pod.containers

abbrev pub image_pull_policy_check : SecurityCheck
image_pull_policy_check = record {
  id = "POD_IMAGE_PULL_POLICY";
  name = "ImagePullPolicy";
  category = "pod-security";
  severity = "low";
  description = "Detecta containers sem ImagePullPolicy=Always";
  run = run_pods image_pull_policy;
}

-- strings.Contains
unfoldable pub text_contains : String → String → Bool
text_contains s part = is_some (find? s part)

-- pod_secrets.go: sensitive variables with a literal value
unfoldable pub exposed_secrets_finding : String → Pod → Container → EnvVar → SecurityFinding
exposed_secrets_finding namespace pod container env = record {
  check_id = "POD_EXPOSED_SECRETS";
  severity = "critical";
  category = "secrets";
  pod = pod.name;
  container = container.name;
  namespace = namespace;
  resource = cat (pod.name ∷ "/" ∷ container.name ∷ []);
  message = cat (
      "Container '" ∷ container.name ∷ "' no pod '" ∷ pod.name ∷ "' tem env '" ∷ env.name
      ∷ "' com valor hardcoded (use secretKeyRef)" ∷ []);
  recommendation = "Use secretKeyRef ou configMapKeyRef para referenciar valores sensíveis";
  type = "critical";
  description = cat (
      "Container '" ∷ container.name ∷ "' no pod '" ∷ pod.name ∷ "' tem env '" ∷ env.name
      ∷ "' com valor hardcoded (use secretKeyRef)" ∷ []);
}

module _ (to_lower : String → String) where
  unfoldable pub is_sensitive : String → Bool
  unfolding text_contains
  is_sensitive name =
      let lower_name = to_lower name in
      text_contains lower_name "password"
      || (text_contains lower_name "secret"
          || (text_contains lower_name "token" || text_contains lower_name "key"))

  unfoldable pub exposed_secrets : String → Pod → List SecurityFinding
  unfolding is_sensitive
  exposed_secrets namespace pod =
      flat_map
        (λ container.
          flat_map
            (λ (env : EnvVar).
              when (is_sensitive env.name && not env.has_value_from)
                (exposed_secrets_finding namespace pod container env))
            container.env)
        pod.containers

  abbrev pub exposed_secrets_check : SecurityCheck
  exposed_secrets_check = record {
    id = "POD_EXPOSED_SECRETS";
    name = "Secrets Expostos";
    category = "secrets";
    severity = "critical";
    description = "Detecta variáveis de ambiente sensíveis com valores hardcoded";
    run = run_pods exposed_secrets;
  }

-- pod_host_ports.go: containers that expose a port of the host
unfoldable pub host_ports_finding : (ℕ → String) → String → Pod → Container → ℕ → SecurityFinding
host_ports_finding show_int namespace pod container port = record {
  check_id = "POD_HOST_PORTS";
  severity = "medium";
  category = "pod-security";
  pod = pod.name;
  container = container.name;
  namespace = namespace;
  resource = cat (pod.name ∷ "/" ∷ container.name ∷ []);
  message = cat (
      "Container '"
      ∷ container.name
      ∷ "' no pod '"
      ∷ pod.name
      ∷ "' usa hostPort "
      ∷ show_int port
      ∷ []);
  recommendation = "Use Services do tipo NodePort ou LoadBalancer em vez de hostPort";
  type = "warning";
  description = cat (
      "Container '"
      ∷ container.name
      ∷ "' no pod '"
      ∷ pod.name
      ∷ "' usa hostPort "
      ∷ show_int port
      ∷ []);
}

module _ (show_int : ℕ → String) where
  unfoldable pub host_ports : String → Pod → List SecurityFinding
  unfolding all_containers
  host_ports namespace pod =
      flat_map
        (λ container.
          flat_map
            (λ port.
              when (not (nat_eq port 0)) (host_ports_finding show_int namespace pod container port))
            container.host_ports)
        (all_containers pod)

  abbrev pub host_ports_check : SecurityCheck
  host_ports_check = record {
    id = "POD_HOST_PORTS";
    name = "Host Ports";
    category = "pod-security";
    severity = "medium";
    description = "Detecta containers que expõem portas diretamente no host";
    run = run_pods host_ports;
  }
