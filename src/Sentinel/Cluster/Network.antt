-- ===== src/Sentinel/Cluster/Network.antt =====
-- plugins/sentinel/cli/checks/netpol_default_deny.go and netpol_coverage.go: the checks of the network
-- policies. `metav1.LabelSelectorAsSelector` with `Matches` is a parameter.
use yby_cli.Prelude.{
  Option, none, some, length, nat_eq, eq_String, true, nat_eq, ◌++◌, ◌&&◌, not, ◌==◌, [], cat,
  false, ◌∷◌, flat_map, if◌then◌else◌, List, Bool, Option, String,
}
use yby_cli.Prelude.Result.{Result, ok, ◌>>=◌}
use yby_cli.Sentinel.Kube.{Pod, LabelSelector, NetworkPolicy, Client}
use yby_cli.Sentinel.Finding.{SecurityFinding, SecurityCheck}
use yby_cli.Sentinel.Pods.{when}
use yby_cli.Sentinel.Cluster.{listed}

-- netpol_default_deny.go: what the loops have found
pub record Denied : Type 0 where
  pub ingress : Bool
  pub egress : Bool

unfoldable pub selects_all : NetworkPolicy → Bool
selects_all np =
    nat_eq (length np.pod_selector.match_labels) 0
    && nat_eq (length np.pod_selector.match_expressions) 0

-- one round of the loop over the types of a policy
unfoldable pub deny_type : NetworkPolicy → String → Denied → Denied
deny_type np pt d = record {
  ingress = if pt == "Ingress" && nat_eq np.ingress_rules 0 then true else d.ingress;
  egress = if pt == "Egress" && nat_eq np.egress_rules 0 then true else d.egress;
}

unfoldable pub deny_types : NetworkPolicy → List String → Denied → Denied
unfolding deny_type
deny_types np [] d = d
deny_types np (pt ∷ pts) d = deny_types np pts (deny_type np pt d)

-- the loop over the policies
unfoldable pub denied_by : List NetworkPolicy → Denied → Denied
unfolding deny_types selects_all
denied_by [] d = d
denied_by (np ∷ nps) d =
    denied_by nps (if selects_all np then deny_types np np.policy_types d else d)

unfoldable pub default_deny_finding : String → String → String → SecurityFinding
default_deny_finding namespace direction lower = record {
  check_id = "NETPOL_DEFAULT_DENY";
  severity = "medium";
  category = "network";
  pod = "";
  container = "";
  namespace = namespace;
  resource = namespace;
  message = cat (
      "Namespace '" ∷ namespace ∷ "' não possui NetworkPolicy default-deny para " ∷ direction ∷ []);
  recommendation = cat (
      "Crie uma NetworkPolicy com podSelector vazio e policyTypes [" ∷ direction
      ∷ "] sem regras de " ∷ lower ∷ []);
  type = "warning";
  description = cat (
      "Namespace '" ∷ namespace ∷ "' não possui NetworkPolicy default-deny para " ∷ direction ∷ []);
}

unfoldable pub default_deny : Client → String → Result String (List SecurityFinding)
unfolding denied_by
default_deny client namespace =
    listed "NetworkPolicies" (client.list_network_policies namespace) >>= λ netpols.
    let d = denied_by netpols (record { ingress = false; egress = false }) in
    ok (
      when (not d.ingress) (default_deny_finding namespace "Ingress" "ingress")
      ++ when (not d.egress) (default_deny_finding namespace "Egress" "egress"))

abbrev pub default_deny_check : SecurityCheck
default_deny_check = record {
  id = "NETPOL_DEFAULT_DENY";
  name = "Default Deny NetworkPolicy";
  category = "network";
  severity = "medium";
  description = "Verifica se existe NetworkPolicy default-deny no namespace";
  run = default_deny;
}

-- netpol_coverage.go: pods that no policy selects
unfoldable pub coverage_finding : String → Pod → SecurityFinding
coverage_finding namespace pod = record {
  check_id = "NETPOL_COVERAGE";
  severity = "medium";
  category = "network";
  pod = pod.name;
  container = "";
  namespace = namespace;
  resource = pod.name;
  message = cat ("Pod '" ∷ pod.name ∷ "' não é coberto por nenhuma NetworkPolicy" ∷ []);
  recommendation = "Crie uma NetworkPolicy que selecione este pod para restringir tráfego de rede";
  type = "warning";
  description = cat ("Pod '" ∷ pod.name ∷ "' não é coberto por nenhuma NetworkPolicy" ∷ []);
}

module _ (as_selector : LabelSelector → Option (List (String × String) → Bool)) where
  -- the loop over the policies, for one pod: a selector that does not convert is passed over
  unfoldable pub is_covered : Pod → List NetworkPolicy → Bool
  is_covered pod [] = false
  is_covered pod (np ∷ nps) =
      let rest = is_covered pod nps in
      elim (as_selector np.pod_selector) [
        | none ↦ rest
        | some matches ↦ if matches pod.labels then true else rest
      ]

  unfoldable pub coverage : Client → String → Result String (List SecurityFinding)
  unfolding is_covered
  coverage client namespace = listed "pods" (client.list_pods namespace) >>= λ pods.
      listed "NetworkPolicies" (client.list_network_policies namespace) >>= λ netpols.
      ok (
        flat_map (λ pod. when (not (is_covered pod netpols)) (coverage_finding namespace pod)) pods)

  abbrev pub coverage_check : SecurityCheck
  coverage_check = record {
    id = "NETPOL_COVERAGE";
    name = "Cobertura de NetworkPolicy";
    category = "network";
    severity = "medium";
    description = "Detecta pods sem cobertura de NetworkPolicy";
    run = coverage;
  }
