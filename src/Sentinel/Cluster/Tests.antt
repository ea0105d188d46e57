-- ===== src/Sentinel/Cluster/Tests.antt =====
-- The checks of the cluster on small clusters, and the theorems applied to them.
use yby_cli.Prelude.{
  eq_String, ◌==◌, some, map, Bool, false, insert, ◌↔◌, refl, true, List, [], lookup, String, All,
  ◌∷◌, none, ◌≡◌, cat, Option,
}
use yby_cli.Prelude.Result.{Result, ok, err}
use yby_cli.Sentinel.Kube.{
  Container, Pod, LabelSelector, NetworkPolicy, PolicyRule, Role, ClusterRoleBinding, Client,
}
use yby_cli.Sentinel.Finding.{SecurityFinding}
use yby_cli.Sentinel.Pods.{all_containers}
use yby_cli.Sentinel.Pods.Resources.{text_contains}
use yby_cli.Sentinel.Pods.Tests.{mixed, careless}
use yby_cli.Sentinel.Cluster.Allowlist.{
  has_prefix_of, is_system_role, is_known_controller_role, is_system_binding,
  is_known_controller_binding, should_skip_rbac_resource,
}
use yby_cli.Sentinel.Cluster.Rbac.{
  cluster_admin_finding, is_system_masters, cluster_admin_round, cluster_admin,
  wildcard_cluster_role_finding, wildcard_role_finding, has_wildcard, first_wildcard, wildcard,
  secrets_cluster_role_finding, secrets_role_finding, has_secrets_access, secrets_access,
}
use yby_cli.Sentinel.Cluster.Network.{
  selects_all, deny_type, deny_types, denied_by, default_deny_finding, default_deny,
  coverage_finding, is_covered, coverage,
}
use yby_cli.Sentinel.Cluster.Images.{
  start_part, split, last_part, no_fixed_tag, is_latest_or_no_tag, latest_tag, image_signature,
}
use yby_cli.Sentinel.Cluster.Iffs.{Some}
use yby_cli.Sentinel.Cluster.RbacLaws.{NoWildcard, KeepsSecrets, AdminsOnly, SkippedOr, rbac_silent}
use yby_cli.Sentinel.Cluster.NetworkLaws.{DeniesIngress, DeniesEgress, Selects, network_silent}
use yby_cli.Sentinel.Cluster.ImageLaws.{Pinned, latest_tag_silent, NoBarePorts}
use yby_cli.Sentinel.Cluster.Tags.{has_code, bare_port}
use yby_cli.Sentinel.Cluster.Signatures.{In, unsigned_container, image_signature_exact}
use yby_cli.Sentinel.Profiles.{register_profile, get_profile, soc2, profiles}
use yby_cli.Sentinel.Profiles.Laws.{IsRegistered, profile_checks-IsRegistered}

abbrev reader : PolicyRule
reader = record { verbs = "get" ∷ []; resources = "secrets" ∷ [] }

abbrev anything : PolicyRule
anything = record { verbs = "*" ∷ []; resources = "*" ∷ [] }

abbrev cluster_roles : List Role
cluster_roles =
    record { name = "helm-anything"; rules = anything ∷ [] }
    ∷ record { name = "reader"; rules = reader ∷ [] }
    ∷ []

abbrev roles : List Role
roles = record { name = "deployer"; rules = anything ∷ [] } ∷ []

abbrev bindings : List ClusterRoleBinding
bindings =
    record {
      name = "team-admins";
      role_ref = "cluster-admin";
      subjects = record { kind = "User"; name = "ana"; namespace = "" } ∷ [];
    }
    ∷ []

abbrev deny_ingress : NetworkPolicy
deny_ingress = record {
  pod_selector = record { match_labels = []; match_expressions = [] };
  policy_types = "Ingress" ∷ [];
  ingress_rules = 0;
  egress_rules = 0;
}

abbrev cluster : Client
cluster = record {
  list_pods = λ ns. ok (mixed ∷ []);
  list_network_policies = λ ns. ok (deny_ingress ∷ []);
  list_cluster_roles = ok cluster_roles;
  list_roles = λ ns. ok roles;
  list_cluster_role_bindings = ok bindings;
}

abbrev resources_of : Result String (List SecurityFinding) → List String
resources_of (ok fs) = map (λ (f : SecurityFinding). f.resource) fs
resources_of (err e) = []

abbrev every : LabelSelector → Option (List (String × String) → Bool)
every selector = some (λ labels. true)

-- a role of the cluster with a known prefix is left out
wildcard_finds : resources_of (wildcard cluster "prod") ≡ "Role/deployer" ∷ []
unfolding wildcard first_wildcard has_wildcard should_skip_rbac_resource is_system_role
    is_known_controller_role is_system_binding is_known_controller_binding has_prefix_of cat
    wildcard_role_finding wildcard_cluster_role_finding
wildcard_finds = refl

secrets_access_finds :
    resources_of (secrets_access cluster "prod") ≡ "ClusterRole/reader" ∷ "Role/deployer" ∷ []
unfolding secrets_access has_secrets_access should_skip_rbac_resource is_system_role
    is_known_controller_role is_system_binding is_known_controller_binding has_prefix_of cat
    secrets_role_finding secrets_cluster_role_finding
secrets_access_finds = refl

cluster_admin_finds : resources_of (cluster_admin cluster "prod") ≡ "team-admins" ∷ []
unfolding cluster_admin cluster_admin_round is_system_masters should_skip_rbac_resource
    is_system_role is_known_controller_role is_system_binding is_known_controller_binding
    has_prefix_of cluster_admin_finding
cluster_admin_finds = refl

-- nothing denies what goes out
default_deny_finds : resources_of (default_deny cluster "prod") ≡ "prod" ∷ []
unfolding default_deny denied_by deny_types deny_type selects_all default_deny_finding
default_deny_finds = refl

coverage_finds : resources_of (coverage (λ selector. none) cluster "prod") ≡ "web" ∷ []
unfolding coverage is_covered coverage_finding
coverage_finds = refl

-- an image without a tag, from a registry with a port, passes
port_is_no_tag : is_latest_or_no_tag "registry:5000/app" ≡ false
unfolding is_latest_or_no_tag split start_part no_fixed_tag last_part text_contains
port_is_no_tag = refl

latest_is_found : is_latest_or_no_tag "registry:5000/app:latest" ≡ true
unfolding is_latest_or_no_tag split start_part no_fixed_tag last_part text_contains
latest_is_found = refl

web_has_no_slash : All (λ (pod : Pod). has_code 47 pod.name ≡ false) (mixed ∷ [])
unfolding has_code
web_has_no_slash = (refl, tt)

soc2_is_there : get_profile "soc2" profiles ≡ some soc2
unfolding get_profile profiles register_profile lookup insert
soc2_is_there = refl

rbac_silent_example :
    ((cluster_admin cluster "prod" ≡ ok []) ↔ All AdminsOnly bindings)
    × ((wildcard cluster "prod" ≡ ok [])
        ↔ (All (SkippedOr NoWildcard) cluster_roles × All NoWildcard roles))
    × ((secrets_access cluster "prod" ≡ ok [])
        ↔ (All (SkippedOr KeepsSecrets) cluster_roles × All KeepsSecrets roles))
rbac_silent_example = rbac_silent cluster "prod" cluster_roles roles bindings refl refl refl

network_silent_example :
    ((default_deny cluster "prod" ≡ ok [])
      ↔ (Some DeniesIngress (deny_ingress ∷ []) × Some DeniesEgress (deny_ingress ∷ [])))
    × ((coverage every cluster "prod" ≡ ok [])
        ↔ All (λ pod. Some (Selects every pod) (deny_ingress ∷ [])) (mixed ∷ []))
network_silent_example =
    network_silent every cluster "prod" (mixed ∷ []) (deny_ingress ∷ []) refl refl

mixed_ports : NoBarePorts (all_containers mixed)
unfolding bare_port has_code all_containers
mixed_ports = (refl, (refl, tt))

latest_tag_silent_example :
    (latest_tag "prod" mixed ≡ []) ↔ All (λ (c : Container). Pinned c.image) (all_containers mixed)
latest_tag_silent_example = latest_tag_silent "prod" mixed mixed_ports

abbrev careless_found : SecurityFinding
careless_found = unsigned_container "prod" mixed careless

image_signature_exact_example :
    (findings : List SecurityFinding) × (image_signature
        (λ found. found)
        true
        (λ image. image == "registry.local/api:1.2")
        cluster
        "prod"
      ≡ ok findings)
    × (In careless_found findings
        ↔ Some
            (λ pod.
              Some
                (λ (c : Container).
                  ((c.image == "registry.local/api:1.2") ≡ false)
                  × (unsigned_container "prod" pod c ≡ careless_found))
                (all_containers pod))
            (mixed ∷ []))
image_signature_exact_example =
    image_signature_exact (λ found. found) (λ image. image == "registry.local/api:1.2") cluster
      "prod" (mixed ∷ []) (λ found e. (λ h. h, λ h. h)) refl web_has_no_slash careless_found

profile_checks-IsRegistered_example :
    All
      (IsRegistered (λ found. found) true (λ image. true) every (λ s. s) (λ n. "80"))
      soc2.check_ids
profile_checks-IsRegistered_example =
    profile_checks-IsRegistered (λ found. found) true (λ image. true) every (λ s. s) (λ n. "80")
      "soc2" soc2 soc2_is_there
