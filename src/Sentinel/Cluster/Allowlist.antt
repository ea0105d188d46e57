-- ===== src/Sentinel/Cluster/Allowlist.antt =====
-- plugins/sentinel/cli/checks/rbac_allowlist.go: the roles and bindings of the system and of known
-- controllers, which the RBAC checks leave out.
use yby_cli.Prelude.{eq_String, any, ◌||◌, contains, [], Bool, ◌∷◌, List, String}
use text.Mathlib.Text.{starts_with}

abbrev pub system_cluster_role_bindings : List String
system_cluster_role_bindings =
    "cluster-admin" ∷ "system:basic-user" ∷ "system:discovery" ∷ "system:monitoring"
    ∷ "system:node-proxier" ∷ "system:public-info-viewer" ∷ "system:volume-scheduler"
    ∷ "system:kube-controller-manager" ∷ "system:kube-dns" ∷ "system:kube-scheduler" ∷ "system:node"
    ∷ "system:controller:node-controller" ∷ "system:controller:job-controller"
    ∷ "system:controller:endpoint-controller" ∷ "system:controller:service-account-controller" ∷ []

abbrev pub system_cluster_roles : List String
system_cluster_roles = "admin" ∷ "edit" ∷ "view" ∷ "cluster-admin" ∷ []

abbrev pub system_cluster_role_prefixes : List String
system_cluster_role_prefixes = "system:" ∷ []

abbrev pub known_controller_role_prefixes : List String
known_controller_role_prefixes =
    "argocd-" ∷ "cert-manager-" ∷ "traefik-" ∷ "helm-" ∷ "k3s-" ∷ "local-path-provisioner-"
    ∷ "monitoring-kube-prometheus-" ∷ "monitoring-kube-state-metrics" ∷ "monitoring-grafana-"
    ∷ "loki-" ∷ "cnpg-" ∷ "keda-" ∷ "argo-events-" ∷ "argo-aggregate-" ∷ "argo-cluster-"
    ∷ "argo-server-" ∷ []

abbrev pub known_controller_binding_prefixes : List String
known_controller_binding_prefixes =
    "argocd-" ∷ "cert-manager-" ∷ "traefik-" ∷ "helm-" ∷ "k3s-" ∷ "monitoring-" ∷ "loki-" ∷ "cnpg-"
    ∷ "keda-" ∷ "argo-events-" ∷ "argo-server-" ∷ []

-- the loops over the prefixes, which return true on the first that fits
unfoldable pub has_prefix_of : List String → String → Bool
has_prefix_of prefixes name = any (λ prefix. starts_with name prefix) prefixes

-- isSystemRole
unfoldable pub is_system_role : String → Bool
unfolding has_prefix_of
is_system_role name =
    contains name system_cluster_roles || has_prefix_of system_cluster_role_prefixes name

-- isKnownControllerRole
unfoldable pub is_known_controller_role : String → Bool
unfolding has_prefix_of
is_known_controller_role name = has_prefix_of known_controller_role_prefixes name

-- isSystemBinding
unfoldable pub is_system_binding : String → Bool
unfolding has_prefix_of
is_system_binding name =
    contains name system_cluster_role_bindings || has_prefix_of system_cluster_role_prefixes name

-- isKnownControllerBinding
unfoldable pub is_known_controller_binding : String → Bool
unfolding has_prefix_of
is_known_controller_binding name = has_prefix_of known_controller_binding_prefixes name

-- shouldSkipRBACResource
unfoldable pub should_skip_rbac_resource : String → Bool
unfolding is_system_role is_known_controller_role is_system_binding is_known_controller_binding
should_skip_rbac_resource name =
    is_system_role name
    || (is_known_controller_role name
        || (is_system_binding name || is_known_controller_binding name))
