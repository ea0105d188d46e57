-- ===== src/Sentinel/Cluster/Rbac.antt =====
-- plugins/sentinel/cli/checks/rbac_cluster_admin.go, rbac_wildcard.go and rbac_secrets_access.go: the
-- checks of the roles of the cluster and of the namespace.
use yby_cli.Prelude.{
  true, ◌++◌, contains, eq_String, not, ◌&&◌, ◌||◌, [], ◌==◌, ◌∷◌, if◌then◌else◌, any, false,
  flat_map, List, Bool, cat, String,
}
use yby_cli.Prelude.Result.{Result, ok, ◌>>=◌}
use yby_cli.Sentinel.Kube.{PolicyRule, Role, Subject, ClusterRoleBinding, Client}
use yby_cli.Sentinel.Finding.{SecurityFinding, SecurityCheck}
use yby_cli.Sentinel.Pods.{when}
use yby_cli.Sentinel.Cluster.{listed}
use yby_cli.Sentinel.Cluster.Allowlist.{should_skip_rbac_resource}

-- rbac_cluster_admin.go: bindings that grant cluster-admin
unfoldable pub cluster_admin_finding : ClusterRoleBinding → Subject → SecurityFinding
cluster_admin_finding binding subject = record {
  check_id = "RBAC_CLUSTER_ADMIN";
  severity = "critical";
  category = "rbac";
  pod = "";
  container = "";
  namespace = subject.namespace;
  resource = binding.name;
  message = cat (
      "ClusterRoleBinding '" ∷ binding.name ∷ "' concede cluster-admin a " ∷ subject.kind ∷ " '"
      ∷ subject.name ∷ "'" ∷ []);
  recommendation =
      "Substitua cluster-admin por roles mais restritivos seguindo o princípio do menor privilégio";
  type = "critical";
  description = cat (
      "ClusterRoleBinding '" ∷ binding.name ∷ "' concede cluster-admin a " ∷ subject.kind ∷ " '"
      ∷ subject.name ∷ "'" ∷ []);
}

unfoldable pub is_system_masters : Subject → Bool
is_system_masters subject = subject.kind == "Group" && subject.name == "system:masters"

-- one round of the loop over the bindings
unfoldable pub cluster_admin_round : ClusterRoleBinding → List SecurityFinding
unfolding is_system_masters
cluster_admin_round binding =
    if binding.role_ref == "cluster-admin" && not (should_skip_rbac_resource binding.name)
    then flat_map
        (λ subject. when (not (is_system_masters subject)) (cluster_admin_finding binding subject))
        binding.subjects
    else []

unfoldable pub cluster_admin : Client → String → Result String (List SecurityFinding)
unfolding cluster_admin_round
cluster_admin client namespace =
    listed "ClusterRoleBindings" client.list_cluster_role_bindings >>= λ bindings.
    ok (flat_map cluster_admin_round bindings)

abbrev pub cluster_admin_check : SecurityCheck
cluster_admin_check = record {
  id = "RBAC_CLUSTER_ADMIN";
  name = "Bindings cluster-admin";
  category = "rbac";
  severity = "critical";
  description = "Detecta ClusterRoleBindings que referenciam o role cluster-admin";
  run = cluster_admin;
}

-- rbac_wildcard.go: roles with a rule for all verbs or all resources
unfoldable pub wildcard_cluster_role_finding : Role → SecurityFinding
wildcard_cluster_role_finding role = record {
  check_id = "RBAC_WILDCARD";
  severity = "high";
  category = "rbac";
  pod = "";
  container = "";
  namespace = "";
  resource = cat ("ClusterRole/" ∷ role.name ∷ []);
  message = cat ("ClusterRole '" ∷ role.name ∷ "' possui permissões wildcard (*)" ∷ []);
  recommendation = "Substitua wildcards por verbos e recursos específicos";
  type = "critical";
  description = cat ("ClusterRole '" ∷ role.name ∷ "' possui permissões wildcard (*)" ∷ []);
}

unfoldable pub wildcard_role_finding : String → Role → SecurityFinding
wildcard_role_finding namespace role = record {
  check_id = "RBAC_WILDCARD";
  severity = "high";
  category = "rbac";
  pod = "";
  container = "";
  namespace = namespace;
  resource = cat ("Role/" ∷ role.name ∷ []);
  message = cat (
      "Role '" ∷ role.name ∷ "' no namespace '" ∷ namespace ∷ "' possui permissões wildcard (*)"
      ∷ []);
  recommendation = "Substitua wildcards por verbos e recursos específicos";
  type = "critical";
  description = cat (
      "Role '" ∷ role.name ∷ "' no namespace '" ∷ namespace ∷ "' possui permissões wildcard (*)"
      ∷ []);
}

-- hasWildcard, for one rule
unfoldable pub has_wildcard : PolicyRule → Bool
has_wildcard rule =
    any (λ verb. verb == "*") rule.verbs || any (λ resource. resource == "*") rule.resources

-- the loop over the rules of a role, which ends after the first finding
unfoldable pub first_wildcard : SecurityFinding → List PolicyRule → List SecurityFinding
unfolding has_wildcard
first_wildcard finding [] = []
first_wildcard finding (rule ∷ rules) =
    if has_wildcard rule then finding ∷ [] else first_wildcard finding rules

unfoldable pub wildcard : Client → String → Result String (List SecurityFinding)
unfolding first_wildcard
wildcard client namespace = listed "ClusterRoles" client.list_cluster_roles >>= λ cluster_roles.
    listed "Roles" (client.list_roles namespace) >>= λ roles. ok (
      flat_map
        (λ (role : Role).
          if should_skip_rbac_resource role.name
          then []
          else first_wildcard (wildcard_cluster_role_finding role) role.rules)
        cluster_roles
      ++ flat_map
          (λ (role : Role). first_wildcard (wildcard_role_finding namespace role) role.rules) roles)

abbrev pub wildcard_check : SecurityCheck
wildcard_check = record {
  id = "RBAC_WILDCARD";
  name = "Permissões Wildcard";
  category = "rbac";
  severity = "high";
  description = "Detecta Roles/ClusterRoles com verbs ou resources wildcard (*)";
  run = wildcard;
}

-- rbac_secrets_access.go: roles that may read secrets
unfoldable pub secrets_cluster_role_finding : Role → SecurityFinding
secrets_cluster_role_finding role = record {
  check_id = "RBAC_SECRETS_ACCESS";
  severity = "high";
  category = "rbac";
  pod = "";
  container = "";
  namespace = "";
  resource = cat ("ClusterRole/" ∷ role.name ∷ []);
  message = cat ("ClusterRole '" ∷ role.name ∷ "' permite leitura de secrets" ∷ []);
  recommendation = "Restrinja acesso a secrets apenas aos serviços que realmente precisam";
  type = "critical";
  description = cat ("ClusterRole '" ∷ role.name ∷ "' permite leitura de secrets" ∷ []);
}

unfoldable pub secrets_role_finding : String → Role → SecurityFinding
secrets_role_finding namespace role = record {
  check_id = "RBAC_SECRETS_ACCESS";
  severity = "high";
  category = "rbac";
  pod = "";
  container = "";
  namespace = namespace;
  resource = cat ("Role/" ∷ role.name ∷ []);
  message =
      cat (
        "Role '" ∷ role.name ∷ "' no namespace '" ∷ namespace ∷ "' permite leitura de secrets"
        ∷ []);
  recommendation = "Restrinja acesso a secrets apenas aos serviços que realmente precisam";
  type = "critical";
  description =
      cat (
        "Role '" ∷ role.name ∷ "' no namespace '" ∷ namespace ∷ "' permite leitura de secrets"
        ∷ []);
}

abbrev pub read_verbs : List String
read_verbs = "get" ∷ "list" ∷ "watch" ∷ "*" ∷ []

-- hasSecretsAccess
unfoldable pub has_secrets_access : List PolicyRule → Bool
has_secrets_access [] = false
has_secrets_access (rule ∷ rules) =
    let rest = has_secrets_access rules in
    if not (any (λ res. res == "secrets" || res == "*") rule.resources)
    then rest
    else (if any (λ verb. contains verb read_verbs) rule.verbs then true else rest)

unfoldable pub secrets_access : Client → String → Result String (List SecurityFinding)
secrets_access client namespace =
    listed "ClusterRoles" client.list_cluster_roles >>= λ cluster_roles.
    listed "Roles" (client.list_roles namespace) >>= λ roles. ok (
      flat_map
        (λ (role : Role).
          if should_skip_rbac_resource role.name
          then []
          else when (has_secrets_access role.rules) (secrets_cluster_role_finding role))
        cluster_roles
      ++ flat_map
          (λ (role : Role).
            when (has_secrets_access role.rules) (secrets_role_finding namespace role))
          roles)

abbrev pub secrets_access_check : SecurityCheck
secrets_access_check = record {
  id = "RBAC_SECRETS_ACCESS";
  name = "Acesso a Secrets";
  category = "rbac";
  severity = "high";
  description = "Detecta roles que permitem leitura de secrets";
  run = secrets_access;
}
