-- ===== src/Sentinel/Pods/Tests.antt =====
-- Runs of the pod checks on a hardened and on a careless pod, and the theorems applied to them.
use yby_cli.Prelude.{true, false, ◌≡◌, refl, List, [], ◌∷◌, none, some, length, ◌↔◌, All}
use yby_cli.Prelude.Result.{ok}
use yby_cli.Sentinel.Kube.{SecurityContext, Container, Pod, Client}
use yby_cli.Sentinel.Pods.{all_containers}
use yby_cli.Sentinel.Pods.Privilege.{
  root_container, privileged, privilege_escalation, readonly_rootfs,
}
use yby_cli.Sentinel.Pods.Hardened.{NotPrivileged, CannotEscalate, ReadOnlyRoot, silent_on_hardened}

abbrev hardened_context : SecurityContext
hardened_context = record {
  run_as_user = some 1000;
  run_as_non_root = some true;
  privileged = some false;
  allow_privilege_escalation = some false;
  read_only_root_filesystem = some true;
  capabilities = none;
}

abbrev hardened : Container
hardened = record {
  name = "api";
  image = "registry.local/api:1.2";
  image_pull_policy = "Always";
  security_context = some hardened_context;
  limits = none;
  env = [];
  host_ports = [];
}

abbrev pub careless : Container
careless = record {
  name = "debug";
  image = "busybox";
  image_pull_policy = "IfNotPresent";
  security_context =
      some (record hardened_context { run_as_user = some 0; privileged = some true });
  limits = none;
  env = [];
  host_ports = 80 ∷ [];
}

abbrev pod_of : List Container → List Container → Pod
pod_of containers init_containers = record {
  name = "web";
  labels = [];
  containers = containers;
  init_containers = init_containers;
  host_pid = false;
  host_ipc = false;
  host_network = false;
  automount_service_account_token = none;
  has_seccomp_profile = false;
}

abbrev pub mixed : Pod
mixed = pod_of (hardened ∷ []) (careless ∷ [])

abbrev pub client : Client
client = record {
  list_pods = λ ns. ok (mixed ∷ []);
  list_network_policies = λ ns. ok [];
  list_cluster_roles = ok [];
  list_roles = λ ns. ok [];
  list_cluster_role_bindings = ok [];
}

privileged_finds_one : length (privileged "prod" mixed) ≡ 1
unfolding privileged all_containers
privileged_finds_one = refl

-- the root check does not look at the init containers
root_skips_init : root_container "prod" mixed ≡ []
unfolding root_container
root_skips_init = refl

silent_on_hardened_example :
    ((privileged "prod" mixed ≡ []) ↔ All NotPrivileged (all_containers mixed))
    × ((privilege_escalation "prod" mixed ≡ []) ↔ All CannotEscalate (all_containers mixed))
    × ((readonly_rootfs "prod" mixed ≡ []) ↔ All ReadOnlyRoot (all_containers mixed))
silent_on_hardened_example = silent_on_hardened "prod" mixed
