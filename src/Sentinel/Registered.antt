-- ===== src/Sentinel/Registered.antt =====
-- The checks of plugins/sentinel/cli/checks, in the order in which their files register them.
use yby_cli.Prelude.{◌∷◌, [], ℕ, Option, Bool, List, String, Dict}
use yby_cli.Sentinel.Kube.{LabelSelector}
use yby_cli.Sentinel.Finding.{SecurityCheck}
use yby_cli.Sentinel.Pods.Privilege.{
  root_container_check, privileged_check, privilege_escalation_check, readonly_rootfs_check,
}
use yby_cli.Sentinel.Pods.LinuxCapabilities.{capabilities_check}
use yby_cli.Sentinel.Pods.Resources.{
  resource_limits_check, image_pull_policy_check, exposed_secrets_check, host_ports_check,
}
use yby_cli.Sentinel.Pods.Spec.{host_namespaces_check, seccomp_check, service_account_check}
use yby_cli.Sentinel.Cluster.Rbac.{cluster_admin_check, wildcard_check, secrets_access_check}
use yby_cli.Sentinel.Cluster.Network.{default_deny_check, coverage_check}
use yby_cli.Sentinel.Cluster.Images.{latest_tag_check, image_signature_check}
use yby_cli.Sentinel.Scan.{register}

-- the `init` functions, with what the checks call outside the repository
module _ (range : Dict String (List String) → Dict String (List String)) (has_cosign : Bool)
    (verify : String → Bool) (as_selector : LabelSelector → Option (List (String × String) → Bool))
    (to_lower : String → String) (show_int : ℕ → String) where
  abbrev pub in_file_order : List SecurityCheck
  in_file_order =
      latest_tag_check
      ∷ image_signature_check range has_cosign verify
      ∷ coverage_check as_selector
      ∷ default_deny_check
      ∷ capabilities_check
      ∷ host_namespaces_check
      ∷ host_ports_check show_int
      ∷ resource_limits_check
      ∷ privilege_escalation_check
      ∷ privileged_check
      ∷ image_pull_policy_check
      ∷ readonly_rootfs_check
      ∷ root_container_check
      ∷ seccomp_check
      ∷ exposed_secrets_check to_lower
      ∷ service_account_check
      ∷ cluster_admin_check
      ∷ secrets_access_check
      ∷ wildcard_check
      ∷ []

  unfoldable pub register_all : List SecurityCheck → List SecurityCheck → List SecurityCheck
  unfolding register
  register_all registry [] = registry
  register_all registry (check ∷ checks) = register_all (register check registry) checks

  unfoldable pub registered_checks : List SecurityCheck
  unfolding register_all
  registered_checks = register_all [] in_file_order
