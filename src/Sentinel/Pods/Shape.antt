-- ===== src/Sentinel/Pods/Shape.antt =====
-- The findings of every pod check are labelled by the check that made them.
use yby_cli.Prelude.{
  String, Bool, true, false, ◌≡◌, refl, ◌⊎◌, inl, inr, List, [], ◌∷◌, ◌++◌, flat_map, All,
  All-append, All-flat_map, cat,
}
use yby_cli.Prelude.Result.{Result, ok, err}
use yby_cli.Sentinel.Kube.{Pod, Client}
use yby_cli.Sentinel.Finding.{SecurityFinding, SecurityCheck}
use yby_cli.Sentinel.Pods.{all_containers, when, run_pods}
use yby_cli.Sentinel.Pods.LinuxCapabilities.{
  capabilities_check, capabilities, sys_admin_finding, no_drop_all_finding, added_capabilities,
}
use yby_cli.Sentinel.Pods.Privilege.{
  root_container_check, privileged_check, privilege_escalation_check, readonly_rootfs_check,
  root_container, privileged, privilege_escalation, readonly_rootfs, runs_as_root, lacks_non_root,
  uid_zero_finding, non_root_finding, privileged_finding, privilege_escalation_finding,
  readonly_rootfs_finding,
}
use yby_cli.Sentinel.Pods.Resources.{
  resource_limits_check, image_pull_policy_check, resource_limits, image_pull_policy,
  resource_limits_finding, image_pull_policy_finding,
}
use yby_cli.Sentinel.Pods.Spec.{
  host_namespaces_check, seccomp_check, service_account_check, host_namespaces, seccomp,
  service_account, host_pid_finding, host_ipc_finding, host_network_finding, seccomp_finding,
  service_account_finding,
}

-- The finding carries the check's id and category and the scanned namespace, its old-format fields
-- repeat the new ones, and it is critical or a warning.
abbrev pub Labelled : SecurityCheck → String → SecurityFinding → Type 0
Labelled check namespace f =
    (f.check_id ≡ check.id)
    × (f.category ≡ check.category)
    × (f.namespace ≡ namespace)
    × (f.description ≡ f.message)
    × ((f.type ≡ "critical") ⊎ (f.type ≡ "warning"))

when-All : {A : Type 0} (P : A → Type 0) (b : Bool) (f : A) → P f → All P (when b f)
when-All P true f h = (h, tt)
when-All P false f h = tt

whens-All :
    {A : Type 0} (P : A → Type 0) (b d : Bool) (f g : A) (fs : List A)
    → P f
    → P g
    → All P fs
    → All P (when b f ++ (when d g ++ fs))
whens-All P b d f g fs p q h =
    All-append P (when b f) (when d g ++ fs) (when-All P b f p)
      (All-append P (when d g) fs (when-All P d g q) h)

-- what a successful run returned
abbrev pub AllOk : (SecurityFinding → Type 0) → Result String (List SecurityFinding) → Type 0
AllOk P (ok fs) = All P fs
AllOk P (err e) = Unit {0}

run_pods-All :
    (P : SecurityFinding → Type 0) (check : String → Pod → List SecurityFinding) (client : Client)
    (namespace : String)
    → ((pod : Pod) → All P (check namespace pod))
    → AllOk P (run_pods check client namespace)
unfolding run_pods
run_pods-All P check client namespace h =
    elim (client.list_pods namespace)
      as (λ listed. AllOk P (elim listed [
        | ok pods ↦ ok (flat_map (check namespace) pods)
        | err e ↦ err (cat ("falha ao listar pods: " ∷ e ∷ []))
      ])) [ ok pods ↦ All-flat_map P (check namespace) pods h | err e ↦ tt ]

module _ (namespace : String) where
  root_container-Labelled :
      (pod : Pod) → All (Labelled root_container_check namespace) (root_container namespace pod)
  unfolding root_container uid_zero_finding non_root_finding
  root_container-Labelled pod =
      All-flat_map (Labelled root_container_check namespace) _ pod.containers (λ c.
        All-append (Labelled root_container_check namespace)
          (when (runs_as_root c) (uid_zero_finding namespace pod c))
          (when (lacks_non_root c) (non_root_finding namespace pod c))
          (when-All (Labelled root_container_check namespace) _ _
            (refl, refl, refl, refl, inl refl))
          (when-All (Labelled root_container_check namespace) _ _
            (refl, refl, refl, refl, inr refl)))

  privileged-Labelled :
      (pod : Pod) → All (Labelled privileged_check namespace) (privileged namespace pod)
  unfolding privileged privileged_finding
  privileged-Labelled pod =
      All-flat_map _ _ (all_containers pod)
        (λ c. when-All (Labelled privileged_check namespace) _ _ (refl, refl, refl, refl, inl refl))

  privilege_escalation-Labelled :
      (pod : Pod)
      → All (Labelled privilege_escalation_check namespace) (privilege_escalation namespace pod)
  unfolding privilege_escalation privilege_escalation_finding
  privilege_escalation-Labelled pod = All-flat_map _ _ (all_containers pod) (λ c.
      when-All (Labelled privilege_escalation_check namespace) _ _
        (refl, refl, refl, refl, inr refl))

  readonly_rootfs-Labelled :
      (pod : Pod) → All (Labelled readonly_rootfs_check namespace) (readonly_rootfs namespace pod)
  unfolding readonly_rootfs readonly_rootfs_finding
  readonly_rootfs-Labelled pod = All-flat_map _ _ (all_containers pod) (λ c.
      when-All (Labelled readonly_rootfs_check namespace) _ _ (refl, refl, refl, refl, inr refl))

  capabilities-Labelled :
      (pod : Pod) → All (Labelled capabilities_check namespace) (capabilities namespace pod)
  unfolding capabilities sys_admin_finding no_drop_all_finding
  capabilities-Labelled pod = All-flat_map _ _ (all_containers pod) (λ c.
      All-append _ _ _
        (All-flat_map _ _ (added_capabilities c) (λ a.
          when-All (Labelled capabilities_check namespace) _ _ (refl, refl, refl, refl, inl refl)))
        (when-All (Labelled capabilities_check namespace) _ _ (refl, refl, refl, refl, inr refl)))

  resource_limits-Labelled :
      (pod : Pod) → All (Labelled resource_limits_check namespace) (resource_limits namespace pod)
  unfolding resource_limits resource_limits_finding
  resource_limits-Labelled pod = All-flat_map _ _ pod.containers (λ c.
      when-All (Labelled resource_limits_check namespace) _ _ (refl, refl, refl, refl, inr refl))

  image_pull_policy-Labelled :
      (pod : Pod)
      → All (Labelled image_pull_policy_check namespace) (image_pull_policy namespace pod)
  unfolding image_pull_policy image_pull_policy_finding
  image_pull_policy-Labelled pod = All-flat_map _ _ pod.containers (λ c.
      when-All (Labelled image_pull_policy_check namespace) _ _ (refl, refl, refl, refl, inr refl))

  host_namespaces-Labelled :
      (pod : Pod) → All (Labelled host_namespaces_check namespace) (host_namespaces namespace pod)
  unfolding host_namespaces host_pid_finding host_ipc_finding host_network_finding
  host_namespaces-Labelled pod =
      whens-All (Labelled host_namespaces_check namespace) pod.host_pid pod.host_ipc
        (host_pid_finding namespace pod) (host_ipc_finding namespace pod)
        (when pod.host_network (host_network_finding namespace pod))
        (refl, refl, refl, refl, inl refl) (refl, refl, refl, refl, inl refl)
        (when-All (Labelled host_namespaces_check namespace) pod.host_network
          (host_network_finding namespace pod) (refl, refl, refl, refl, inl refl))

  seccomp-Labelled : (pod : Pod) → All (Labelled seccomp_check namespace) (seccomp namespace pod)
  unfolding seccomp seccomp_finding
  seccomp-Labelled pod =
      when-All (Labelled seccomp_check namespace) _ _ (refl, refl, refl, refl, inr refl)

  service_account-Labelled :
      (pod : Pod) → All (Labelled service_account_check namespace) (service_account namespace pod)
  unfolding service_account service_account_finding
  service_account-Labelled pod =
      when-All (Labelled service_account_check namespace) _ _ (refl, refl, refl, refl, inr refl)

-- The checks of this theorem.
pub data PodCheck : Type 0 where
  on_root_container on_privileged on_privilege_escalation on_readonly_rootfs on_capabilities
        on_resource_limits on_image_pull_policy on_host_namespaces on_seccomp on_service_account :
      PodCheck

abbrev pub check_of : PodCheck → SecurityCheck
check_of on_root_container = root_container_check
check_of on_privileged = privileged_check
check_of on_privilege_escalation = privilege_escalation_check
check_of on_readonly_rootfs = readonly_rootfs_check
check_of on_capabilities = capabilities_check
check_of on_resource_limits = resource_limits_check
check_of on_image_pull_policy = image_pull_policy_check
check_of on_host_namespaces = host_namespaces_check
check_of on_seccomp = seccomp_check
check_of on_service_account = service_account_check

-- Every finding of a run of one of these ten pod checks carries the id and the category of that check
-- and the scanned namespace, repeats its message as its description, and is critical or a warning.
pub findings_carry_their_check :
    (check : PodCheck) (client : Client) (namespace : String)
    → AllOk (Labelled (check_of check) namespace) ((check_of check).run client namespace)
findings_carry_their_check on_root_container client namespace =
    run_pods-All _ root_container client namespace (root_container-Labelled namespace)
findings_carry_their_check on_privileged client namespace =
    run_pods-All _ privileged client namespace (privileged-Labelled namespace)
findings_carry_their_check on_privilege_escalation client namespace =
    run_pods-All _ privilege_escalation client namespace (privilege_escalation-Labelled namespace)
findings_carry_their_check on_readonly_rootfs client namespace =
    run_pods-All _ readonly_rootfs client namespace (readonly_rootfs-Labelled namespace)
findings_carry_their_check on_capabilities client namespace =
    run_pods-All _ capabilities client namespace (capabilities-Labelled namespace)
findings_carry_their_check on_resource_limits client namespace =
    run_pods-All _ resource_limits client namespace (resource_limits-Labelled namespace)
findings_carry_their_check on_image_pull_policy client namespace =
    run_pods-All _ image_pull_policy client namespace (image_pull_policy-Labelled namespace)
findings_carry_their_check on_host_namespaces client namespace =
    run_pods-All _ host_namespaces client namespace (host_namespaces-Labelled namespace)
findings_carry_their_check on_seccomp client namespace =
    run_pods-All _ seccomp client namespace (seccomp-Labelled namespace)
findings_carry_their_check on_service_account client namespace =
    run_pods-All _ service_account client namespace (service_account-Labelled namespace)
