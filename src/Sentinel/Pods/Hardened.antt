-- ===== src/Sentinel/Pods/Hardened.antt =====
-- When the checks of privileges find nothing.
use yby_cli.Prelude.{
  String, Bool, true, false, not, ◌≡◌, ◌≢◌, refl, ◌↔◌, [], Option, none, some, All, flat_map-nil,
  arith,
}
use yby_cli.Sentinel.Kube.{Container, Pod}
use yby_cli.Sentinel.Pods.{all_containers, context_field, value_or, when}
use yby_cli.Sentinel.Pods.Privilege.{privileged, privilege_escalation, readonly_rootfs}

abbrev pub NotPrivileged : Container → Type 0
NotPrivileged c = context_field (λ sc. sc.privileged) c ≢ some true

abbrev pub CannotEscalate : Container → Type 0
CannotEscalate c = context_field (λ sc. sc.allow_privilege_escalation) c ≡ some false

abbrev pub ReadOnlyRoot : Container → Type 0
ReadOnlyRoot c = context_field (λ sc. sc.read_only_root_filesystem) c ≡ some true

when-nil : {A : Type 0} (b : Bool) (f : A) → (when b f ≡ []) ↔ (b ≡ false)
when-nil true f = (λ h. cc, λ h. cc)
when-nil false f = (λ h. refl, λ h. refl)

module _ (namespace : String) (pod : Pod) where
  privileged_clean : (privileged namespace pod ≡ []) ↔ All NotPrivileged (all_containers pod)
  unfolding privileged
  privileged_clean =
      flat_map-nil NotPrivileged _
        (λ c.
          let flag = context_field (λ sc. sc.privileged) c in
          (
            λ e. flag_not_true flag ((when-nil (value_or false flag) _).0 e),
            λ r. (when-nil (value_or false flag) _).1 (not_true_flag flag r),
          ))
        (all_containers pod)
    where
      flag_not_true : (flag : Option Bool) → value_or false flag ≡ false → flag ≢ some true
      flag_not_true flag h e = cc (e, h)

      not_true_flag : (flag : Option Bool) → flag ≢ some true → value_or false flag ≡ false
      not_true_flag none h = refl
      not_true_flag (some false) h = refl
      not_true_flag (some true) h = absurd (h refl)

  escalation_clean :
      (privilege_escalation namespace pod ≡ []) ↔ All CannotEscalate (all_containers pod)
  unfolding privilege_escalation
  escalation_clean =
      flat_map-nil CannotEscalate _
        (λ c.
          let flag = context_field (λ sc. sc.allow_privilege_escalation) c in
          (
            λ e. is_false flag ((when-nil (value_or true flag) _).0 e),
            λ r. (when-nil (value_or true flag) _).1 (rw r),
          ))
        (all_containers pod)
    where
      is_false : (flag : Option Bool) → value_or true flag ≡ false → flag ≡ some false
      is_false flag h = ground arith

  rootfs_clean : (readonly_rootfs namespace pod ≡ []) ↔ All ReadOnlyRoot (all_containers pod)
  unfolding readonly_rootfs
  rootfs_clean =
      flat_map-nil ReadOnlyRoot _
        (λ c.
          let flag = context_field (λ sc. sc.read_only_root_filesystem) c in
          (
            λ e. is_true flag ((when-nil (not (value_or false flag)) _).0 e),
            λ r. (when-nil (not (value_or false flag)) _).1 (rw r),
          ))
        (all_containers pod)
    where
      is_true : (flag : Option Bool) → not (value_or false flag) ≡ false → flag ≡ some true
      is_true flag h = ground arith

  -- On every pod three of the privilege checks are silent exactly on what they ask for: that each
  -- container, the init containers included, is not privileged, has allowPrivilegeEscalation: false,
  -- and has readOnlyRootFilesystem: true.
  pub silent_on_hardened :
      ((privileged namespace pod ≡ []) ↔ All NotPrivileged (all_containers pod))
      × ((privilege_escalation namespace pod ≡ []) ↔ All CannotEscalate (all_containers pod))
      × ((readonly_rootfs namespace pod ≡ []) ↔ All ReadOnlyRoot (all_containers pod))
  silent_on_hardened = (privileged_clean, escalation_clean, rootfs_clean)
