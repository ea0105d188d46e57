-- ===== src/Sentinel/Remediation.antt =====
-- plugins/sentinel/cli/remediation: the patches that a scan proposes for its findings, and their
-- application. `json.Marshal` and the API server are parameters.
pub mod Laws
pub mod Tests
use yby_cli.Prelude.{
  String, Bool, true, false, List, [], ◌∷◌, ◌++◌, Option, none, some, cat, ◌==◌, eq_String,
  if◌then◌else◌,
}
use yby_cli.Prelude.Result.{Result, ok, err}
use yby_cli.Prelude.Exec.{Exec}
use yby_cli.Sentinel.Finding.{SecurityFinding}

-- The Go values that the patches are built from; the fields of a map stand in the order of their keys.
mutual
  pub data Json : Type 0 where
    text : String → Json
    flag : Bool → Json
    array : Items → Json
    object : Fields → Json

  pub data Items : Type 0 where
    no_items : Items
    item : Json → Items → Items

  pub data Fields : Type 0 where
    no_fields : Fields
    field : String → Json → Fields → Fields

-- a map of one key
abbrev pub only : String → Json → Json
only key value = object (field key value no_fields)

pub record RemediationPatch : Type 0 where
  pub resource_kind : String
  pub resource_name : String
  pub namespace : String
  pub patch_type : String
  pub patch : String
  pub description : String

module _ (marshal : Json → String) where
  -- what the generators return: a strategic merge patch of the finding's pod
  unfoldable pub pod_patch : SecurityFinding → Json → String → RemediationPatch
  pod_patch f patch description = record {
    resource_kind = "Pod";
    resource_name = f.pod;
    namespace = f.namespace;
    patch_type = "strategic-merge";
    patch = marshal patch;
    description = description;
  }

  -- `spec.containers` with one field of the finding's container
  unfoldable pub container_patch : SecurityFinding → String → Json → String → RemediationPatch
  unfolding pod_patch
  container_patch f key value description =
      pod_patch f
        (only "spec" (
          only "containers" (
            array (
              item (object (field "name" (text f.container) (field key value no_fields)))
                no_items))))
        description

  -- patchRunAsNonRoot
  unfoldable pub patch_run_as_non_root : SecurityFinding → RemediationPatch
  unfolding container_patch
  patch_run_as_non_root f = container_patch f "securityContext" (only "runAsNonRoot" (flag true)) (
      cat (
        "Define runAsNonRoot: true para container '" ∷ f.container ∷ "' no pod '" ∷ f.pod ∷ "'"
        ∷ []))

  -- patchResourceLimits
  unfoldable pub patch_resource_limits : SecurityFinding → RemediationPatch
  unfolding container_patch
  patch_resource_limits f =
      container_patch f "resources"
        (object (
          field "limits"
            (object (field "cpu" (text "500m") (field "memory" (text "256Mi") no_fields)))
            (field "requests"
              (object (field "cpu" (text "100m") (field "memory" (text "128Mi") no_fields)))
              no_fields)))
        (cat (
          "Define limites padrão de recursos para container '" ∷ f.container ∷ "' no pod '" ∷ f.pod
          ∷ "'" ∷ []))

  -- patchPrivileged
  unfoldable pub patch_privileged : SecurityFinding → RemediationPatch
  unfolding container_patch
  patch_privileged f = container_patch f "securityContext" (only "privileged" (flag false)) (
      cat
        ("Remove modo privilegiado do container '" ∷ f.container ∷ "' no pod '" ∷ f.pod ∷ "'" ∷ []))

  -- patchPrivilegeEscalation
  unfoldable pub patch_privilege_escalation : SecurityFinding → RemediationPatch
  unfolding container_patch
  patch_privilege_escalation f =
      container_patch f "securityContext" (only "allowPrivilegeEscalation" (flag false)) (
        cat (
          "Bloqueia escalação de privilégios no container '" ∷ f.container ∷ "' do pod '" ∷ f.pod
          ∷ "'" ∷ []))

  -- patchReadOnlyRootfs
  unfoldable pub patch_read_only_rootfs : SecurityFinding → RemediationPatch
  unfolding container_patch
  patch_read_only_rootfs f =
      container_patch f "securityContext" (only "readOnlyRootFilesystem" (flag true)) (
        cat (
          "Define readOnlyRootFilesystem: true no container '" ∷ f.container ∷ "' do pod '" ∷ f.pod
          ∷ "'" ∷ []))

  -- patchDropAllCapabilities
  unfoldable pub patch_drop_all_capabilities : SecurityFinding → RemediationPatch
  unfolding container_patch
  patch_drop_all_capabilities f =
      container_patch f "securityContext"
        (only "capabilities" (only "drop" (array (item (text "ALL") no_items))))
        (cat (
          "Adiciona drop ALL capabilities no container '" ∷ f.container ∷ "' do pod '" ∷ f.pod ∷ "'"
          ∷ []))

  -- patchAutomountToken
  unfoldable pub patch_automount_token : SecurityFinding → RemediationPatch
  unfolding pod_patch
  patch_automount_token f =
      pod_patch f (only "spec" (only "automountServiceAccountToken" (flag false)))
        (cat ("Desabilita automount do service account token no pod '" ∷ f.pod ∷ "'" ∷ []))

  -- generatePatch
  unfoldable pub generate_patch : SecurityFinding → Option RemediationPatch
  generate_patch f =
      if f.check_id == "POD_ROOT_CONTAINER"
      then some (patch_run_as_non_root f)
      else if f.check_id == "POD_RESOURCE_LIMITS"
      then some (patch_resource_limits f)
      else if f.check_id == "POD_PRIVILEGED"
      then some (patch_privileged f)
      else if f.check_id == "POD_PRIVILEGE_ESCALATION"
      then some (patch_privilege_escalation f)
      else if f.check_id == "POD_READONLY_ROOTFS"
      then some (patch_read_only_rootfs f)
      else if f.check_id == "POD_CAPABILITIES"
      then (if f.severity == "critical" then none else some (patch_drop_all_capabilities f))
      else if f.check_id == "POD_SERVICE_ACCOUNT_TOKEN"
      then some (patch_automount_token f)
      else none

  -- GeneratePatches
  unfoldable pub generate_patches : List SecurityFinding → List RemediationPatch
  generate_patches [] = []
  generate_patches (f ∷ findings) = elim (generate_patch f) [
    | none ↦ generate_patches findings
    | some patch ↦ patch ∷ generate_patches findings
  ]

-- k8stypes.PatchType
pub data PatchType : Type 0 where
  strategic_merge json_patch : PatchType

-- The API server: a patch of a resource by namespace, name, type and text.
pub record Cluster (W : Type 0) : Type 0 where
  pub patch_pod : String → String → PatchType → String → Exec W String (Unit {0})
  pub patch_deployment : String → String → PatchType → String → Exec W String (Unit {0})

module _ {W : Type 0} (cluster : Cluster W) where
  -- applyPatch
  unfoldable pub apply_patch : RemediationPatch → Exec W String (Unit {0})
  apply_patch p w =
      let patch_type = if p.patch_type == "json-patch" then json_patch else strategic_merge in
      if p.resource_kind == "Pod"
      then cluster.patch_pod p.namespace p.resource_name patch_type p.patch w
      else if p.resource_kind == "Deployment"
      then cluster.patch_deployment p.namespace p.resource_name patch_type p.patch w
      else (
        err (cat ("tipo de recurso '" ∷ p.resource_kind ∷ "' não suportado para patching" ∷ [])),
        w,
      )

  -- the error of one patch, if it has one
  unfoldable pub patch_errors : RemediationPatch → Result String (Unit {0}) → List String
  patch_errors p (ok done) = []
  patch_errors p (err e) =
      cat ("falha ao aplicar patch em " ∷ p.namespace ∷ "/" ∷ p.resource_name ∷ ": " ∷ e ∷ []) ∷ []

  -- ApplyPatches: every patch is tried, and the errors are gathered
  unfoldable pub apply_patches : List RemediationPatch → W → List String × W
  unfolding apply_patch patch_errors
  apply_patches [] w = ([], w)
  apply_patches (p ∷ patches) w =
      let rest = apply_patches patches (apply_patch p w).1 in
      (patch_errors p (apply_patch p w).0 ++ rest.0, rest.1)
