-- ===== src/Sentinel/Remediation/Tests.antt =====
-- Patches for the findings of one pod, and the theorems applied to them.
use yby_cli.Prelude.{ℕ, String, ◌+◌, ◌≡◌, refl, List, [], ◌∷◌, map, filter, length}
use yby_cli.Prelude.Result.{err}
use yby_cli.Sentinel.Finding.{SecurityFinding}
use yby_cli.Sentinel.Pods.{run_pods}
use yby_cli.Sentinel.Pods.Privilege.{privileged}
use yby_cli.Sentinel.Pods.Shape.{on_privileged}
use yby_cli.Sentinel.Pods.Tests.{mixed, client}
use yby_cli.Sentinel.Remediation.{Json, text, generate_patch, generate_patches, Cluster}
use yby_cli.Sentinel.Remediation.Laws.{
  target, pod_of, is_patched, target-generate_patches, check_findings_are_remedied,
}

-- a stand-in for the encoder
abbrev kind_of : Json → String
kind_of (text s) = s
kind_of _ = "structure"

abbrev finding : String → String → SecurityFinding
finding check_id severity = record {
  check_id = check_id;
  severity = severity;
  category = "pod-security";
  pod = "web";
  container = "api";
  namespace = "prod";
  resource = "web/api";
  message = "m";
  recommendation = "";
  type = "warning";
  description = "m";
}

abbrev findings : List SecurityFinding
findings =
    finding "POD_PRIVILEGED" "critical"
    ∷ finding "POD_CAPABILITIES" "critical"
    ∷ finding "POD_CAPABILITIES" "medium"
    ∷ finding "POD_SECCOMP" "low"
    ∷ []

-- counts the requests, and refuses them all
abbrev cluster : Cluster ℕ
cluster = record {
  patch_pod = λ namespace name type patch n. (err "forbidden", n + 1);
  patch_deployment = λ namespace name type patch n. (err "forbidden", n + 1);
}

two_patches : length (generate_patches kind_of findings) ≡ 2
unfolding generate_patches generate_patch
two_patches = refl

target-generate_patches_example :
    map target (generate_patches kind_of findings) ≡ map pod_of (filter is_patched findings)
target-generate_patches_example = target-generate_patches kind_of findings

check_findings_are_remedied_example :
    map target (generate_patches kind_of (privileged "prod" mixed))
    ≡ map pod_of (privileged "prod" mixed)
unfolding privileged run_pods
check_findings_are_remedied_example =
    check_findings_are_remedied kind_of on_privileged client "prod" (privileged "prod" mixed) refl
      refl
