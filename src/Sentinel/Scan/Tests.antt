-- ===== src/Sentinel/Scan/Tests.antt =====
-- A scan with a failing check, and the theorems applied to it.
use yby_cli.Prelude.{String, true, ◌≡◌, refl, List, [], ◌∷◌, ◌++◌, contains, cat, eq_String}
use yby_cli.Prelude.Result.{Result, ok, err}
use yby_cli.Sentinel.Kube.{Client}
use yby_cli.Sentinel.Finding.{SecurityFinding, SecurityCheck}
use yby_cli.Sentinel.Scan.{finding_key, deduplicate_findings, scan_findings}
use yby_cli.Sentinel.Scan.Laws.{keys, scan_findings_complete}

abbrev finding : String → String → SecurityFinding
finding resource severity = record {
  check_id = "T";
  severity = severity;
  category = "rbac";
  pod = "";
  container = "";
  namespace = "prod";
  resource = resource;
  message = "m";
  recommendation = "";
  type = "warning";
  description = "m";
}

abbrev twice : List SecurityFinding
twice = finding "a" "low" ∷ finding "b" "low" ∷ finding "a" "high" ∷ []

abbrev check_of : Result String (List SecurityFinding) → SecurityCheck
check_of answer = record {
  id = "T";
  name = "t";
  category = "rbac";
  severity = "low";
  description = "";
  run = λ c ns. answer;
}

abbrev client : Client
client = record {
  list_pods = λ ns. err "unreachable";
  list_network_policies = λ ns. err "unreachable";
  list_cluster_roles = err "unreachable";
  list_roles = λ ns. err "unreachable";
  list_cluster_role_bindings = err "unreachable";
}

kept : deduplicate_findings twice ≡ finding "a" "low" ∷ finding "b" "low" ∷ []
unfolding deduplicate_findings finding_key cat
kept = refl

scan_findings_complete_example :
    contains "b|rbac|m" (
      keys
        (scan_findings client "prod" ((check_of (err "denied") ∷ []) ++ check_of (ok twice) ∷ [])))
    ≡ true
unfolding finding_key cat
scan_findings_complete_example =
    scan_findings_complete client "prod" (check_of (err "denied") ∷ []) [] (check_of (ok twice))
      twice "b|rbac|m" refl refl
