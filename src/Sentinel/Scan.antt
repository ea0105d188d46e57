-- ===== src/Sentinel/Scan.antt =====
-- plugins/sentinel/cli/checks/registry.go and the pipeline of plugins/sentinel/cli/scan.go, from the
-- checks to the findings of the report.
pub mod Laws
pub mod Tests
use yby_cli.Prelude.{
  String, Bool, not, List, [], ◌∷◌, ◌++◌, Dict, lookup, none, some, Option, contains, filter,
  flat_map, cat, ◌==◌, eq_String, if◌then◌else◌,
}
use yby_cli.Prelude.Result.{Result, ok, err}
use yby_cli.Sentinel.Kube.{Client}
use yby_cli.Sentinel.Finding.{SecurityFinding, SecurityCheck}

-- The registry is the list of the checks in the order of their registration; it is read and written
-- under one lock.

-- Register
unfoldable pub register : SecurityCheck → List SecurityCheck → List SecurityCheck
register check registry = registry ++ check ∷ []

-- GetByCategory
unfoldable pub get_by_category : String → List SecurityCheck → List SecurityCheck
get_by_category category registry = filter (λ c. c.category == category) registry

-- GetByIDs
unfoldable pub get_by_ids : List String → List SecurityCheck → List SecurityCheck
get_by_ids ids registry = filter (λ c. contains c.id ids) registry

-- The checks of a scan: those of a profile, in the order of the registry, or all. `none` for a
-- profile that is not registered.
unfoldable pub selected_checks :
    Dict String (List String) → String → List SecurityCheck → Option (List SecurityCheck)
unfolding get_by_ids
selected_checks profiles profile registry =
    if profile == "" then some registry else elim (lookup profile profiles) [
      | none ↦ none
      | some check_ids ↦ some (get_by_ids check_ids registry)
    ]

-- `check.Run` in the loop over the selected checks: a check that fails adds nothing.
unfoldable pub found_by : Client → String → SecurityCheck → List SecurityFinding
found_by client namespace check = elim (check.run client namespace) [
  | ok findings ↦ findings
  | err e ↦ []
]

unfoldable pub run_checks : Client → String → List SecurityCheck → List SecurityFinding
unfolding found_by
run_checks client namespace checks = flat_map (found_by client namespace) checks

-- `fmt.Sprintf("%s|%s|%s", …)`
unfoldable pub finding_key : SecurityFinding → String
finding_key f = cat (f.resource ∷ "|" ∷ f.category ∷ "|" ∷ f.message ∷ [])

-- The loop of deduplicateFindings, with the keys seen so far.
unfoldable pub keep_unseen : List String → List SecurityFinding → List SecurityFinding
keep_unseen seen [] = []
keep_unseen seen (f ∷ findings) =
    if contains (finding_key f) seen
    then keep_unseen seen findings
    else f ∷ keep_unseen (finding_key f ∷ seen) findings

-- deduplicateFindings
unfoldable pub deduplicate_findings : List SecurityFinding → List SecurityFinding
unfolding keep_unseen
deduplicate_findings findings = keep_unseen [] findings

-- The findings of a scan for which no backend found anything.
unfoldable pub scan_findings : Client → String → List SecurityCheck → List SecurityFinding
unfolding run_checks deduplicate_findings
scan_findings client namespace checks = deduplicate_findings (run_checks client namespace checks)
