-- ===== src/Sentinel/Scan/Laws.antt =====
-- What de-duplication keeps.
use yby_cli.Prelude.{
  String, Bool, true, false, not, ◌&&◌, ◌||◌, ◌≡◌, refl, List, [], ◌∷◌, ◌++◌, contains, map, arith,
  eq_String, ◌==◌, if◌then◌else◌, Option, none, some, eq_iff, ap, flat_map,
}
use yby_cli.Prelude.Result.{ok}
use yby_cli.Sentinel.Kube.{Client}
use yby_cli.Sentinel.Finding.{SecurityFinding, SecurityCheck}
use yby_cli.Sentinel.Scan.{
  finding_key, keep_unseen, deduplicate_findings, found_by, run_checks, scan_findings,
}

-- The first finding with a key.
abbrev pub first_with : String → List SecurityFinding → Option SecurityFinding
first_with k [] = none
first_with k (f ∷ findings) = if k == finding_key f then some f else first_with k findings

abbrev pub keys : List SecurityFinding → List String
keys findings = map finding_key findings

-- No text stands twice in the list.
abbrev pub distinct : List String → Bool
distinct [] = true
distinct (k ∷ ks) = not (contains k ks) && distinct ks

contains-equal :
    (k j : String) (seen : List String) → (k == j) ≡ true → contains k seen ≡ contains j seen
contains-equal k j seen h = ap (λ x. contains x seen) ((eq_iff k j).0 h)

contains-keep_unseen :
    (k : String) (seen : List String) (findings : List SecurityFinding)
    → contains k seen ≡ true
    → contains k (keys (keep_unseen seen findings)) ≡ false
unfolding keep_unseen
contains-keep_unseen k seen [] h = refl
contains-keep_unseen k seen (f ∷ findings) h = ground (
  arith,
  contains-keep_unseen k seen findings h,
  contains-keep_unseen k (finding_key f ∷ seen) findings,
  contains-equal k (finding_key f) seen,
)

distinct-keep_unseen :
    (seen : List String) (findings : List SecurityFinding)
    → distinct (keys (keep_unseen seen findings)) ≡ true
unfolding keep_unseen
distinct-keep_unseen seen [] = refl
distinct-keep_unseen seen (f ∷ findings) = ground (
  arith,
  distinct-keep_unseen seen findings,
  distinct-keep_unseen (finding_key f ∷ seen) findings,
  contains-keep_unseen (finding_key f) (finding_key f ∷ seen) findings,
  (eq_iff (finding_key f) (finding_key f)).1 refl,
)

-- Findings with different keys, none of them seen, are all kept.
keep_unseen-distinct :
    (seen : List String) (findings : List SecurityFinding)
    → distinct (keys findings) ≡ true
    → ((k : String) → contains k seen ≡ true → contains k (keys findings) ≡ false)
    → keep_unseen seen findings ≡ findings
unfolding keep_unseen
keep_unseen-distinct seen [] d fresh = refl
keep_unseen-distinct seen (f ∷ findings) d fresh =
    let rest =
      keep_unseen-distinct (finding_key f ∷ seen) findings (ground arith)
        (λ k h. ground (arith, fresh k, contains-equal k (finding_key f) (keys findings))) in
    ground (arith, rest, fresh (finding_key f), (eq_iff (finding_key f) (finding_key f)).1 refl)

-- De-duplicating again changes nothing.
pub deduplicate_findings_idempotent :
    (findings : List SecurityFinding)
    → deduplicate_findings (deduplicate_findings findings) ≡ deduplicate_findings findings
unfolding deduplicate_findings
deduplicate_findings_idempotent findings =
    keep_unseen-distinct [] (keep_unseen [] findings) (distinct-keep_unseen [] findings) (λ k h. cc)

keys-append :
    (xs ys : List SecurityFinding) (k : String)
    → contains k (keys (xs ++ ys)) ≡ (contains k (keys xs) || contains k (keys ys))
keys-append [] ys k = refl
keys-append (x ∷ xs) ys k = ground (arith, keys-append xs ys k)

contains-deduplicated :
    (k : String) (seen : List String) (findings : List SecurityFinding)
    → contains k seen ≡ false
    → contains k (keys findings) ≡ true
    → contains k (keys (keep_unseen seen findings)) ≡ true
unfolding keep_unseen
contains-deduplicated k seen [] new h = h
contains-deduplicated k seen (f ∷ findings) new h = ground (
  arith,
  contains-deduplicated k seen findings new,
  contains-deduplicated k (finding_key f ∷ seen) findings,
  contains-equal k (finding_key f) seen,
)

module _ (client : Client) (namespace : String) where
  found_by_ok :
      (check : SecurityCheck) (findings : List SecurityFinding)
      → check.run client namespace ≡ ok findings
      → found_by client namespace check ≡ findings
  unfolding found_by
  found_by_ok check findings ran = rw (ran, found_by) refl

  run_checks_finds :
      (before after : List SecurityCheck) (check : SecurityCheck) (findings : List SecurityFinding)
      (k : String)
      → check.run client namespace ≡ ok findings
      → contains k (keys findings) ≡ true
      → contains k (keys (run_checks client namespace (before ++ check ∷ after))) ≡ true
  unfolding run_checks
  run_checks_finds [] after check findings k ran found = ground (
    arith,
    found_by_ok check findings ran,
    keys-append (found_by client namespace check) (flat_map (found_by client namespace) after) k,
    ap (λ fs. contains k (keys fs)) (found_by_ok check findings ran),
  )
  run_checks_finds (c ∷ before) after check findings k ran found = ground (
    arith,
    keys-append (found_by client namespace c)
        (flat_map (found_by client namespace) (before ++ check ∷ after)) k,
    run_checks_finds before after check findings k ran found,
  )

  -- What a selected check finds is in the scan's findings, up to their key, whatever the other checks
  -- return, errors included.
  pub scan_findings_complete :
      (before after : List SecurityCheck) (check : SecurityCheck) (findings : List SecurityFinding)
      (k : String)
      → check.run client namespace ≡ ok findings
      → contains k (keys findings) ≡ true
      → contains k (keys (scan_findings client namespace (before ++ check ∷ after))) ≡ true
  unfolding scan_findings
  scan_findings_complete before after check findings k ran found =
      contains-deduplicated k [] _ refl (run_checks_finds before after check findings k ran found)
