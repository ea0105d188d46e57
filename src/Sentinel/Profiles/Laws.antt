-- ===== src/Sentinel/Profiles/Laws.antt =====
-- The profiles against the registered checks.
use yby_cli.Prelude.{
  ◌∙◌, map, subst, sym, refl, eq_String, inr, inl, [], All, ◌==◌, ◌∷◌, ℕ, Bool-cases, ◌⊎◌, Option,
  Bool, some, List, ◌≡◌, insert, String, Dict, lookup,
}
use yby_cli.Sentinel.Kube.{LabelSelector}
use yby_cli.Sentinel.Finding.{SecurityCheck}
use yby_cli.Sentinel.Profiles.{
  ComplianceProfile, get_profile, cis_l1, cis_l2, pci_dss, soc2, profiles,
}
use yby_cli.Sentinel.Registered.{registered_checks}
use yby_cli.Sentinel.Scan.{get_by_ids}

found_none :
    (name : String) (p : ComplianceProfile)
    → (let empty : Dict String ComplianceProfile = [] in lookup name empty) ≡ some p
    → ⊥
unfolding lookup
found_none name p h = absurd (cc)

found_one :
    (name key : String) (value p : ComplianceProfile) (rest : Dict String ComplianceProfile)
    → lookup name ((key, value) ∷ rest) ≡ some p
    → (value ≡ p) ⊎ (lookup name rest ≡ some p)
unfolding lookup
found_one name key value p rest h = elim (Bool-cases (key == name)) [
  | inl e ↦ inl (let found : some value ≡ some p = sym (rw (e, lookup) refl) ∙ h in cc)
  | inr e ↦ inr (sym (rw (e, lookup) refl) ∙ h)
]

module _ (range : Dict String (List String) → Dict String (List String)) (has_cosign : Bool)
    (verify : String → Bool) (as_selector : LabelSelector → Option (List (String × String) → Bool))
    (to_lower : String → String) (show_int : ℕ → String) where
  abbrev pub checks : List SecurityCheck
  checks = registered_checks range has_cosign verify as_selector to_lower show_int

  -- Exactly one of the registered checks has the id.
  abbrev pub IsRegistered : String → Type 0
  IsRegistered id =
      map (λ (check : SecurityCheck). check.id) (get_by_ids (id ∷ []) checks) ≡ id ∷ []

  cis_l1_checks : All IsRegistered cis_l1.check_ids
  unfolding registered_checks get_by_ids
  cis_l1_checks = (refl, (refl, (refl, (refl, (refl, (refl, (refl, tt)))))))

  cis_l2_checks : All IsRegistered cis_l2.check_ids
  unfolding registered_checks get_by_ids
  cis_l2_checks = (
    refl,
    (
      refl,
      (
        refl,
        (
          refl,
          (
            refl,
            (
              refl,
              (
                refl,
                (refl, (refl, (refl, (refl, (refl, (refl, (refl, (refl, (refl, (refl, tt)))))))))),
              ),
            ),
          ),
        ),
      ),
    ),
  )

  pci_dss_checks : All IsRegistered pci_dss.check_ids
  unfolding registered_checks get_by_ids
  pci_dss_checks = (refl, (refl, (refl, (refl, (refl, (refl, (refl, (refl, (refl, tt)))))))))

  soc2_checks : All IsRegistered soc2.check_ids
  unfolding registered_checks get_by_ids
  soc2_checks =
      (refl, (refl, (refl, (refl, (refl, (refl, (refl, (refl, (refl, (refl, (refl, tt)))))))))))

  -- Each check that a compliance profile asks for is registered, by one check and no other, so that a
  -- scan under the profile runs all of them.
  pub profile_checks-IsRegistered :
      (name : String) (p : ComplianceProfile)
      → get_profile name profiles ≡ some p
      → All IsRegistered p.check_ids
  unfolding get_profile profiles insert
  profile_checks-IsRegistered name p h = elim (found_one name _ cis_l1 p _ h) [
    | inl e ↦ subst (λ q. All IsRegistered q.check_ids) e cis_l1_checks
    | inr k ↦ elim (found_one name _ cis_l2 p _ k) [
      | inl e ↦ subst (λ q. All IsRegistered q.check_ids) e cis_l2_checks
      | inr l ↦ elim (found_one name _ pci_dss p _ l) [
        | inl e ↦ subst (λ q. All IsRegistered q.check_ids) e pci_dss_checks
        | inr m ↦ elim (found_one name _ soc2 p _ m) [
          | inl e ↦ subst (λ q. All IsRegistered q.check_ids) e soc2_checks
          | inr n ↦ absurd (found_none name p n)
        ]
      ]
    ]
  ]
