-- ===== src/Sentinel/Remediation/Laws.antt =====
-- Which findings are patched, where the patches go, and what their application tries.
use yby_cli.Prelude.{
  ℕ, String, Bool, true, false, not, ◌&&◌, ◌||◌, ◌+◌, ◌≡◌, refl, List, [], ◌∷◌, Option, none, some,
  All, map, filter, contains, length, arith, ◌==◌, eq_String, if◌then◌else◌, ap, sym, ◌∙◌, subst,
  eq_iff, false≢true, Option-cases, inl, inr,
}
use yby_cli.Prelude.Result.{ok}
use yby_cli.Sentinel.Kube.{Client}
use yby_cli.Sentinel.Finding.{SecurityFinding, SecurityCheck}
use yby_cli.Sentinel.Pods.Shape.{AllOk, Labelled, PodCheck, check_of, findings_carry_their_check}
use yby_cli.Sentinel.Remediation.{
  Json, patch_run_as_non_root, patch_resource_limits, patch_privileged, patch_privilege_escalation,
  patch_read_only_rootfs, patch_drop_all_capabilities, patch_automount_token, RemediationPatch,
  generate_patch, generate_patches, Cluster, strategic_merge, apply_patch, apply_patches,
}

-- The checks whose findings always have a patch.
abbrev pub patched_ids : List String
patched_ids =
    "POD_ROOT_CONTAINER" ∷ "POD_RESOURCE_LIMITS" ∷ "POD_PRIVILEGED" ∷ "POD_PRIVILEGE_ESCALATION"
    ∷ "POD_READONLY_ROOTFS" ∷ "POD_SERVICE_ACCOUNT_TOKEN" ∷ []

-- A finding of one of them, or of the capabilities check unless it is critical (SYS_ADMIN).
unfoldable pub is_patched : SecurityFinding → Bool
is_patched f =
    contains f.check_id patched_ids
    || (f.check_id == "POD_CAPABILITIES" && not (f.severity == "critical"))

-- What a patch is for: the kind, the namespace and the name of the resource, and the type of the patch.
abbrev pub target : RemediationPatch → String × String × String × String
target p = (p.resource_kind, p.namespace, p.resource_name, p.patch_type)

abbrev pub pod_of : SecurityFinding → String × String × String × String
pod_of f = ("Pod", f.namespace, f.pod, "strategic-merge")

module _ (marshal : Json → String) where
  targets :
      (f : SecurityFinding)
      → (target (patch_run_as_non_root marshal f) ≡ pod_of f)
        × (target (patch_resource_limits marshal f) ≡ pod_of f)
        × (target (patch_privileged marshal f) ≡ pod_of f)
        × (target (patch_privilege_escalation marshal f) ≡ pod_of f)
        × (target (patch_read_only_rootfs marshal f) ≡ pod_of f)
        × (target (patch_drop_all_capabilities marshal f) ≡ pod_of f)
        × (target (patch_automount_token marshal f) ≡ pod_of f)
  unfolding patch_run_as_non_root patch_resource_limits patch_privileged patch_privilege_escalation
      patch_read_only_rootfs patch_drop_all_capabilities patch_automount_token
  targets f = (refl, refl, refl, refl, refl, refl, refl)

  -- the target of the patch of one finding
  abbrev target_of : Option RemediationPatch → List (String × String × String × String)
  target_of none = []
  target_of (some p) = target p ∷ []

  -- The cases of `generatePatch` on Boolean tests.
  cascade :
      (a b c d e m n s : Bool) (p q r t u v w : RemediationPatch)
      (to : String × String × String × String)
      → (target p ≡ to)
        × (target q ≡ to)
        × (target r ≡ to)
        × (target t ≡ to)
        × (target u ≡ to)
        × (target v ≡ to)
        × (target w ≡ to)
      → (m ≡ true → n ≡ false)
      → target_of (
          if a
          then some p
          else if b
          then some q
          else if c
          then some r
          else if d
          then some t
          else if e
          then some u
          else if m
          then (if s then none else some v)
          else if n
          then some w
          else none)
        ≡ (if (a || (b || (c || (d || (e || (n || false)))))) || (m && not s) then to ∷ [] else [])
  cascade true b c d e m n s p q r t u v w to h x = ap (λ k. k ∷ []) h.0
  cascade false true c d e m n s p q r t u v w to h x = ap (λ k. k ∷ []) h.1
  cascade false false true d e m n s p q r t u v w to h x = ap (λ k. k ∷ []) h.2
  cascade false false false true e m n s p q r t u v w to h x = ap (λ k. k ∷ []) h.3
  cascade false false false false true m n s p q r t u v w to h x = ap (λ k. k ∷ []) h.4
  cascade false false false false false true true s p q r t u v w to h x =
      absurd (false≢true (sym (x refl)))
  cascade false false false false false true false true p q r t u v w to h x = refl
  cascade false false false false false true false false p q r t u v w to h x = ap (λ k. k ∷ []) h.5
  cascade false false false false false false true s p q r t u v w to h x = ap (λ k. k ∷ []) h.6
  cascade false false false false false false false s p q r t u v w to h x = refl

  target_of-generate_patch :
      (f : SecurityFinding)
      → target_of (generate_patch marshal f) ≡ (if is_patched f then pod_of f ∷ [] else [])
  unfolding generate_patch is_patched
  target_of-generate_patch f = cascade _ _ _ _ _ _ _ _ _ _ _ _ _ _ _ _ (targets f) (λ h.
      ap (λ id. id == "POD_SERVICE_ACCOUNT_TOKEN") ((eq_iff f.check_id "POD_CAPABILITIES").0 h))

  -- The patches of a list of findings go, in their order, to the pods of those findings that have a
  -- patch: the ones of the seven checks, except SYS_ADMIN. Each is a strategic merge of a pod.
  pub target-generate_patches :
      (findings : List SecurityFinding)
      → map target (generate_patches marshal findings) ≡ map pod_of (filter is_patched findings)
  unfolding generate_patches
  target-generate_patches [] = refl
  target-generate_patches (f ∷ findings) =
      ground (arith, target_of-generate_patch f, target-generate_patches findings)

  generate_patch_kind :
      (f : SecurityFinding) (p : RemediationPatch)
      → generate_patch marshal f ≡ some p
      → (target p ≡ pod_of f) × (is_patched f ≡ true)
  generate_patch_kind f p h =
      same (is_patched f) (ap target_of (sym h) ∙ target_of-generate_patch f)
    where
      same :
          (b : Bool)
          → target p ∷ [] ≡ (if b then pod_of f ∷ [] else [])
          → (target p ≡ pod_of f) × (b ≡ true)
      same true e = (cc, refl)
      same false e = absurd (cc)

  generate_patch-none :
      (f : SecurityFinding) → generate_patch marshal f ≡ none → is_patched f ≡ false
  generate_patch-none f h = same (is_patched f) (ap target_of (sym h) ∙ target_of-generate_patch f)
    where
      same : (b : Bool) → [] ≡ (if b then pod_of f ∷ [] else []) → b ≡ false
      same true e = absurd (cc)
      same false e = refl

  module _ {W : Type 0} (cluster : Cluster W) (calls : W → ℕ) where
    calls-apply_patch :
        (p : RemediationPatch) (f : SecurityFinding) (w : W)
        → ((namespace name text : String) (v : W)
            → calls (cluster.patch_pod namespace name strategic_merge text v).1 ≡ calls v + 1)
        → target p ≡ pod_of f
        → calls (apply_patch cluster p w).1 ≡ calls w + 1
    unfolding apply_patch
    calls-apply_patch p f w sends aimed =
        let kind : p.resource_kind ≡ "Pod" = ap (λ t. t.0) aimed in
        let type : p.patch_type ≡ "strategic-merge" = ap (λ t. t.3) aimed in
        rw (kind, apply_patch) (rw type (sends p.namespace p.resource_name p.patch w))

    -- When the patches of a scan are applied, each is sent to the server once as a strategic merge
    -- patch of a pod, whatever the server answered to the ones before: a count of these requests
    -- rises by the number of findings that have a patch.
    pub apply_patches_sends_all :
        (findings : List SecurityFinding) (w : W)
        → ((namespace name text : String) (v : W)
            → calls (cluster.patch_pod namespace name strategic_merge text v).1 ≡ calls v + 1)
        → calls (apply_patches cluster (generate_patches marshal findings) w).1
          ≡ calls w + length (filter is_patched findings)
    unfolding apply_patches generate_patches
    apply_patches_sends_all [] w sends = omega arith
    apply_patches_sends_all (f ∷ findings) w sends =
        elim (Option-cases (generate_patch marshal f)) [
          | inl e ↦
              rw (e, generate_patches)
                (rw (generate_patch-none f e) (apply_patches_sends_all findings w sends))
          | inr (p, e) ↦
              let (aimed, counted) = generate_patch_kind f p e in
              rw (e, generate_patches)
                (rw counted (
                  omega (
                    arith,
                    calls-apply_patch p f w sends aimed,
                    apply_patches_sends_all findings (apply_patch cluster p w).1 sends,
                  )))
        ]

  filter-patched :
      (findings : List SecurityFinding)
      → All (λ f. is_patched f ≡ true) findings
      → filter is_patched findings ≡ findings
  filter-patched [] h = refl
  filter-patched (f ∷ findings) (h, rest) = ground (arith, h, filter-patched findings rest)

  Labelled-patched :
      (check : SecurityCheck) (namespace : String) (findings : List SecurityFinding)
      → contains check.id patched_ids ≡ true
      → All (Labelled check namespace) findings
      → All (λ f. is_patched f ≡ true) findings
  unfolding is_patched
  Labelled-patched check namespace [] known h = tt
  Labelled-patched check namespace (f ∷ findings) known (h, rest) =
      (rw h.0 (rw known refl), Labelled-patched check namespace findings known rest)

  -- Each finding of a run of the root, limits, privileged, escalation, root file system and service
  -- account checks gets a patch, in the order of the findings: a strategic merge of the finding's pod.
  pub check_findings_are_remedied :
      (check : PodCheck) (client : Client) (namespace : String) (findings : List SecurityFinding)
      → contains (check_of check).id patched_ids ≡ true
      → (check_of check).run client namespace ≡ ok findings
      → map target (generate_patches marshal findings) ≡ map pod_of findings
  check_findings_are_remedied check client namespace findings known ran =
      target-generate_patches findings
      ∙ ap (map pod_of) (
          filter-patched findings (
            Labelled-patched (check_of check) namespace findings known (
              subst (AllOk (Labelled (check_of check) namespace)) ran
                (findings_carry_their_check check client namespace))))
