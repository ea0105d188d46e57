-- ===== src/Sentinel/Cluster/NetworkLaws.antt =====
-- The checks of the network policies are silent exactly where the policies are there.
use yby_cli.Prelude.{
  sym, subst, false≢true, ap, ◌∙◌, if◌then◌else◌, none, some, nat_eq_iff, flat_map-nil, false,
  append-eq-nil, All, refl, eq_String, eq_iff, arith, length, ◌∷◌, ◌==◌, ◌↔◌, ◌||◌, [], true, any,
  some, ◌&&◌, nat_eq, List, Bool, Option, String, ◌≡◌, ℕ,
}
use yby_cli.Prelude.Result.{ok}
use yby_cli.Sentinel.Kube.{Pod, LabelSelector, NetworkPolicy, Client}
use yby_cli.Sentinel.Cluster.Network.{
  Denied, selects_all, deny_type, deny_types, denied_by, default_deny, is_covered, coverage,
}
use yby_cli.Sentinel.Cluster.Iffs.{
  iff_trans, both_iff, and_true, not-false, when-empty, Some, any-true, ok_iff,
}

-- The policy is for every pod.
abbrev pub ForAllPods : NetworkPolicy → Type 0
ForAllPods np = (np.pod_selector.match_labels ≡ []) × (np.pod_selector.match_expressions ≡ [])

-- It restricts what comes in, and allows nothing.
abbrev pub DeniesIngress : NetworkPolicy → Type 0
DeniesIngress np =
    ForAllPods np × (Some (λ pt. pt ≡ "Ingress") np.policy_types × (np.ingress_rules ≡ 0))

abbrev pub DeniesEgress : NetworkPolicy → Type 0
DeniesEgress np =
    ForAllPods np × (Some (λ pt. pt ≡ "Egress") np.policy_types × (np.egress_rules ≡ 0))

abbrev denies_ingress : NetworkPolicy → Bool
denies_ingress np =
    selects_all np && (any (λ pt. pt == "Ingress") np.policy_types && nat_eq np.ingress_rules 0)

abbrev denies_egress : NetworkPolicy → Bool
denies_egress np =
    selects_all np && (any (λ pt. pt == "Egress") np.policy_types && nat_eq np.egress_rules 0)

deny_types_ingress :
    (np : NetworkPolicy) (pts : List String) (d : Denied)
    → (deny_types np pts d).ingress
      ≡ (d.ingress || (any (λ pt. pt == "Ingress") pts && nat_eq np.ingress_rules 0))
unfolding deny_types deny_type
deny_types_ingress np [] d = ground arith
deny_types_ingress np (pt ∷ pts) d = ground (arith, deny_types_ingress np pts (deny_type np pt d))

deny_types_egress :
    (np : NetworkPolicy) (pts : List String) (d : Denied)
    → (deny_types np pts d).egress
      ≡ (d.egress || (any (λ pt. pt == "Egress") pts && nat_eq np.egress_rules 0))
unfolding deny_types deny_type
deny_types_egress np [] d = ground arith
deny_types_egress np (pt ∷ pts) d = ground (arith, deny_types_egress np pts (deny_type np pt d))

or_assoc : (a b c : Bool) → ((a || b) || c) ≡ (a || (b || c))
or_assoc true b c = refl
or_assoc false b c = refl

deny_round_ingress :
    (selected : Bool) (np : NetworkPolicy) (d : Denied)
    → (if selected then deny_types np np.policy_types d else d).ingress ≡ (
        d.ingress
        || (selected && (any (λ pt. pt == "Ingress") np.policy_types && nat_eq np.ingress_rules 0)))
deny_round_ingress true np d = deny_types_ingress np np.policy_types d
deny_round_ingress false np d = ground arith

denied_by_ingress :
    (nps : List NetworkPolicy) (d : Denied)
    → (denied_by nps d).ingress ≡ (d.ingress || any denies_ingress nps)
unfolding denied_by
denied_by_ingress [] d = ground arith
denied_by_ingress (np ∷ nps) d =
    let next = (if selects_all np then deny_types np np.policy_types d else d) in
    denied_by_ingress nps next
    ∙ ap (λ b. b || any denies_ingress nps) (deny_round_ingress (selects_all np) np d)
    ∙ or_assoc d.ingress (denies_ingress np) (any denies_ingress nps)

deny_round_egress :
    (selected : Bool) (np : NetworkPolicy) (d : Denied)
    → (if selected then deny_types np np.policy_types d else d).egress ≡ (
        d.egress
        || (selected && (any (λ pt. pt == "Egress") np.policy_types && nat_eq np.egress_rules 0)))
deny_round_egress true np d = deny_types_egress np np.policy_types d
deny_round_egress false np d = ground arith

denied_by_egress :
    (nps : List NetworkPolicy) (d : Denied)
    → (denied_by nps d).egress ≡ (d.egress || any denies_egress nps)
unfolding denied_by
denied_by_egress [] d = ground arith
denied_by_egress (np ∷ nps) d =
    let next = (if selects_all np then deny_types np np.policy_types d else d) in
    denied_by_egress nps next
    ∙ ap (λ b. b || any denies_egress nps) (deny_round_egress (selects_all np) np d)
    ∙ or_assoc d.egress (denies_egress np) (any denies_egress nps)

none_there : {A : Type 0} (xs : List A) → (nat_eq (length xs) 0 ≡ true) ↔ (xs ≡ [])
none_there [] = (λ h. refl, λ h. refl)
none_there (x ∷ xs) =
    (λ h. absurd (omega (arith, (nat_eq_iff (length (x ∷ xs)) 0).0 h)), λ h. absurd (cc))

is_zero : (n : ℕ) → (nat_eq n 0 ≡ true) ↔ (n ≡ 0)
is_zero n = (λ h. ground (arith, h), λ h. ground (arith, h))

selects_all-true : (np : NetworkPolicy) → (selects_all np ≡ true) ↔ ForAllPods np
unfolding selects_all
selects_all-true np = iff_trans (and_true _ _) (
    both_iff (none_there np.pod_selector.match_labels)
      (none_there np.pod_selector.match_expressions))

denies_type :
    (np : NetworkPolicy) (pt : String) (rules : ℕ)
    → ((selects_all np && (any (λ x. x == pt) np.policy_types && nat_eq rules 0)) ≡ true)
      ↔ (ForAllPods np × (Some (λ x. x ≡ pt) np.policy_types × (rules ≡ 0)))
denies_type np pt rules = iff_trans (and_true _ _) (
    both_iff (selects_all-true np) (
      iff_trans (and_true _ _)
        (both_iff (any-true _ _ np.policy_types (λ x. eq_iff x pt)) (is_zero rules))))

abbrev selector_matches : Option (List (String × String) → Bool) → List (String × String) → Bool
selector_matches none labels = false
selector_matches (some matches) labels = matches labels

matches_round :
    (selector : Option (List (String × String) → Bool)) (labels : List (String × String))
    (rest : Bool)
    → (elim selector as (λ x. Bool) [
      | none ↦ rest
      | some matches ↦ if matches labels then true else rest
    ])
      ≡ (selector_matches selector labels || rest)
matches_round none labels rest = refl
matches_round (some matches) labels rest = ground arith

matches_true :
    (selector : Option (List (String × String) → Bool)) (labels : List (String × String))
    → (selector_matches selector labels ≡ true) ↔ (
        (matches : List (String × String) → Bool) × (selector ≡ some matches)
        × (matches labels ≡ true))
matches_true none labels =
    (λ h. absurd (false≢true h), λ h. subst (λ x. selector_matches x labels ≡ true) (sym h.1) h.2)
matches_true (some found) labels =
    (λ h. (found, refl, h), λ h. subst (λ x. selector_matches x labels ≡ true) (sym h.1) h.2)

module _ (as_selector : LabelSelector → Option (List (String × String) → Bool)) where
  -- The policy's selector converts, and matches the labels of the pod.
  abbrev pub Selects : Pod → NetworkPolicy → Type 0
  Selects pod np =
      (matches : List (String × String) → Bool) × (as_selector np.pod_selector ≡ some matches)
      × (matches pod.labels ≡ true)

  selects : Pod → NetworkPolicy → Bool
  selects pod np = selector_matches (as_selector np.pod_selector) pod.labels

  is_covered-any :
      (pod : Pod) (nps : List NetworkPolicy)
      → is_covered as_selector pod nps ≡ any (selects pod) nps
  unfolding is_covered selects
  is_covered-any pod [] = refl
  is_covered-any pod (np ∷ nps) =
      matches_round (as_selector np.pod_selector) pod.labels (is_covered as_selector pod nps)
      ∙ ap (λ b. selects pod np || b) (is_covered-any pod nps)

  module _ (client : Client) (namespace : String) (pods : List Pod)
      (netpols : List NetworkPolicy) where
    -- Where the server answers, the check for default-deny is silent exactly when a policy for every
    -- pod denies what comes in and one, the same or another, denies what goes out; and the check
    -- of coverage exactly when each pod matches the selector of some policy, one that converts.
    pub network_silent :
        client.list_pods namespace ≡ ok pods
        → client.list_network_policies namespace ≡ ok netpols
        → ((default_deny client namespace ≡ ok [])
            ↔ (Some DeniesIngress netpols × Some DeniesEgress netpols))
          × ((coverage as_selector client namespace ≡ ok [])
              ↔ All (λ pod. Some (Selects pod) netpols) pods)
    unfolding default_deny coverage selects
    network_silent of_pods of_policies = (
      rw of_policies (
          iff_trans (ok_iff _) (
            iff_trans (append-eq-nil _ _) (
              both_iff
                (iff_trans (when-empty _ _) (
                  iff_trans (not-false _) (
                    rw (denied_by_ingress netpols (record { ingress = false; egress = false })) (
                      any-true DeniesIngress denies_ingress netpols
                        (λ np. denies_type np "Ingress" np.ingress_rules)))))
                (iff_trans (when-empty _ _) (
                  iff_trans (not-false _) (
                    rw (denied_by_egress netpols (record { ingress = false; egress = false })) (
                      any-true DeniesEgress denies_egress netpols
                        (λ np. denies_type np "Egress" np.egress_rules)))))))),
      rw (of_pods, of_policies)
          (iff_trans (ok_iff _) (
            flat_map-nil (λ pod. Some (Selects pod) netpols) _
              (λ pod. iff_trans (when-empty _ _) (
                iff_trans (not-false _) (
                  rw (is_covered-any pod netpols) (
                    any-true (Selects pod) (selects pod) netpols
                      (λ np. matches_true (as_selector np.pod_selector) pod.labels)))))
              pods)),
    )
