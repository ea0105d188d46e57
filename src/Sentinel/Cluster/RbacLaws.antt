-- ===== src/Sentinel/Cluster/RbacLaws.antt =====
-- The checks of the roles are silent exactly on roles that grant what they should.
use yby_cli.Prelude.{
  eq_iff, append-eq-nil, not, if◌then◌else◌, String, flat_map-nil, arith, refl, inr, false≢true,
  ◌∙◌, sym, eq_String, inl, contains, Bool-cases, ◌&&◌, ◌∷◌, ◌||◌, ◌⊎◌, ◌↔◌, ◌==◌, false, any, ◌≢◌,
  [], true, Bool, ◌≡◌, All, List,
}
use yby_cli.Prelude.Result.{ok}
use yby_cli.Sentinel.Kube.{PolicyRule, Role, Subject, ClusterRoleBinding, Client}
use yby_cli.Sentinel.Finding.{SecurityFinding}
use yby_cli.Sentinel.Cluster.Allowlist.{should_skip_rbac_resource}
use yby_cli.Sentinel.Cluster.Rbac.{
  cluster_admin_finding, is_system_masters, cluster_admin_round, cluster_admin,
  wildcard_cluster_role_finding, wildcard_role_finding, has_wildcard, first_wildcard, wildcard,
  read_verbs, has_secrets_access, secrets_access,
}
use yby_cli.Sentinel.Cluster.Iffs.{
  ok_iff, iff_trans, both_iff, either_iff, or_false, and_false, and_true, not-false, not_equal,
  when-empty, any-false,
}

-- No rule is for all verbs or all resources.
abbrev pub NoWildcard : Role → Type 0
NoWildcard role =
    All (λ rule. All (λ verb. verb ≢ "*") rule.verbs × All (λ res. res ≢ "*") rule.resources)
      role.rules

-- Each rule leaves the secrets out, or all the verbs that read them.
abbrev pub KeepsSecrets : Role → Type 0
KeepsSecrets role =
    All
      (λ rule.
        All (λ res. (res ≢ "secrets") × (res ≢ "*")) rule.resources
        ⊎ All (λ verb. All (λ w. verb ≢ w) ("get" ∷ "list" ∷ "watch" ∷ "*" ∷ [])) rule.verbs)
      role.rules

-- The binding is for another role, or of a known name, or only for the masters of the system.
abbrev pub AdminsOnly : ClusterRoleBinding → Type 0
AdminsOnly binding =
    (binding.role_ref ≢ "cluster-admin")
    ⊎ ((should_skip_rbac_resource binding.name ≡ true)
        ⊎ All (λ subject. (subject.kind ≡ "Group") × (subject.name ≡ "system:masters"))
            binding.subjects)

-- The name is on the lists, or the role grants what it should.
abbrev pub SkippedOr : (Role → Type 0) → Role → Type 0
SkippedOr P role = (should_skip_rbac_resource role.name ≡ true) ⊎ P role

has_wildcard-false :
    (rule : PolicyRule)
    → (has_wildcard rule ≡ false)
      ↔ (All (λ verb. verb ≢ "*") rule.verbs × All (λ res. res ≢ "*") rule.resources)
unfolding has_wildcard
has_wildcard-false rule = iff_trans (or_false _ _) (
    both_iff (any-false _ _ rule.verbs (λ v. not_equal v "*"))
      (any-false _ _ rule.resources (λ r. not_equal r "*")))

first_wildcard-empty :
    (finding : SecurityFinding) (rules : List PolicyRule)
    → (first_wildcard finding rules ≡ [])
      ↔ All
          (λ rule. All (λ verb. verb ≢ "*") rule.verbs × All (λ res. res ≢ "*") rule.resources)
          rules
unfolding first_wildcard
first_wildcard-empty finding [] = (λ h. tt, λ h. refl)
first_wildcard-empty finding (rule ∷ rules) = elim (Bool-cases (has_wildcard rule)) [
  | inl e ↦ (
    λ h. absurd (let bad : finding ∷ [] ≡ [] = sym (rw (e, first_wildcard) refl) ∙ h in cc),
    λ h. absurd (false≢true (sym ((has_wildcard-false rule).1 h.0) ∙ e)),
  )
  | inr e ↦ rw e (
    λ h. ((has_wildcard-false rule).0 e, (first_wildcard-empty finding rules).0 h),
    λ h. (first_wildcard-empty finding rules).1 h.1,
  )
]

may_read : PolicyRule → Bool
may_read rule =
    any (λ res. res == "secrets" || res == "*") rule.resources
    && any (λ verb. contains verb read_verbs) rule.verbs

has_secrets_access-any : (rules : List PolicyRule) → has_secrets_access rules ≡ any may_read rules
unfolding has_secrets_access may_read
has_secrets_access-any [] = refl
has_secrets_access-any (rule ∷ rules) = ground (arith, has_secrets_access-any rules)

contains-false :
    (word : String) (words : List String)
    → (contains word words ≡ false) ↔ All (λ w. word ≢ w) words
contains-false word [] = (λ h. tt, λ h. refl)
contains-false word (w ∷ words) =
    iff_trans (or_false (word == w) (contains word words))
      (both_iff (not_equal word w) (contains-false word words))

has_secrets_access-false :
    (role : Role) → (has_secrets_access role.rules ≡ false) ↔ KeepsSecrets role
unfolding may_read
has_secrets_access-false role = rw (has_secrets_access-any role.rules) (
    any-false _ may_read role.rules (λ rule. iff_trans (and_false _ _) (
      either_iff
        (any-false _ _ rule.resources (λ res.
          iff_trans (or_false (res == "secrets") (res == "*"))
            (both_iff (not_equal res "secrets") (not_equal res "*"))))
        (any-false _ _ rule.verbs (λ verb. contains-false verb read_verbs)))))

-- What is skipped adds nothing.
unless_skipped :
    (P : Role → Type 0) (role : Role) (fs : List SecurityFinding)
    → (fs ≡ []) ↔ P role
    → ((if should_skip_rbac_resource role.name then [] else fs) ≡ []) ↔ SkippedOr P role
unless_skipped P role fs h = elim (Bool-cases (should_skip_rbac_resource role.name)) [
  | inl e ↦ rw e (λ x. inl refl, λ x. refl)
  | inr e ↦ rw e (λ x. inr (h.0 x), λ x. elim x [ inl y ↦ absurd (cc) | inr y ↦ h.1 y ])
]

cluster_admin_round-empty :
    (binding : ClusterRoleBinding) → (cluster_admin_round binding ≡ []) ↔ AdminsOnly binding
unfolding cluster_admin_round is_system_masters
cluster_admin_round-empty binding =
    let subjects =
      flat_map-nil _ _
        (λ (subject : Subject).
          iff_trans
            (when-empty (not (is_system_masters subject)) (cluster_admin_finding binding subject))
            (iff_trans (not-false (is_system_masters subject)) (
              iff_trans (and_true _ _)
                (both_iff (eq_iff subject.kind "Group") (eq_iff subject.name "system:masters")))))
        binding.subjects in
    elim (Bool-cases (binding.role_ref == "cluster-admin")) [
      | inr e ↦ rw e (λ x. inl ((not_equal binding.role_ref "cluster-admin").0 e), λ x. refl)
      | inl e ↦ elim (Bool-cases (should_skip_rbac_resource binding.name)) [
        | inl k ↦ rw (e, k) (λ x. inr (inl refl), λ x. refl)
        | inr k ↦
            rw (e, k)
              (
                λ x. inr (inr (subjects.0 x)),
                λ x. elim x [
                  | inl other ↦ absurd (other ((eq_iff binding.role_ref "cluster-admin").0 e))
                  | inr (inl y) ↦ absurd (cc)
                  | inr (inr y) ↦ subjects.1 y
                ],
              )
      ]
    ]

module _ (client : Client) (namespace : String) (cluster_roles roles : List Role)
    (bindings : List ClusterRoleBinding) where
  -- Where the server answers, the three checks of the roles are silent exactly on what they ask for:
  -- the admin check, when each binding is for another role than cluster-admin, or has a name on the
  -- allowlists, or binds only system:masters; the two others, when each role of the namespace, and
  -- each role of the cluster whose name is not on the allowlists, has no rule for all verbs or all
  -- resources, and has no rule that reads secrets.
  pub rbac_silent :
      client.list_cluster_roles ≡ ok cluster_roles
      → client.list_roles namespace ≡ ok roles
      → client.list_cluster_role_bindings ≡ ok bindings
      → ((cluster_admin client namespace ≡ ok []) ↔ All AdminsOnly bindings)
        × ((wildcard client namespace ≡ ok [])
            ↔ (All (SkippedOr NoWildcard) cluster_roles × All NoWildcard roles))
        × ((secrets_access client namespace ≡ ok [])
            ↔ (All (SkippedOr KeepsSecrets) cluster_roles × All KeepsSecrets roles))
  unfolding cluster_admin wildcard secrets_access
  rbac_silent of_cluster of_namespace bound = (
    rw bound (iff_trans (ok_iff _) (flat_map-nil AdminsOnly _ cluster_admin_round-empty bindings)),
    rw (of_cluster, of_namespace)
        (iff_trans (ok_iff _) (
          iff_trans (append-eq-nil _ _) (
            both_iff
              (flat_map-nil (SkippedOr NoWildcard) _
                (λ role.
                  unless_skipped NoWildcard role _
                    (first_wildcard-empty (wildcard_cluster_role_finding role) role.rules))
                cluster_roles)
              (flat_map-nil NoWildcard _
                (λ role. first_wildcard-empty (wildcard_role_finding namespace role) role.rules)
                roles)))),
    rw (of_cluster, of_namespace)
        (iff_trans (ok_iff _) (
          iff_trans (append-eq-nil _ _) (
            both_iff
              (flat_map-nil (SkippedOr KeepsSecrets) _
                (λ role.
                  unless_skipped KeepsSecrets role _
                    (iff_trans (when-empty _ _) (has_secrets_access-false role)))
                cluster_roles)
              (flat_map-nil KeepsSecrets _
                (λ role. iff_trans (when-empty _ _) (has_secrets_access-false role)) roles)))),
  )
