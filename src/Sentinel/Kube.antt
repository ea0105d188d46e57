-- ===== src/Sentinel/Kube.antt =====
-- The parts of Kubernetes objects (k8s.io/api) that the checks read, and the client that lists them.
-- A Go pointer is an `Option`. User ids and ports are not negative.
use yby_cli.Prelude.{ℕ, String, Bool, Option, List}
use yby_cli.Prelude.Result.{Result}

pub record Capabilities : Type 0 where
  pub add : List String
  pub drop : List String

pub record SecurityContext : Type 0 where
  pub run_as_user : Option ℕ
  pub run_as_non_root : Option Bool
  pub privileged : Option Bool
  pub allow_privilege_escalation : Option Bool
  pub read_only_root_filesystem : Option Bool
  pub capabilities : Option Capabilities

-- `resources.limits`, with whether each quantity is zero
pub record Limits : Type 0 where
  pub cpu_is_zero : Bool
  pub memory_is_zero : Bool

pub record EnvVar : Type 0 where
  pub name : String
  pub has_value_from : Bool

pub record Container : Type 0 where
  pub name : String
  pub image : String
  pub image_pull_policy : String
  pub security_context : Option SecurityContext
  pub limits : Option Limits
  pub env : List EnvVar
  pub host_ports : List ℕ

pub record Pod : Type 0 where
  pub name : String
  pub labels : List (String × String)
  pub containers : List Container
  pub init_containers : List Container
  pub host_pid : Bool
  pub host_ipc : Bool
  pub host_network : Bool
  pub automount_service_account_token : Option Bool
  -- whether `securityContext.seccompProfile` is there
  pub has_seccomp_profile : Bool

pub record SelectorRequirement : Type 0 where
  pub key : String
  pub operator : String
  pub values : List String

pub record LabelSelector : Type 0 where
  pub match_labels : List (String × String)
  pub match_expressions : List SelectorRequirement

-- A policy, with the number of its rules in each direction.
pub record NetworkPolicy : Type 0 where
  pub pod_selector : LabelSelector
  pub policy_types : List String
  pub ingress_rules : ℕ
  pub egress_rules : ℕ

pub record PolicyRule : Type 0 where
  pub verbs : List String
  pub resources : List String

-- a Role or a ClusterRole
pub record Role : Type 0 where
  pub name : String
  pub rules : List PolicyRule

pub record Subject : Type 0 where
  pub kind : String
  pub name : String
  pub namespace : String

-- with the name of the role it refers to
pub record ClusterRoleBinding : Type 0 where
  pub name : String
  pub role_ref : String
  pub subjects : List Subject

-- What the API server answers, with the text of its error.
pub record Client : Type 0 where
  pub list_pods : String → Result String (List Pod)
  pub list_network_policies : String → Result String (List NetworkPolicy)
  pub list_cluster_roles : Result String (List Role)
  pub list_roles : String → Result String (List Role)
  pub list_cluster_role_bindings : Result String (List ClusterRoleBinding)
