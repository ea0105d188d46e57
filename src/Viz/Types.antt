-- ===== src/Viz/Types.antt =====
-- plugins/viz/internal/monitor/types.go: what the client lists.
use yby_cli.Prelude.{ℕ, String}
use yby_cli.Viz.Retry.{
  Resource, pods, deployments, services, nodes, stateful_sets, jobs, ingresses, config_maps, events,
}

pub record Pod : Type 0 where
  pub name : String
  pub namespace : String
  pub status : String
  pub cpu : String
  pub memory : String

pub record Deployment : Type 0 where
  pub name : String
  pub namespace : String
  pub replicas : ℕ
  pub ready : ℕ
  pub available : ℕ

pub record Service : Type 0 where
  pub name : String
  pub namespace : String
  pub type : String
  pub cluster_ip : String
  pub ports : String

pub record Node : Type 0 where
  pub name : String
  pub status : String
  pub cpu_capacity : String
  pub memory_capacity : String
  pub version : String

pub record StatefulSet : Type 0 where
  pub name : String
  pub namespace : String
  pub replicas : ℕ
  pub ready : ℕ

pub record Job : Type 0 where
  pub name : String
  pub namespace : String
  pub completions : ℕ
  pub active : ℕ
  pub succeeded : ℕ
  pub failed : ℕ

pub record Ingress : Type 0 where
  pub name : String
  pub namespace : String
  pub class : String
  pub hosts : String
  pub paths : String

pub record ConfigMap : Type 0 where
  pub name : String
  pub namespace : String
  pub keys : ℕ
  pub data_size : String

pub record Event : Type 0 where
  pub name : String
  pub namespace : String
  pub type : String
  pub reason : String
  pub message : String
  pub age : String

-- The type of the elements that each method of the client lists.
abbrev pub Item : Resource → Type 0
Item pods = Pod
Item deployments = Deployment
Item services = Service
Item nodes = Node
Item stateful_sets = StatefulSet
Item jobs = Job
Item ingresses = Ingress
Item config_maps = ConfigMap
Item events = Event
