-- ===== src/Health.antt =====
-- internal/health/snapshot.go: what one collection of a cluster's health holds.
use ma_klaude.Prelude.{Bool, String, Option, List}
use ma_klaude.Prelude.Int.{ℤ, Time}

pub record Reachability : Type 0 where
  pub reachable : Bool
  pub server_version : String
  pub error : String

pub record ResourceList : Type 0 where
  pub cpu : String
  pub memory : String

pub record NodeSignal : Type 0 where
  pub name : String
  pub resource_version : String
  pub ready : Bool
  pub memory_pressure : Bool
  pub disk_pressure : Bool
  pub pid_pressure : Bool
  pub unschedulable : Bool
  pub allocatable : ResourceList

pub record OwnerRef : Type 0 where
  pub kind : String
  pub name : String
  pub controller : Bool

pub record TerminationSignal : Type 0 where
  pub exit_code : ℤ
  pub reason : String
  pub signal : ℤ

pub record ContainerSignal : Type 0 where
  pub name : String
  pub init : Bool
  pub restart_count : ℤ
  pub crash_looping : Bool
  pub waiting_reason : String
  pub waiting_message : String
  pub last_termination : Option TerminationSignal
  pub current_termination : Option TerminationSignal
  pub requests : ResourceList

pub record PodSignal : Type 0 where
  pub namespace : String
  pub name : String
  pub resource_version : String
  pub phase : String
  pub reason : String
  pub restart_count : ℤ
  pub crash_looping_containers : List String
  pub pending : Bool
  pub failed : Bool
  pub node : String
  pub owners : List OwnerRef
  pub containers : List ContainerSignal
  pub requests : ResourceList

pub record DeploymentSignal : Type 0 where
  pub namespace : String
  pub name : String
  pub resource_version : String
  pub desired_replicas : ℤ
  pub ready_replicas : ℤ
  pub available_replicas : ℤ
  pub updated_replicas : ℤ

pub record ReplicaSetSignal : Type 0 where
  pub namespace : String
  pub name : String
  pub resource_version : String
  pub desired_replicas : ℤ
  pub ready_replicas : ℤ
  pub available_replicas : ℤ
  pub owners : List OwnerRef
  pub revision : ℤ

pub record EventSignal : Type 0 where
  pub namespace : String
  pub name : String
  pub reason : String
  pub message : String
  pub count : ℤ
  pub involved_object : String
  pub last_seen : Time

pub record Snapshot : Type 0 where
  pub cluster : String
  pub collected_at : Time
  pub reachability : Reachability
  pub nodes : List NodeSignal
  pub pods : List PodSignal
  pub deployments : List DeploymentSignal
  pub replica_sets : List ReplicaSetSignal
  pub warning_events : List EventSignal
