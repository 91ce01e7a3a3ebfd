-- ===== src/Model/Containers.antt =====
-- src/model/containers.rs: containers as the interface shows them, and the answer of a command.
use vpsiner.Prelude.{String, List, Option, ℤ}
use vpsiner.Model.ContainerId.{ContainerId}

pub data ContainerState : Type 0 where
  created restarting running removing paused exited dead stopping empty : ContainerState

pub record ContainerSummary : Type 0 where
  pub id : ContainerId
  pub full_id : String
  pub name : String
  pub service : String
  pub image : String
  pub image_sha : String
  pub ports : List String
  pub labels : List String
  pub state : Option ContainerState
  pub started_at : Option ℤ

pub data ContainerCommandResult : Type 0 where
  submitted : ContainerCommandResult
  noop : ContainerCommandResult
