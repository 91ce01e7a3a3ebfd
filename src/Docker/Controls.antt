-- ===== src/Docker/Controls.antt =====
-- src/docker/mod.rs: the commands on containers. Docker's answer to a command is only logged, so the
-- requests that are sent to it, in a task of their own each, are what a command does.
pub mod Submitted
use vpsiner.Prelude.{
  String, Bool, true, false, List, [], ◌∷◌, ◌++◌, Option, none, some, is_eq, if◌then◌else◌,
}
use vpsiner.Error.{AppError, AppResult, ok, err, docker, forbidden, not_found, conflict}
use vpsiner.Model.ContainerId.{ContainerId, Eq-ContainerId}
use vpsiner.Model.Containers.{
  ContainerState, created, restarting, running, removing, paused, exited, dead, ContainerSummary,
  ContainerCommandResult, submitted, noop,
}

-- A request to Docker, with the full id of its container.
pub data DockerRequest : Type 0 where
  start_request stop_request restart_request : String → DockerRequest

pub record DockerState : Type 0 where
  pub connected : Bool
  pub controls_available : Bool
  pub containers : List ContainerSummary
  pub sent : List DockerRequest

unfoldable pub ensure_connected : Bool → AppResult (Unit {0})
ensure_connected true = ok tt
ensure_connected false = err docker

-- `find(|c| c.id == id)`
unfoldable pub container_info : List ContainerSummary → ContainerId → Option ContainerSummary
container_info [] id = none
container_info (c ∷ rest) id = if is_eq c.id id then some c else container_info rest id

-- What a command makes of a known state: an answer and the requests that it sends.
abbrev pub Outcome : Type 0
Outcome = AppResult ContainerCommandResult × List DockerRequest

unfoldable pub on_start : String → ContainerState → Outcome
on_start full_id running = (ok noop, [])
on_start full_id removing = (err conflict, [])
on_start full_id dead = (err conflict, [])
on_start full_id restarting = (err conflict, [])
on_start full_id _ = (ok submitted, start_request full_id ∷ [])

unfoldable pub on_stop : String → ContainerState → Outcome
on_stop full_id created = (ok noop, [])
on_stop full_id exited = (ok noop, [])
on_stop full_id removing = (err conflict, [])
on_stop full_id dead = (err conflict, [])
on_stop full_id _ = (ok submitted, stop_request full_id ∷ [])

unfoldable pub on_restart : String → ContainerState → Outcome
on_restart full_id created = (ok submitted, start_request full_id ∷ [])
on_restart full_id exited = (ok submitted, start_request full_id ∷ [])
on_restart full_id running = (ok submitted, restart_request full_id ∷ [])
on_restart full_id paused = (ok submitted, restart_request full_id ∷ [])
on_restart full_id removing = (err conflict, [])
on_restart full_id dead = (err conflict, [])
on_restart full_id restarting = (err conflict, [])
on_restart full_id _ = (ok submitted, [])

-- The guards, which are the same for the three commands.
unfoldable pub command :
    (String → ContainerState → Outcome)
    → ContainerId
    → DockerState
    → AppResult ContainerCommandResult × DockerState
unfolding ensure_connected container_info
command on id d = elim (ensure_connected d.connected) [
  | err e ↦ (err e, d)
  | ok _ ↦
      if d.controls_available
      then elim (container_info d.containers id) [
        | none ↦ (err not_found, d)
        | some container ↦ elim container.state [
          | none ↦ (err docker, d)
          | some state ↦
              let (answer, requests) = on container.full_id state in
              (answer, record d { sent = d.sent ++ requests })
        ]
      ]
      else (err forbidden, d)
]

unfoldable pub start_container :
    ContainerId → DockerState → AppResult ContainerCommandResult × DockerState
unfolding command on_start
start_container id d = command on_start id d

unfoldable pub stop_container :
    ContainerId → DockerState → AppResult ContainerCommandResult × DockerState
unfolding command on_stop
stop_container id d = command on_stop id d

unfoldable pub restart_container :
    ContainerId → DockerState → AppResult ContainerCommandResult × DockerState
unfolding command on_restart
restart_container id d = command on_restart id d
