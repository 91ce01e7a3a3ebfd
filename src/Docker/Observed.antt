-- ===== src/Docker/Observed.antt =====
-- src/docker/container_registry.rs: `update_observed_containers_now`, with the channels that it
-- sends on. Docker's answer to `list_running_containers` is an argument.
pub mod Keyed
pub mod Followed
pub mod Refresh
use vpsiner.Prelude.{
  ℕ, ◌+◌, String, Bool, true, false, not, List, [], ◌∷◌, ◌++◌, map, Option, none, some, ltb, length,
  HashMap, lookup, insert, is_some, if◌then◌else◌, Eq-String, keep,
}
use vpsiner.Error.{AppError, AppResult, ok, err, docker}
use vpsiner.Model.ContainerId.{ContainerId}

pub record ObservedContainer : Type 0 where
  pub id : ContainerId
  pub full_id : String
  pub name : String
  pub service : String

pub data ContainerObserveAction : Type 0 where
  start : ContainerObserveAction
  stop : ContainerObserveAction

pub record ContainerObserveEvent : Type 0 where
  pub action : ContainerObserveAction
  pub container : ObservedContainer

-- The bounded channel of events: what its receiver has not taken yet.
pub record EventsChannel : Type 0 where
  pub queued : List ContainerObserveEvent
  pub capacity : ℕ
  pub is_closed : Bool

-- The channel of capacity one that asks for a refresh of the containers' details.
pub record RequestChannel : Type 0 where
  pub is_pending : Bool
  pub is_closed : Bool

pub record Inner : Type 0 where
  pub connected : Bool
  pub observed_containers : HashMap String ObservedContainer
  pub observe_events : EventsChannel
  pub containers_info_update : RequestChannel

-- `try_send`, whose failure is only logged.
unfoldable pub send_event : ContainerObserveEvent → EventsChannel → EventsChannel
send_event event ch =
    if ch.is_closed
    then ch
    else if ltb (length ch.queued) ch.capacity
    then record ch { queued = ch.queued ++ event ∷ [] }
    else ch

unfoldable pub send_events : List ContainerObserveEvent → EventsChannel → EventsChannel
unfolding send_event
send_events [] ch = ch
send_events (event ∷ rest) ch = send_events rest (send_event event ch)

-- A channel that is full already holds a request.
unfoldable pub request_containers_info_update :
    RequestChannel → AppResult (Unit {0}) × RequestChannel
request_containers_info_update ch =
    if ch.is_closed then (err docker, ch) else (ok tt, record ch { is_pending = true })

-- `collect::<HashMap<_, _>>` of the containers under their full ids.
unfoldable pub by_full_id :
    List ObservedContainer → HashMap String ObservedContainer → HashMap String ObservedContainer
by_full_id [] m = m
by_full_id (c ∷ rest) m = by_full_id rest (insert c.full_id c m)

-- `retain`, and what it does not keep.
unfoldable pub retained :
    HashMap String ObservedContainer
    → HashMap String ObservedContainer
    → HashMap String ObservedContainer
retained running [] = []
retained running ((id, c) ∷ rest) =
    let kept = retained running rest in if is_some (lookup id running) then (id, c) ∷ kept else kept

unfoldable pub stopped_observing :
    HashMap String ObservedContainer
    → HashMap String ObservedContainer
    → HashMap String ObservedContainer
stopped_observing running [] = []
stopped_observing running ((id, c) ∷ rest) =
    let gone = stopped_observing running rest in
    if is_some (lookup id running) then gone else (id, c) ∷ gone

unfoldable pub containers_to_start_observing :
    HashMap String ObservedContainer
    → HashMap String ObservedContainer
    → HashMap String ObservedContainer
containers_to_start_observing observed [] = []
containers_to_start_observing observed ((id, c) ∷ rest) =
    let more = containers_to_start_observing observed rest in
    if is_some (lookup id observed) then more else (id, c) ∷ more

unfoldable pub insert_all :
    HashMap String ObservedContainer
    → HashMap String ObservedContainer
    → HashMap String ObservedContainer
insert_all [] m = m
insert_all ((id, c) ∷ rest) m = insert_all rest (insert id c m)

unfoldable pub events_of :
    ContainerObserveAction → HashMap String ObservedContainer → List ContainerObserveEvent
events_of action [] = []
events_of action ((id, c) ∷ rest) =
    record { action = action; container = c } ∷ events_of action rest

-- The refresh once Docker has listed the running containers.
unfoldable pub observe : List ObservedContainer → Inner → Inner
unfolding by_full_id retained stopped_observing containers_to_start_observing insert_all events_of
    send_events
observe listed inner =
    let running = by_full_id listed [] in
    let kept = retained running inner.observed_containers in
    let stopped = stopped_observing running inner.observed_containers in
    let started = containers_to_start_observing kept running in
    record inner {
      observed_containers = insert_all started kept;
      observe_events =
          send_events (events_of stop stopped)
            (send_events (events_of start started) inner.observe_events);
    }

unfoldable pub update_observed_containers_now :
    AppResult (List ObservedContainer) → Inner → AppResult (Unit {0}) × Inner
unfolding observe request_containers_info_update
update_observed_containers_now answer inner =
    if not inner.connected then (ok tt, inner) else elim answer [
      | err e ↦ (err e, inner)
      | ok listed ↦
          let observing = observe listed inner in
          let (asked, requests) = request_containers_info_update observing.containers_info_update in
          (asked, record observing { containers_info_update = requests })
    ]
