-- ===== src/Tests/Docker.antt =====
-- src/docker/container_registry.rs: one container stops while another starts.
use vpsiner.Prelude.{
  ◌≡◌, ◌+◌, ◌≤◌, refl, String, true, false, [], ◌∷◌, some, none, arith, length, lookup, insert,
  is_some, Eq-String,
}
use vpsiner.Error.{ok}
use vpsiner.Model.Containers.{ContainerState, ContainerSummary}
use vpsiner.Docker.Controls.{
  DockerState, start_request, stop_request, start_container, stop_container,
}
use vpsiner.Docker.Controls.Submitted.{IsReported, start_stop-IsReported}
use vpsiner.Docker.Observed.{
  EventsChannel, ObservedContainer, Inner, update_observed_containers_now, by_full_id, retained,
  stopped_observing, containers_to_start_observing, events_of,
}
use vpsiner.Docker.Observed.Followed.{IsFollowed, follow, sent}
use vpsiner.Docker.Observed.Refresh.{
  update_observed_containers_now-IsFollowed, update_observed_containers_now-settled,
}

abbrev web : ObservedContainer
web = record {
  id = record { bytes = 1 ∷ 2 ∷ 3 ∷ 4 ∷ 5 ∷ 6 ∷ [] };
  full_id = "010203040506aa";
  name = "web-1";
  service = "web";
}

abbrev db : ObservedContainer
db = record {
  id = record { bytes = 7 ∷ 2 ∷ 3 ∷ 4 ∷ 5 ∷ 6 ∷ [] };
  full_id = "070203040506bb";
  name = "db-1";
  service = "db";
}

abbrev registry : Inner
registry = record {
  connected = true;
  observed_containers = ("070203040506bb", db) ∷ [];
  observe_events = record { queued = []; capacity = 8; is_closed = false };
  containers_info_update = record { is_pending = false; is_closed = false };
}

room : 0 + length (sent (web ∷ []) registry) ≤ 8
unfolding by_full_id retained stopped_observing containers_to_start_observing events_of lookup
    insert
room = omega arith

update_observed_containers_now-IsFollowed_example :
    IsFollowed (web ∷ []) registry (update_observed_containers_now (ok (web ∷ [])) registry).1
    × (((update_observed_containers_now (ok (web ∷ [])) registry).1.observe_events.queued
          ≡ sent (web ∷ []) registry)
        × ((id : String)
            → follow
                (sent (web ∷ []) registry)
                id
                (is_some (lookup id registry.observed_containers))
              ≡ is_some (
                  lookup id
                    (update_observed_containers_now
                      (ok (web ∷ []))
                      registry).1.observed_containers)))
update_observed_containers_now-IsFollowed_example =
    update_observed_containers_now-IsFollowed (web ∷ []) registry refl (refl, tt) refl room

-- The channel after its receiver has taken everything: there is room again.
abbrev drained : EventsChannel
drained = record { queued = []; capacity = 4; is_closed = false }

update_observed_containers_now-settled_example :
    (let after = (update_observed_containers_now (ok (web ∷ [])) registry).1 in
      (update_observed_containers_now
        (ok (web ∷ []))
        (record after { observe_events = drained })).1.observe_events
      ≡ drained)
update_observed_containers_now-settled_example =
    update_observed_containers_now-settled (web ∷ []) registry drained refl (refl, tt)

-- A container that is stopping, and one that runs.
abbrev stopping_container : ContainerSummary
stopping_container = record {
  id = web.id;
  full_id = "010203040506aa";
  name = "web-1";
  service = "web";
  image = "web";
  image_sha = "";
  ports = [];
  labels = [];
  state = some ContainerState.stopping;
  started_at = none;
}

abbrev docker_state : DockerState
docker_state = record {
  connected = true;
  controls_available = true;
  containers = stopping_container ∷ [];
  sent = [];
}

start_stop-IsReported_example :
    IsReported start_request web.id docker_state (start_container web.id docker_state)
    × IsReported stop_request web.id docker_state (stop_container web.id docker_state)
start_stop-IsReported_example = start_stop-IsReported web.id docker_state
