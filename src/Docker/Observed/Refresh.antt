-- ===== src/Docker/Observed/Refresh.antt =====
-- src/docker/container_registry.rs: what one call of `update_observed_containers_now` does.
use vpsiner.Prelude.{
  ◌+◌, ◌≤◌, ◌≡◌, refl, sym, ◌∙◌, ap, String, true, false, List, [], ◌∷◌, ◌++◌, length, HashMap,
  lookup, is_some, test_refl, Eq-String, arith,
}
use vpsiner.Error.{ok}
use vpsiner.Docker.Observed.{
  ObservedContainer, EventsChannel, start, stop, Inner, send_events, by_full_id, retained,
  stopped_observing, containers_to_start_observing, events_of, observe,
  update_observed_containers_now,
}
use vpsiner.Docker.Observed.Keyed.{IsKeyed}
use vpsiner.Docker.Observed.Followed.{
  follow, IsFollowed, sent, observe-IsFollowed, sent-follow, send_events-append, send_events-queued,
  retained-lookup,
}

-- A refresh that Docker answers, whatever becomes of the events.
pub update-IsFollowed :
    (listed : List ObservedContainer) (inner : Inner)
    → inner.connected ≡ true
    → IsKeyed inner.observed_containers
    → IsFollowed listed inner (update_observed_containers_now (ok listed) inner).1
unfolding update_observed_containers_now
update-IsFollowed listed inner on keyed =
    let f = observe-IsFollowed listed inner keyed in
    rw (on, update_observed_containers_now)
      (record { running = f.running; same = f.same; keyed = f.keyed })

pub update-queued :
    (listed : List ObservedContainer) (inner : Inner)
    → inner.connected ≡ true
    → inner.observe_events.is_closed ≡ false
    → length inner.observe_events.queued + length (sent listed inner)
      ≤ inner.observe_events.capacity
    → (update_observed_containers_now (ok listed) inner).1.observe_events.queued
      ≡ inner.observe_events.queued ++ sent listed inner
unfolding update_observed_containers_now observe
update-queued listed inner on o room =
    let running = by_full_id listed [] in
    let kept = retained running inner.observed_containers in
    let starts = events_of start (containers_to_start_observing kept running) in
    let stops = events_of stop (stopped_observing running inner.observed_containers) in
    rw (on, update_observed_containers_now)
      (ap (λ ch. ch.queued)
        (sym (send_events-append starts stops inner.observe_events)
          ∙ send_events-queued (sent listed inner) inner.observe_events o room))

started-none :
    (kept m : HashMap String ObservedContainer)
    → ((id : String) → is_some (lookup id m) ≡ true → is_some (lookup id kept) ≡ true)
    → containers_to_start_observing kept m ≡ []
unfolding containers_to_start_observing lookup
started-none kept [] h = refl
started-none kept ((j, c) ∷ rest) h =
    let here = h j in
    let more = started-none kept rest (λ id k. h id (ground arith)) in ground (arith, test_refl j)

stopped-none :
    (running m : HashMap String ObservedContainer)
    → ((id : String) → is_some (lookup id m) ≡ true → is_some (lookup id running) ≡ true)
    → stopped_observing running m ≡ []
unfolding stopped_observing lookup
stopped-none running [] h = refl
stopped-none running ((j, c) ∷ rest) h =
    let here = h j in
    let more = stopped-none running rest (λ id k. h id (ground arith)) in
    ground (arith, test_refl j)

-- A refresh that finds the observed containers running, and no others, sends nothing.
pub sent-none :
    (listed : List ObservedContainer) (inner : Inner)
    → ((id : String)
        → is_some (lookup id inner.observed_containers)
          ≡ is_some (lookup id (by_full_id listed [])))
    → sent listed inner ≡ []
unfolding events_of
sent-none listed inner h =
    let running = by_full_id listed [] in
    let kept = retained running inner.observed_containers in
    rw
      (
        started-none kept running
            (λ id k. ground (arith, retained-lookup running inner.observed_containers id, h id)),
        stopped-none running inner.observed_containers (λ id k. ground (arith, h id)),
      )
      refl

-- The channel after a refresh that Docker answers: the events sent to it, one after another.
update-events :
    (listed : List ObservedContainer) (inner : Inner)
    → inner.connected ≡ true
    → (update_observed_containers_now (ok listed) inner).1.observe_events
      ≡ send_events (sent listed inner) inner.observe_events
unfolding update_observed_containers_now observe
update-events listed inner on =
    let running = by_full_id listed [] in
    let kept = retained running inner.observed_containers in
    rw (on, update_observed_containers_now)
      (sym (
        send_events-append (events_of start (containers_to_start_observing kept running))
          (events_of stop (stopped_observing running inner.observed_containers))
          inner.observe_events))

still_connected :
    (listed : List ObservedContainer) (inner : Inner)
    → inner.connected ≡ true
    → (update_observed_containers_now (ok listed) inner).1.connected ≡ true
unfolding update_observed_containers_now observe
still_connected listed inner on = rw (on, update_observed_containers_now) refl

-- A refresh while Docker is connected and answers, of containers kept under their full ids: the
-- ids observed afterwards are those that Docker listed, and a container that was observed and
-- still runs keeps its record. With an open channel that has room for them, the events that the
-- refresh adds turn, for a client that applies them in order, the ids observed before into the ids
-- observed now.
pub update_observed_containers_now-IsFollowed :
    (listed : List ObservedContainer) (inner : Inner)
    → inner.connected ≡ true
    → IsKeyed inner.observed_containers
    → inner.observe_events.is_closed ≡ false
    → length inner.observe_events.queued + length (sent listed inner)
      ≤ inner.observe_events.capacity
    → IsFollowed listed inner (update_observed_containers_now (ok listed) inner).1
      × (((update_observed_containers_now (ok listed) inner).1.observe_events.queued
            ≡ inner.observe_events.queued ++ sent listed inner)
          × ((id : String)
              → follow (sent listed inner) id (is_some (lookup id inner.observed_containers))
                ≡ is_some (
                    lookup id
                      (update_observed_containers_now (ok listed) inner).1.observed_containers)))
update_observed_containers_now-IsFollowed listed inner on keyed o room =
    let f = update-IsFollowed listed inner on keyed in
    (
      f,
      (
        update-queued listed inner on o room,
        λ id. sent-follow listed inner id keyed ∙ sym (f.running id),
      ),
    )

-- While Docker is connected and containers are kept under their full ids, a second refresh with
-- the same answer of Docker leaves the channel of events as it finds it, in whatever state that is
-- by then: also where there is room again, an event that was lost in the first refresh is not sent
-- again.
pub update_observed_containers_now-settled :
    (listed : List ObservedContainer) (inner : Inner) (events : EventsChannel)
    → inner.connected ≡ true
    → IsKeyed inner.observed_containers
    → (let after = (update_observed_containers_now (ok listed) inner).1 in
        (update_observed_containers_now
          (ok listed)
          (record after { observe_events = events })).1.observe_events
        ≡ events)
unfolding send_events
update_observed_containers_now-settled listed inner events on keyed =
    let after : Inner = (update_observed_containers_now (ok listed) inner).1 in
    let later : Inner = record after { observe_events = events } in
    let f = update-IsFollowed listed inner on keyed in
    update-events listed later (still_connected listed inner on)
    ∙ ap (λ es. send_events es events) (sent-none listed later f.running)
