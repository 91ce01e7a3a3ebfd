-- ===== src/Docker/Observed/Followed.antt =====
-- src/docker/container_registry.rs: a client that follows the events knows the observed containers.
use vpsiner.Prelude.{
  ◌+◌, ◌≤◌, ◌≡◌, refl, ◌∙◌, ap, String, Bool, true, false, not, ◌&&◌, ◌||◌, List, [], ◌∷◌, ◌++◌,
  none, some, ltb, length, length-append, append_assoc, append_nil, HashMap, lookup, insert,
  lookup-insert, is_some, if◌then◌else◌, Eq-String, arith,
}
use text.Mathlib.Text.{◌==◌ as str_eq}
use text.Mathlib.TextEquality.{eq_iff}
use vpsiner.Docker.Observed.{
  ObservedContainer, ContainerObserveAction, start, stop, ContainerObserveEvent, EventsChannel,
  Inner, send_event, send_events, by_full_id, retained, stopped_observing,
  containers_to_start_observing, insert_all, events_of, observe,
}
use vpsiner.Docker.Observed.Keyed.{
  IsKeyed, retained-IsKeyed, stopped-IsKeyed, started-IsKeyed, by_full_id-IsKeyed,
  insert_all-IsKeyed,
}

abbrev pub is_start : ContainerObserveAction → Bool
is_start start = true
is_start stop = false

-- Whether a client holds a container for observed, after some events.
unfoldable pub follow : List ContainerObserveEvent → String → Bool → Bool
follow [] id known = known
follow (event ∷ rest) id known =
    follow rest id (if str_eq event.container.full_id id then is_start event.action else known)

follow-append :
    (es fs : List ContainerObserveEvent) (id : String) (known : Bool)
    → follow (es ++ fs) id known ≡ follow fs id (follow es id known)
unfolding follow
follow-append [] fs id known = refl
follow-append (e ∷ es) fs id known =
    follow-append es fs id (if str_eq e.container.full_id id then is_start e.action else known)

follow-started :
    (m : HashMap String ObservedContainer) (id : String) (known : Bool)
    → IsKeyed m
    → follow (events_of start m) id known ≡ (is_some (lookup id m) || known)
unfolding follow events_of lookup
follow-started [] id known k = refl
follow-started ((j, c) ∷ rest) id known k =
    let more = follow-started rest id (if str_eq c.full_id id then true else known) k.1 in
    ground (arith, k.0)

follow-stopped :
    (m : HashMap String ObservedContainer) (id : String) (known : Bool)
    → IsKeyed m
    → follow (events_of stop m) id known ≡ (if is_some (lookup id m) then false else known)
unfolding follow events_of lookup
follow-stopped [] id known k = refl
follow-stopped ((j, c) ∷ rest) id known k =
    let more = follow-stopped rest id (if str_eq c.full_id id then false else known) k.1 in
    ground (arith, k.0)

pub retained-lookup :
    (running m : HashMap String ObservedContainer) (id : String)
    → lookup id (retained running m) ≡ (if is_some (lookup id running) then lookup id m else none)
unfolding retained lookup
retained-lookup running [] id = ground arith
retained-lookup running ((j, c) ∷ rest) id =
    ground (arith, retained-lookup running rest id, eq_iff j id)

pub stopped-lookup :
    (running m : HashMap String ObservedContainer) (id : String)
    → is_some (lookup id (stopped_observing running m))
      ≡ (is_some (lookup id m) && not (is_some (lookup id running)))
unfolding stopped_observing lookup
stopped-lookup running [] id = refl
stopped-lookup running ((j, c) ∷ rest) id =
    ground (arith, stopped-lookup running rest id, eq_iff j id)

pub started-lookup :
    (kept m : HashMap String ObservedContainer) (id : String)
    → lookup id (containers_to_start_observing kept m)
      ≡ (if is_some (lookup id kept) then none else lookup id m)
unfolding containers_to_start_observing lookup
started-lookup kept [] id = ground arith
started-lookup kept ((j, c) ∷ rest) id = ground (arith, started-lookup kept rest id, eq_iff j id)

pub insert_all-lookup :
    (es m : HashMap String ObservedContainer) (id : String)
    → (lookup id es ≡ none → lookup id (insert_all es m) ≡ lookup id m)
      × (is_some (lookup id (insert_all es m)) ≡ (is_some (lookup id es) || is_some (lookup id m)))
unfolding insert_all lookup
insert_all-lookup [] m id = (λ h. refl, refl)
insert_all-lookup ((j, c) ∷ rest) m id =
    ground (arith, insert_all-lookup rest (insert j c m) id, lookup-insert j id c m)

pub send_events-queued :
    (es : List ContainerObserveEvent) (ch : EventsChannel)
    → ch.is_closed ≡ false
    → length ch.queued + length es ≤ ch.capacity
    → send_events es ch ≡ record ch { queued = ch.queued ++ es }
unfolding send_events send_event
send_events-queued [] ch o h = rw (append_nil ch.queued) refl
send_events-queued (e ∷ es) ch o h =
    let long = length-append ch.queued (e ∷ []) in
    let fits : ltb (length ch.queued) ch.capacity ≡ true = ground arith in
    rw (send_events, send_event, o, fits)
      (send_events-queued es
          (record { queued = ch.queued ++ e ∷ []; capacity = ch.capacity; is_closed = false }) refl
          (omega arith)
        ∙ ap (λ q. record { queued = q; capacity = ch.capacity; is_closed = false })
            (append_assoc ch.queued (e ∷ []) es))

-- One refresh: the containers observed afterwards are the running ones, by id, and each one that was
-- observed and still runs keeps its record.
pub record IsFollowed (listed : List ObservedContainer) (before after : Inner) : Type 0 where
  pub running :
      (id : String)
      → is_some (lookup id after.observed_containers) ≡ is_some (lookup id (by_full_id listed []))
  pub same :
      (id : String) (c : ObservedContainer)
      → lookup id before.observed_containers ≡ some c
      → is_some (lookup id (by_full_id listed [])) ≡ true
      → lookup id after.observed_containers ≡ some c
  pub keyed : IsKeyed after.observed_containers

pub observe-IsFollowed :
    (listed : List ObservedContainer) (inner : Inner)
    → IsKeyed inner.observed_containers
    → IsFollowed listed inner (observe listed inner)
unfolding observe
observe-IsFollowed listed inner keyed =
    let running = by_full_id listed [] in
    let kept = retained running inner.observed_containers in
    let started = containers_to_start_observing kept running in
    record {
      running = λ id. ground (
        arith,
        insert_all-lookup started kept id,
        started-lookup kept running id,
        retained-lookup running inner.observed_containers id,
      );
      same = λ id c h k. ground (
        arith,
        insert_all-lookup started kept id,
        started-lookup kept running id,
        retained-lookup running inner.observed_containers id,
      );
      keyed =
          insert_all-IsKeyed started kept
            (started-IsKeyed kept running (by_full_id-IsKeyed listed [] tt))
            (retained-IsKeyed running inner.observed_containers keyed);
    }

-- The events of one refresh.
abbrev pub sent : List ObservedContainer → Inner → List ContainerObserveEvent
sent listed inner =
    let running = by_full_id listed [] in
    events_of start
      (containers_to_start_observing (retained running inner.observed_containers) running)
    ++ events_of stop (stopped_observing running inner.observed_containers)

pub sent-follow :
    (listed : List ObservedContainer) (inner : Inner) (id : String)
    → IsKeyed inner.observed_containers
    → follow (sent listed inner) id (is_some (lookup id inner.observed_containers))
      ≡ is_some (lookup id (by_full_id listed []))
sent-follow listed inner id keyed =
    let running = by_full_id listed [] in
    let kept = retained running inner.observed_containers in
    let started = containers_to_start_observing kept running in
    let stopped = stopped_observing running inner.observed_containers in
    let known = is_some (lookup id inner.observed_containers) in
    ground (
      arith,
      follow-append (events_of start started) (events_of stop stopped) id known,
      follow-started started id known
          (started-IsKeyed kept running (by_full_id-IsKeyed listed [] tt)),
      follow-stopped stopped id (follow (events_of start started) id known)
          (stopped-IsKeyed running inner.observed_containers keyed),
      started-lookup kept running id,
      stopped-lookup running inner.observed_containers id,
      retained-lookup running inner.observed_containers id,
    )

pub send_events-append :
    (es fs : List ContainerObserveEvent) (ch : EventsChannel)
    → send_events (es ++ fs) ch ≡ send_events fs (send_events es ch)
unfolding send_events
send_events-append [] fs ch = refl
send_events-append (e ∷ es) fs ch = send_events-append es fs (send_event e ch)
