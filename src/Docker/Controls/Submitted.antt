-- ===== src/Docker/Controls/Submitted.antt =====
-- src/docker/mod.rs: when a command reaches Docker.
use mathlib.Core.List.{append-nil}
use vpsiner.Prelude.{
  String, true, false, ◌≡◌, ◌≢◌, ◌⊎◌, inl, inr, refl, ap, subst, ◌∙◌, sym, [], ◌∷◌, ◌++◌, none,
  some, Bool-cases, Option-cases, arith,
}
use vpsiner.Error.{AppResult, ok, err, docker, forbidden, not_found}
use vpsiner.Model.ContainerId.{ContainerId}
use vpsiner.Model.Containers.{
  ContainerState, created, restarting, running, removing, paused, exited, dead, stopping, empty,
  ContainerSummary, ContainerCommandResult, submitted,
}
use vpsiner.Docker.Controls.{
  DockerRequest, start_request, stop_request, DockerState, Outcome, ensure_connected,
  container_info, on_start, on_stop, command, start_container, stop_container,
}

-- One request and the answer that it was submitted, or another answer and no request.
abbrev pub IsHonest : (String → DockerRequest) → (String → ContainerState → Outcome) → Type 0
IsHonest request on =
    (full_id : String) (state : ContainerState)
    → (((on full_id state).0 ≡ ok submitted) × ((on full_id state).1 ≡ request full_id ∷ []))
      ⊎ (((on full_id state).0 ≢ ok submitted) × ((on full_id state).1 ≡ []))

-- What a caller of a command may conclude from the answer.
abbrev pub IsReported :
    (String → DockerRequest)
    → ContainerId
    → DockerState
    → AppResult ContainerCommandResult × DockerState
    → Type 0
IsReported request id d (answer, after) =
    ((answer ≡ ok submitted)
      × ((container : ContainerSummary) × ((container_info d.containers id ≡ some container)
            × (after.sent ≡ d.sent ++ request container.full_id ∷ []))))
    ⊎ ((answer ≢ ok submitted) × (after.sent ≡ d.sent))

IsReported-known :
    (request : String → DockerRequest) (on : String → ContainerState → Outcome) (id : ContainerId)
    (d : DockerState) (container : ContainerSummary) (state : ContainerState)
    → IsHonest request on
    → container_info d.containers id ≡ some container
    → IsReported request id d (
      (on container.full_id state).0,
      record d { sent = d.sent ++ (on container.full_id state).1 },
    )
IsReported-known request on id d container state honest e = elim (honest container.full_id state) [
  | inl (a, b) ↦ inl (a, (container, (e, ap (λ l. d.sent ++ l) b)))
  | inr (a, b) ↦ inr (a, ap (λ l. d.sent ++ l) b ∙ append-nil d.sent)
]

command-IsReported :
    (request : String → DockerRequest) (on : String → ContainerState → Outcome) (id : ContainerId)
    (d : DockerState)
    → IsHonest request on
    → IsReported request id d (command on id d)
unfolding command ensure_connected
command-IsReported request on id d honest = elim (Bool-cases d.connected) [
  | inr e ↦ subst (IsReported request id d) (sym (off e)) (inr ((λ x. cc x), refl))
  | inl e ↦ elim (Bool-cases d.controls_available) [
    | inr f ↦ subst (IsReported request id d) (sym (disabled e f)) (inr ((λ x. cc x), refl))
    | inl f ↦ elim (Option-cases (container_info d.containers id)) [
      | inl g ↦ subst (IsReported request id d) (sym (missing e f g)) (inr ((λ x. cc x), refl))
      | inr (c, g) ↦ elim (Option-cases c.state) [
        | inl k ↦
            subst (IsReported request id d) (sym (stateless e f c g k)) (inr ((λ x. cc x), refl))
        | inr (state, k) ↦
            subst (IsReported request id d) (sym (known e f c g state k))
              (IsReported-known request on id d c state honest g)
      ]
    ]
  ]
]
  where
    off : d.connected ≡ false → command on id d ≡ (err docker, d)
    off e = ground (arith, e)

    disabled :
        d.connected ≡ true → d.controls_available ≡ false → command on id d ≡ (err forbidden, d)
    disabled e f = ground (arith, e, f)

    missing :
        d.connected ≡ true
        → d.controls_available ≡ true
        → container_info d.containers id ≡ none
        → command on id d ≡ (err not_found, d)
    missing e f g = ground (arith, e, f, g)

    stateless :
        d.connected ≡ true
        → d.controls_available ≡ true
        → (c : ContainerSummary) → container_info d.containers id ≡ some c
        → c.state ≡ none
        → command on id d ≡ (err docker, d)
    stateless e f c g k = ground (arith, e, f, g, k)

    known :
        d.connected ≡ true
        → d.controls_available ≡ true
        → (c : ContainerSummary) → container_info d.containers id ≡ some c
        → (state : ContainerState) → c.state ≡ some state
        → command on id d
          ≡ ((on c.full_id state).0, record d { sent = d.sent ++ (on c.full_id state).1 })
    known e f c g state k = ground (arith, e, f, g, k)

start-IsHonest : IsHonest start_request on_start
unfolding on_start
start-IsHonest full_id created = inl (refl, refl)
start-IsHonest full_id restarting = inr ((λ x. cc x), refl)
start-IsHonest full_id running = inr ((λ x. cc x), refl)
start-IsHonest full_id removing = inr ((λ x. cc x), refl)
start-IsHonest full_id paused = inl (refl, refl)
start-IsHonest full_id exited = inl (refl, refl)
start-IsHonest full_id dead = inr ((λ x. cc x), refl)
start-IsHonest full_id stopping = inl (refl, refl)
start-IsHonest full_id empty = inl (refl, refl)

stop-IsHonest : IsHonest stop_request on_stop
unfolding on_stop
stop-IsHonest full_id created = inr ((λ x. cc x), refl)
stop-IsHonest full_id restarting = inl (refl, refl)
stop-IsHonest full_id running = inl (refl, refl)
stop-IsHonest full_id removing = inr ((λ x. cc x), refl)
stop-IsHonest full_id paused = inl (refl, refl)
stop-IsHonest full_id exited = inr ((λ x. cc x), refl)
stop-IsHonest full_id dead = inr ((λ x. cc x), refl)
stop-IsHonest full_id stopping = inl (refl, refl)
stop-IsHonest full_id empty = inl (refl, refl)

-- Starting and stopping a container: if the answer is that the command was submitted, one request
-- for the container found under the id was sent, and with any other answer none was.
pub start_stop-IsReported :
    (id : ContainerId) (d : DockerState)
    → IsReported start_request id d (start_container id d)
      × IsReported stop_request id d (stop_container id d)
unfolding start_container stop_container
start_stop-IsReported id d = (
  command-IsReported start_request on_start id d start-IsHonest,
  command-IsReported stop_request on_stop id d stop-IsHonest,
)
