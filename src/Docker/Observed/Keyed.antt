-- ===== src/Docker/Observed/Keyed.antt =====
-- src/docker/container_registry.rs: every container stands under its own full id.
use vpsiner.Prelude.{◌≡◌, refl, String, List, [], ◌∷◌, subst, HashMap, insert, Eq-String, arith}
use vpsiner.Docker.Observed.{
  ObservedContainer, by_full_id, retained, stopped_observing, containers_to_start_observing,
  insert_all,
}

-- Every container stands under its own full id.
abbrev pub IsKeyed : HashMap String ObservedContainer → Type 0
IsKeyed [] = Unit
IsKeyed ((id, c) ∷ rest) = (c.full_id ≡ id) × IsKeyed rest

pub retained-IsKeyed :
    (running m : HashMap String ObservedContainer) → IsKeyed m → IsKeyed (retained running m)
unfolding retained
retained-IsKeyed running [] k = k
retained-IsKeyed running ((j, c) ∷ rest) k = ground (arith, retained-IsKeyed running rest k.1, k.0)

pub stopped-IsKeyed :
    (running m : HashMap String ObservedContainer)
    → IsKeyed m
    → IsKeyed (stopped_observing running m)
unfolding stopped_observing
stopped-IsKeyed running [] k = k
stopped-IsKeyed running ((j, c) ∷ rest) k = ground (arith, stopped-IsKeyed running rest k.1, k.0)

pub started-IsKeyed :
    (kept m : HashMap String ObservedContainer)
    → IsKeyed m
    → IsKeyed (containers_to_start_observing kept m)
unfolding containers_to_start_observing
started-IsKeyed kept [] k = k
started-IsKeyed kept ((j, c) ∷ rest) k = ground (arith, started-IsKeyed kept rest k.1, k.0)

pub insert-IsKeyed :
    (c : ObservedContainer) (m : HashMap String ObservedContainer)
    → IsKeyed m
    → IsKeyed (insert c.full_id c m)
unfolding insert
insert-IsKeyed c [] k = (refl, tt)
insert-IsKeyed c ((j, d) ∷ rest) k = ground (arith, insert-IsKeyed c rest k.1, k.0)

pub by_full_id-IsKeyed :
    (cs : List ObservedContainer) (m : HashMap String ObservedContainer)
    → IsKeyed m
    → IsKeyed (by_full_id cs m)
unfolding by_full_id
by_full_id-IsKeyed [] m k = k
by_full_id-IsKeyed (c ∷ cs) m k =
    by_full_id-IsKeyed cs (insert c.full_id c m) (insert-IsKeyed c m k)

pub insert_all-IsKeyed :
    (es m : HashMap String ObservedContainer) → IsKeyed es → IsKeyed m → IsKeyed (insert_all es m)
unfolding insert_all
insert_all-IsKeyed [] m k h = h
insert_all-IsKeyed ((j, c) ∷ rest) m k h =
    insert_all-IsKeyed rest (insert j c m) k.1
      (subst (λ i. IsKeyed (insert i c m)) k.0 (insert-IsKeyed c m h))
