-- ===== src/Metadata/Registry/Ids.antt =====
-- src/metadata/service_registry.rs: what an id means over the life of the registry.
use vpsiner.Prelude.{◌≤◌, ◌^◌, ◌≡◌, String, Bool, some, arith, ℤ, Eq-String, Eq-ℕ}
use vpsiner.Error.{ok}
use vpsiner.Model.Metrics.{ServiceId}
use vpsiner.Metadata.Store.Statements.{IsLater, IsLater-refl, IsLater-trans}
use vpsiner.Metadata.Registry.{Registry, id_of, reclaim_before, name}
use vpsiner.Metadata.Registry.Coherent.{IsCoherent}
use vpsiner.Metadata.Registry.Kept.{id_of-IsAnswered}
use vpsiner.Metadata.Registry.Reclaimed.{reclaim_before-IsCoherent, reclaim_before-IsLater}

-- Calls of the registry, one after another, whatever the store refuses.
pub data Calls : Registry → Registry → Type 0 where
  done : (r : Registry) → Calls r r
  interned :
      (refused : Bool) (n : String) (now : ℤ) (r : Registry) {s : Registry}
      → Calls (id_of refused n now r).1 s
      → Calls r s
  reclaimed :
      (refused : Bool) (cutoff : ℤ) (r : Registry) {s : Registry}
      → r.store.next_sid ≤ 2 ^ 32
      → Calls (reclaim_before refused cutoff r).1 s
      → Calls r s

Calls-kept : (r s : Registry) → Calls r s → IsCoherent r → IsCoherent s × IsLater r.store s.store
Calls-kept r s (done _) c = (c, IsLater-refl r.store c.table)
Calls-kept r s (interned refused n now _ rest) c =
    let one = id_of-IsAnswered refused n now r c in
    let more = Calls-kept (id_of refused n now r).1 s rest one.coherent in
    (more.0, IsLater-trans r.store (id_of refused n now r).1.store s.store one.later more.1)
Calls-kept r s (reclaimed refused cutoff _ small rest) c =
    let coherent = reclaim_before-IsCoherent refused cutoff r small c in
    let later = reclaim_before-IsLater refused cutoff r small c in
    let more = Calls-kept (reclaim_before refused cutoff r).1 s rest coherent in
    (more.0, IsLater-trans r.store (reclaim_before refused cutoff r).1.store s.store later more.1)

-- From a coherent registry, with any calls of `id_of` and `reclaim_before` between them, refused
-- statements included: if two answers of `id_of` are the same id, they are for the same name. A
-- reclamation is made while ids fit 32 bits.
pub id_of-one_name :
    (r s : Registry) (refused refused' : Bool) (n m : String) (now now' : ℤ) (sid : ServiceId)
    → IsCoherent r
    → Calls (id_of refused n now r).1 s
    → (id_of refused n now r).0 ≡ ok sid
    → (id_of refused' m now' s).0 ≡ ok sid
    → n ≡ m
id_of-one_name r s refused refused' n m now now' sid c calls h k =
    let first = id_of-IsAnswered refused n now r c in
    let between = Calls-kept (id_of refused n now r).1 s calls first.coherent in
    let second = id_of-IsAnswered refused' m now' s between.0 in
    let held = first.coherent.cache.stored n sid (first.found sid h) in
    let issued = first.coherent.table.issued sid n held in
    let again = second.coherent.cache.stored m sid (second.found sid k) in
    let before =
      between.1.meaning sid m
        (second.later.meaning sid m again (omega (arith, issued, between.1.grows))) issued in
    first.coherent.table.one_name sid n m held before

-- `id_of` answers, and then `name` answers the name for the id and a second `id_of` answers, if the
-- store does not refuse, the same id.
pub id_of-name :
    (r : Registry) (refused : Bool) (n : String) (now : ℤ) (sid : ServiceId)
    → IsCoherent r
    → (id_of refused n now r).0 ≡ ok sid
    → name (id_of refused n now r).1.inner sid ≡ some n
unfolding name
id_of-name r refused n now sid c h =
    let first = id_of-IsAnswered refused n now r c in
    (first.coherent.cache.inverse n sid).0 (first.found sid h)

-- From a coherent registry, two answers of `id_of` for one name, one directly after the other, are
-- the same id, whatever the times.
pub id_of-same_id :
    (r : Registry) (refused refused' : Bool) (n : String) (now now' : ℤ) (sid sid' : ServiceId)
    → IsCoherent r
    → (id_of refused n now r).0 ≡ ok sid
    → (id_of refused' n now' (id_of refused n now r).1).0 ≡ ok sid'
    → sid ≡ sid'
id_of-same_id r refused refused' n now now' sid sid' c h k =
    let r' : Registry = (id_of refused n now r).1 in
    let first = id_of-IsAnswered refused n now r c in
    let second = id_of-IsAnswered refused' n now' r' first.coherent in
    second.coherent.table.one_id sid sid' n
      (second.kept sid n (first.coherent.cache.stored n sid (first.found sid h)))
      (second.coherent.cache.stored n sid' (second.found sid' k))
