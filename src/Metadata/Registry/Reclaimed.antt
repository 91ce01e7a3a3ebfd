-- ===== src/Metadata/Registry/Reclaimed.antt =====
-- src/metadata/service_registry.rs: what `reclaim_before` does to the cache and the table.
use vpsiner.Prelude.{
  ◌≤◌, ◌^◌, ◌≡◌, refl, sym, subst, String, Bool, true, false, some, List, ◌↔◌, ℤ, lookup, Eq-String,
  Eq-ℕ,
}
use vpsiner.Error.{AppResult, ok, err, storage}
use vpsiner.Model.Metrics.{ServiceId}
use vpsiner.Metadata.Store.{expired, delete_services_before}
use vpsiner.Metadata.Store.Table.{In}
use vpsiner.Metadata.Store.Statements.{
  IsLater, IsLater-refl, delete_services_before-IsLater, delete_services_before-answer,
  delete_services_before-kept,
}
use vpsiner.Metadata.Registry.{Registry, reclaim_before}
use vpsiner.Metadata.Registry.Coherent.{IsCoherent, forget-IsCache, forget-by_name}

-- A reclamation that the store accepts: the answer is the ids of the rows last seen before the
-- cutoff; the cache has the pairs that it had, but for those ids.
pub record IsReclaimed (cutoff : ℤ) (r : Registry) (result : AppResult (List ServiceId) × Registry)
    : Type 0 where
  pub answer : result.0 ≡ ok (expired cutoff r.store.rows)
  pub coherent : IsCoherent result.1
  pub later : IsLater r.store result.1.store
  pub forgotten :
      (n : String) (i : ServiceId)
      → (lookup n result.1.inner.by_name ≡ some i)
        ↔ ((lookup n r.inner.by_name ≡ some i) × (¬ In i (expired cutoff r.store.rows)))

-- From a coherent registry whose ids fit 32 bits, a reclamation that the store accepts leaves a
-- coherent one, answers the ids of the rows last seen before the cutoff, and leaves in the cache
-- the pairs that were there but for those ids.
pub reclaim_before-IsReclaimed :
    (cutoff : ℤ) (r : Registry)
    → r.store.next_sid ≤ 2 ^ 32
    → IsCoherent r
    → IsReclaimed cutoff r (reclaim_before false cutoff r)
unfolding reclaim_before
reclaim_before-IsReclaimed cutoff r small c =
    let gone = expired cutoff r.store.rows in
    let e = delete_services_before-answer cutoff r.store c.table small in
    let later = delete_services_before-IsLater false cutoff r.store c.table in
    let cache = forget-IsCache r.store.rows r.inner gone c.cache in
    let by_name = forget-by_name r.store.rows r.inner gone c.cache in
    rw (e, reclaim_before)
      (record {
        answer = refl;
        coherent = record {
          table = later.table;
          cache = record {
            inverse = cache.inverse;
            stored = λ n i h.
                delete_services_before-kept cutoff r.store i n (cache.stored n i h)
                  ((by_name n i).0 h).1;
          };
        };
        later = later;
        forgotten = by_name;
      })

-- A reclamation that the store refuses leaves everything as it was.
pub reclaim_before-refused :
    (cutoff : ℤ) (r : Registry) → reclaim_before true cutoff r ≡ (err storage, r)
unfolding reclaim_before delete_services_before
reclaim_before-refused cutoff r = refl

pub reclaim_before-IsCoherent :
    (refused : Bool) (cutoff : ℤ) (r : Registry)
    → r.store.next_sid ≤ 2 ^ 32
    → IsCoherent r
    → IsCoherent (reclaim_before refused cutoff r).1
reclaim_before-IsCoherent true cutoff r small c =
    subst (λ x. IsCoherent x.1) (sym (reclaim_before-refused cutoff r)) c
reclaim_before-IsCoherent false cutoff r small c =
    (reclaim_before-IsReclaimed cutoff r small c).coherent

pub reclaim_before-IsLater :
    (refused : Bool) (cutoff : ℤ) (r : Registry)
    → r.store.next_sid ≤ 2 ^ 32
    → IsCoherent r
    → IsLater r.store (reclaim_before refused cutoff r).1.store
reclaim_before-IsLater true cutoff r small c =
    subst (λ x. IsLater r.store x.1.store) (sym (reclaim_before-refused cutoff r))
      (IsLater-refl r.store c.table)
reclaim_before-IsLater false cutoff r small c = (reclaim_before-IsReclaimed cutoff r small c).later
