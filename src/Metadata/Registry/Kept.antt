-- ===== src/Metadata/Registry/Kept.antt =====
-- src/metadata/service_registry.rs: `id_of` and `reclaim_before` keep the cache and the table in
-- agreement, and what they answer.
use vpsiner.Prelude.{
  ℕ, ◌≡◌, refl, ap, ◌∙◌, String, Bool, some, List, arith, inl, inr, ℤ, Option-cases, Bool-cases,
  lookup, Eq-String, Eq-ℕ, lookup-insert, test_refl,
}
use vpsiner.Error.{AppResult, ok, err}
use vpsiner.Model.Metrics.{ServiceId}
use vpsiner.Metadata.Store
use vpsiner.Metadata.Store.{ServiceRow, Services, expired}
use vpsiner.Metadata.Store.Table.{Has}
use vpsiner.Metadata.Store.Statements.{
  IsLater, IsLater-refl, IsResolved, resolve_service-IsResolved, touch_service-IsLater,
  touch_service-kept,
}
use vpsiner.Metadata.Registry.{
  Inner, Registry, remember, cached_id, is_fresh, fresh_cached_id, update_watermark, touch,
  id_of_locked, id_of,
}
use vpsiner.Metadata.Registry.Coherent.{IsCache, IsCoherent, remember-IsCache}

-- What a caller of `id_of` relies on.
pub record IsAnswered (name : String) (r : Registry) (result : AppResult ServiceId × Registry)
    : Type 0 where
  pub coherent : IsCoherent result.1
  pub later : IsLater r.store result.1.store
  pub kept : (i : ℕ) (m : String) → Has r.store.rows i m → Has result.1.store.rows i m
  pub found : (sid : ServiceId) → result.0 ≡ ok sid → lookup name result.1.inner.by_name ≡ some sid

IsCache-kept :
    (rows rows' : List ServiceRow) (inner : Inner)
    → IsCache rows inner
    → ((i : ℕ) (m : String) → Has rows i m → Has rows' i m)
    → IsCache rows' inner
IsCache-kept rows rows' inner c kept = record {
  inverse = c.inverse;
  stored = λ n i h. kept i n (c.stored n i h);
}

unchanged :
    (name : String) (r : Registry) (sid : ServiceId)
    → IsCoherent r
    → lookup name r.inner.by_name ≡ some sid
    → IsAnswered name r (ok sid, r)
unchanged name r sid c h = record {
  coherent = c;
  later = IsLater-refl r.store c.table;
  kept = λ i m k. k;
  found = λ s e. ground arith;
}

fresh_cached_id-cached :
    (inner : Inner) (name : String) (now : ℤ) (sid : ServiceId)
    → fresh_cached_id inner name now ≡ some sid
    → lookup name inner.by_name ≡ some sid
unfolding fresh_cached_id
fresh_cached_id-cached inner name now sid h =
    let found = lookup name inner.by_name in
    elim (Option-cases found) [
      | inl e ↦ absurd (cc (rw (e, fresh_cached_id) at h))
      | inr (i, e) ↦ elim (Option-cases (lookup i inner.touched_ms)) [
        | inl f ↦ absurd (ground (arith, e, f, h))
        | inr (last, f) ↦ ground (arith, e, f, h)
      ]
    ]

touch_cases :
    (P : AppResult (Unit {0}) × Registry → Type 0) (refused : Bool) (sid : ServiceId) (now : ℤ)
    (r : Registry)
    → P (ok tt, r)
    → P (update_watermark refused sid now r)
    → P (touch refused sid now r)
unfolding touch
touch_cases P refused sid now r a b = elim (Option-cases (lookup sid r.inner.touched_ms)) [
  | inl e ↦ rw (e, touch) b
  | inr (last, e) ↦ elim (Bool-cases (is_fresh now last)) [
    | inl f ↦ rw (e, touch, f) a
    | inr f ↦ rw (e, touch, f) b
  ]
]

abbrev answered_with : ServiceId → AppResult (Unit {0}) → AppResult ServiceId
answered_with sid (ok x) = ok sid
answered_with sid (err e) = err e

answered_with-ok :
    (sid i : ServiceId) (a : AppResult (Unit {0})) → answered_with sid a ≡ ok i → sid ≡ i
answered_with-ok sid i (ok x) h = ground arith
answered_with-ok sid i (err e) h = cc h

update_watermark-IsAnswered :
    (refused : Bool) (name : String) (sid : ServiceId) (now : ℤ) (r : Registry)
    → IsCoherent r
    → lookup name r.inner.by_name ≡ some sid
    → IsAnswered name r (
      answered_with sid (update_watermark refused sid now r).0,
      (update_watermark refused sid now r).1,
    )
unfolding update_watermark
update_watermark-IsAnswered refused name sid now r c h =
    let kept = touch_service-kept refused sid now r.store in
    let later = touch_service-IsLater refused sid now r.store c.table in
    record {
      coherent = record {
        table = later.table;
        cache = record {
          inverse = c.cache.inverse;
          stored = λ n i k. kept i n (c.cache.stored n i k);
        };
      };
      later = later;
      kept = kept;
      found = λ i e.
          h ∙ ap some (answered_with-ok sid i (Store.touch_service refused sid now r.store).0 e);
    }

touch-IsAnswered :
    (refused : Bool) (name : String) (sid : ServiceId) (now : ℤ) (r : Registry)
    → IsCoherent r
    → lookup name r.inner.by_name ≡ some sid
    → IsAnswered name r (answered_with sid (touch refused sid now r).0, (touch refused sid now r).1)
touch-IsAnswered refused name sid now r c h =
    touch_cases (λ t. IsAnswered name r (answered_with sid t.0, t.1)) refused sid now r
      (unchanged name r sid c h) (update_watermark-IsAnswered refused name sid now r c h)

resolve-IsAnswered :
    (name : String) (now : ℤ) (r : Registry)
    → IsCoherent r
    → (answer : AppResult ServiceId) (db : Services) → IsResolved name r.store (answer, db)
    → IsAnswered name r (elim answer [
      | err e ↦ (err e, record r { store = db })
      | ok sid ↦ (ok sid, record { store = db; inner = remember r.inner name sid now })
    ])
unfolding remember
resolve-IsAnswered name now r c (err e) db s = record {
  coherent = record {
    table = s.later.table;
    cache = IsCache-kept r.store.rows db.rows r.inner c.cache s.kept;
  };
  later = s.later;
  kept = s.kept;
  found = λ sid h. cc h;
}
resolve-IsAnswered name now r c (ok sid) db s = record {
  coherent = record {
    table = s.later.table;
    cache =
        remember-IsCache db r.inner name sid now s.later.table (s.found sid refl)
          (IsCache-kept r.store.rows db.rows r.inner c.cache s.kept);
  };
  later = s.later;
  kept = s.kept;
  found = λ i h. ground (arith, lookup-insert name name sid r.inner.by_name, test_refl name);
}

-- `id_of` keeps the cache and the table in agreement, changes the meaning of no id, loses no row of
-- the table, and an id that it answers is the one under which the cache has the name: whether the
-- store refuses the statement or not.
pub id_of_locked-IsAnswered :
    (refused : Bool) (name : String) (now : ℤ) (r : Registry)
    → IsCoherent r
    → IsAnswered name r (id_of_locked refused name now r)
unfolding id_of_locked cached_id
id_of_locked-IsAnswered refused name now r c =
    elim (Option-cases (fresh_cached_id r.inner name now)) [
      | inr (sid, e) ↦
          rw (e, id_of_locked)
            (unchanged name r sid c (fresh_cached_id-cached r.inner name now sid e))
      | inl e ↦ elim (Option-cases (lookup name r.inner.by_name)) [
        | inr (sid, f) ↦
            rw (e, id_of_locked, cached_id, f) (touch-IsAnswered refused name sid now r c f)
        | inl f ↦
            rw (e, id_of_locked, cached_id, f)
              (resolve-IsAnswered name now r c (Store.resolve_service refused name now r.store).0
                (Store.resolve_service refused name now r.store).1
                (resolve_service-IsResolved refused name now r.store c.table))
      ]
    ]

-- From a coherent registry, `id_of` leaves a coherent one, whether the store refuses or not: it
-- loses no row, changes the meaning of no id, and an id that it answers is the one under which the
-- cache has the name.
pub id_of-IsAnswered :
    (refused : Bool) (name : String) (now : ℤ) (r : Registry)
    → IsCoherent r
    → IsAnswered name r (id_of refused name now r)
unfolding id_of
id_of-IsAnswered refused name now r c = elim (Option-cases (fresh_cached_id r.inner name now)) [
  | inr (sid, e) ↦
      rw (e, id_of) (unchanged name r sid c (fresh_cached_id-cached r.inner name now sid e))
  | inl e ↦ rw (e, id_of) (id_of_locked-IsAnswered refused name now r c)
]
