-- ===== src/Metadata/Registry.antt =====
-- src/metadata/service_registry.rs: the cache of the service dictionary. `reclamation_lock` makes
-- the part of `id_of` behind the fast path, and `reclaim_before`, one step each; the table of the
-- store and the cache are threaded through.
pub mod Coherent
pub mod Ids
pub mod Loaded
pub mod Reclaimed
pub mod Kept
use vpsiner.Prelude.{
  ℕ, ◌*◌, String, Bool, true, false, List, [], ◌∷◌, Option, none, some, ℤ, pos, ◌-ℤ◌, wrap_i64,
  ltb_ℤ, if◌then◌else◌, HashMap, lookup, insert, remove, ◌>>=◌, Eq-String, Eq-ℕ,
}
use vpsiner.Error.{AppResult, ok, err, storage}
use vpsiner.Model.Metrics.{ServiceId}
use vpsiner.Metadata.Store
use vpsiner.Metadata.Store.{Services}

abbrev pub touch_interval_ms : ℕ
touch_interval_ms = 60 * 60 * 1000

pub record Inner : Type 0 where
  pub by_name : HashMap String ServiceId
  pub by_id : HashMap ServiceId String
  pub touched_ms : HashMap ServiceId ℤ

abbrev pub Inner_default : Inner
Inner_default = record { by_name = []; by_id = []; touched_ms = [] }

-- The store behind the registry, and its cache.
pub record Registry : Type 0 where
  pub store : Services
  pub inner : Inner

unfoldable pub load_all : Inner → List (ServiceId × String) → Inner
load_all inner [] = inner
load_all inner ((sid, name) ∷ rest) =
    load_all
      (record inner {
        by_name = insert name sid inner.by_name;
        by_id = insert sid name inner.by_id;
      })
      rest

unfoldable pub load : Bool → Services → AppResult Registry
unfolding load_all
load refused store = elim (Store.list_services refused store) [
  | err e ↦ err e
  | ok listed ↦ ok (record { store = store; inner = load_all Inner_default listed })
]

unfoldable pub cached_id : Inner → String → Option ServiceId
cached_id inner name = lookup name inner.by_name

-- `now - *last < TOUCH_INTERVAL_MS`
unfoldable pub is_fresh : ℤ → ℤ → Bool
is_fresh now last = ltb_ℤ (wrap_i64 (now -ℤ last)) (pos touch_interval_ms)

unfoldable pub fresh_cached_id : Inner → String → ℤ → Option ServiceId
unfolding is_fresh
fresh_cached_id inner name now = do
  sid ← lookup name inner.by_name
  last ← lookup sid inner.touched_ms
  if is_fresh now last then some sid else none

-- The stamp is written to the cache before the store is asked.
unfoldable pub update_watermark : Bool → ServiceId → ℤ → Registry → AppResult (Unit {0}) × Registry
update_watermark refused sid now r =
    let (answer, store) = Store.touch_service refused sid now r.store in
    let inner : Inner = record {
      by_name = r.inner.by_name;
      by_id = r.inner.by_id;
      touched_ms = insert sid now r.inner.touched_ms;
    } in
    (answer, record { store = store; inner = inner })

unfoldable pub touch : Bool → ServiceId → ℤ → Registry → AppResult (Unit {0}) × Registry
unfolding is_fresh update_watermark
touch refused sid now r =
    let touched : AppResult (Unit {0}) × Registry = update_watermark refused sid now r in
    elim (lookup sid r.inner.touched_ms) [
      | none ↦ touched
      | some last ↦ if is_fresh now last then (ok tt, r) else touched
    ]

unfoldable pub remember : Inner → String → ServiceId → ℤ → Inner
remember inner name sid now = record {
  by_name = insert name sid inner.by_name;
  by_id = insert sid name inner.by_id;
  touched_ms = insert sid now inner.touched_ms;
}

-- `id_of` under the lock.
unfoldable pub id_of_locked : Bool → String → ℤ → Registry → AppResult ServiceId × Registry
unfolding fresh_cached_id cached_id touch remember
id_of_locked refused name now r = elim (fresh_cached_id r.inner name now) [
  | some sid ↦ (ok sid, r)
  | none ↦ elim (cached_id r.inner name) [
    | some sid ↦
        let (answer, r') = touch refused sid now r in
        (elim answer [ ok _ ↦ ok sid | err e ↦ err e ], r')
    | none ↦
        let (answer, store) = Store.resolve_service refused name now r.store in
        elim answer [
          | err e ↦ (err e, record r { store = store })
          | ok sid ↦ (ok sid, record { store = store; inner = remember r.inner name sid now })
        ]
  ]
]

-- `id_of`, where nothing else runs between the fast path and the lock.
unfoldable pub id_of : Bool → String → ℤ → Registry → AppResult ServiceId × Registry
unfolding fresh_cached_id id_of_locked
id_of refused name now r = elim (fresh_cached_id r.inner name now) [
  | some sid ↦ (ok sid, r)
  | none ↦ id_of_locked refused name now r
]

unfoldable pub forget_one : Inner → ServiceId → Inner
forget_one inner sid = elim (lookup sid inner.by_id) [
  | none ↦ record inner { touched_ms = remove sid inner.touched_ms }
  | some name ↦ record {
    by_name = remove name inner.by_name;
    by_id = remove sid inner.by_id;
    touched_ms = remove sid inner.touched_ms;
  }
]

unfoldable pub forget : Inner → List ServiceId → Inner
unfolding forget_one
forget inner [] = inner
forget inner (sid ∷ rest) = forget (forget_one inner sid) rest

unfoldable pub reclaim_before : Bool → ℤ → Registry → AppResult (List ServiceId) × Registry
unfolding forget
reclaim_before refused cutoff_ms r =
    let (answer, store) = Store.delete_services_before refused cutoff_ms r.store in
    elim answer [
      | err e ↦ (err e, record r { store = store })
      | ok reclaimed ↦ (ok reclaimed, record { store = store; inner = forget r.inner reclaimed })
    ]

unfoldable pub name : Inner → ServiceId → Option String
name inner sid = lookup sid inner.by_id
