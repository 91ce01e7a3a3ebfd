-- ===== src/Tests/Metadata.antt =====
-- src/metadata/service_registry.rs: two services, one of them reclaimed.
use vpsiner.Prelude.{
  ℕ, ◌≡◌, ◌≢◌, ◌≤◌, ◌^◌, refl, String, Bool, true, false, List, [], ◌∷◌, Option, some, none, ℤ, pos,
  arith, inl, inr, lookup, Eq-String, ◌-◌, ◌-ℤ◌,
}
use vpsiner.Error.{ok}
use vpsiner.Model.ContainerId.{ContainerId}
use vpsiner.Metadata.Checkpoints.{
  LogCheckpoint, advance_log_checkpoint, load_log_checkpoint, find_row, checkpoint_of,
}
use vpsiner.Metadata.Checkpoints.Stored.{later_of, load-advance_log_checkpoint}
use vpsiner.Retention.{Answers, Metadata, cleanup_once}
use vpsiner.Retention.Reclaim.{IsSeenSince, cleanup_once-spares}
use vpsiner.Metadata.Store.{ServiceRow, Services}
use vpsiner.Metadata.Store.Table.{IsTable}
use vpsiner.Metadata.Registry.{Registry, id_of, reclaim_before, load}
use vpsiner.Metadata.Registry.Coherent.{IsCoherent}
use vpsiner.Metadata.Registry.Loaded.{load-IsCoherent}
use vpsiner.Metadata.Registry.Kept.{IsAnswered, id_of-IsAnswered}
use vpsiner.Metadata.Registry.Reclaimed.{IsReclaimed, reclaim_before-IsReclaimed}
use vpsiner.Metadata.Registry.Ids.{done, reclaimed, id_of-one_name}

-- The table of a first start, and the registry over it.
abbrev empty_table : Services
empty_table = record { rows = []; next_sid = 1 }

empty_table-IsTable : IsTable empty_table
empty_table-IsTable = record {
  issued = λ i n h. absurd h;
  one_id = λ i j n h. absurd h;
  one_name = λ i n m h. absurd h;
}

abbrev fresh_registry : Registry
fresh_registry = record {
  store = empty_table;
  inner = record { by_name = []; by_id = []; touched_ms = [] };
}

loaded : load false empty_table ≡ ok fresh_registry
unfolding load vpsiner.Metadata.Store.list_services
loaded = refl

fresh-IsCoherent : IsCoherent fresh_registry
fresh-IsCoherent = (load-IsCoherent false empty_table fresh_registry empty_table-IsTable loaded).0

abbrev with_web : Registry
with_web = (id_of false "web" (pos 1000) fresh_registry).1

web_id : (id_of false "web" (pos 1000) fresh_registry).0 ≡ ok 1
unfolding id_of vpsiner.Prelude.lookup vpsiner.Metadata.Store.resolve_service
    vpsiner.Metadata.Store.find_name
web_id = refl

-- The name reads back for two hours after, when the store refuses the refresh.
id_of-IsAnswered_example : IsAnswered "web" with_web (id_of true "web" (pos 7201000) with_web)
id_of-IsAnswered_example =
    id_of-IsAnswered true "web" (pos 7201000) with_web
      (id_of-IsAnswered false "web" (pos 1000) fresh_registry fresh-IsCoherent).coherent

small : with_web.store.next_sid ≤ 2 ^ 32
unfolding id_of vpsiner.Prelude.lookup vpsiner.Metadata.Store.resolve_service
    vpsiner.Metadata.Store.find_name
small = omega arith

reclaim_before-IsReclaimed_example :
    IsReclaimed (pos 5000) with_web (reclaim_before false (pos 5000) with_web)
reclaim_before-IsReclaimed_example =
    reclaim_before-IsReclaimed (pos 5000) with_web small
      (id_of-IsAnswered false "web" (pos 1000) fresh_registry fresh-IsCoherent).coherent

-- A refused reclamation between two calls for the same name.
web_later : (id_of false "web" (pos 2000) (reclaim_before true (pos 5000) with_web).1).0 ≡ ok 1
unfolding id_of reclaim_before vpsiner.Metadata.Store.delete_services_before vpsiner.Prelude.lookup
    vpsiner.Metadata.Store.resolve_service vpsiner.Metadata.Store.find_name vpsiner.Prelude.insert
    vpsiner.Prelude.wrap_i64 vpsiner.Prelude.◌-ℤ◌
web_later = refl

id_of-one_name_example : ◌≡◌ {A = String} "web" "web"
id_of-one_name_example =
    id_of-one_name fresh_registry (reclaim_before true (pos 5000) with_web).1 false false "web"
      "web" (pos 1000) (pos 2000) 1 fresh-IsCoherent
      (reclaimed true (pos 5000) with_web small (done (reclaim_before true (pos 5000) with_web).1))
      web_id web_later

abbrev cid : ContainerId
cid = record { bytes = 1 ∷ 2 ∷ 3 ∷ 4 ∷ 5 ∷ 6 ∷ [] }

abbrev checkpoint : LogCheckpoint
checkpoint = record { ts = pos 9; line_hash = 2 ^ 64 - 1 }

load-advance_log_checkpoint_example :
    load_log_checkpoint false 1 cid (advance_log_checkpoint false 1 cid checkpoint []).1
    ≡ ok (some (later_of (checkpoint_of (find_row 1 cid [])) checkpoint))
load-advance_log_checkpoint_example = load-advance_log_checkpoint 1 cid checkpoint [] (omega arith)

abbrev answers : Answers
answers = record {
  metrics_cleaned = ok 3;
  logs_removed = ok [];
  checkpoints_refused = false;
  services_refused = false;
}

abbrev tables : Metadata
tables = record { checkpoints = []; registry = with_web }

web_cached : lookup "web" with_web.inner.by_name ≡ some 1
unfolding id_of vpsiner.Prelude.lookup vpsiner.Metadata.Store.resolve_service
    vpsiner.Metadata.Store.find_name vpsiner.Prelude.insert
web_cached = refl

web_seen : IsSeenSince (pos 7000000 -ℤ pos 3600000 -ℤ pos 3600000) 1 with_web.store.rows
unfolding id_of vpsiner.Prelude.lookup vpsiner.Metadata.Store.resolve_service
    vpsiner.Metadata.Store.find_name vpsiner.Prelude.insert ◌-ℤ◌
web_seen = (inr (omega arith), tt)

cleanup_once-spares_example :
    IsCoherent (cleanup_once answers (pos 7000000) tables).registry
    × (lookup "web" (cleanup_once answers (pos 7000000) tables).registry.inner.by_name ≡ some 1)
cleanup_once-spares_example =
    cleanup_once-spares answers (pos 7000000) tables "web" 1
      (record { above = omega arith; below = omega arith }) small
      (id_of-IsAnswered false "web" (pos 1000) fresh_registry fresh-IsCoherent).coherent web_seen
      web_cached
