-- ===== src/Tests/DbVersion.antt =====
-- src/db_version.rs: a data directory of an older version.
use vpsiner.Prelude.{◌≡◌, refl, true, false, ◌&&◌, is_some, some, inr}
use vpsiner.DbVersion.{
  metadata, DbVersions, DataPath, unopened, cut_short, Refusals, accepted, expected, recorded,
  exists, evaluate,
}
use vpsiner.DbVersion.Evaluate.{IsServed, evaluate-IsServed, evaluate-spares}
use vpsiner.DbVersion.Retry.{calm, evaluate-retried}

-- The logs were written at version 2, and there are no metrics.
abbrev old_versions : DbVersions
old_versions = record { metadata_version = 3; logs_version = 2; metrics_version = 1 }

abbrev old_path : DataPath
old_path = record {
  has_metadata = true;
  has_logs = true;
  has_metrics = false;
  manifest = some old_versions;
}

-- The manifest cannot be opened for writing, or the disk is full.
abbrev read_only : Refusals
read_only = record { create_dir = false; write = unopened; remove = λ kind. false }

abbrev full_disk : Refusals
full_disk = record { create_dir = false; write = cut_short; remove = λ kind. false }

forced_accepted : (evaluate calm true old_path).0 ≡ accepted
unfolding evaluate
forced_accepted = refl

same_version : recorded metadata old_versions ≡ expected metadata
unfolding recorded expected
same_version = refl

evaluate-IsServed_example : IsServed old_path (evaluate calm true old_path).1
evaluate-IsServed_example = evaluate-IsServed calm true old_path forced_accepted

evaluate-spares_example :
    exists metadata (evaluate read_only true old_path).1 ≡ exists metadata old_path
evaluate-spares_example =
    evaluate-spares read_only true old_path old_versions metadata refl (inr same_version)

evaluate-retried_example :
    ((evaluate calm true (evaluate full_disk true old_path).1).0 ≡ accepted)
    × (exists metadata (evaluate calm true (evaluate full_disk true old_path).1).1 ≡ (
        is_some (evaluate full_disk true old_path).1.manifest
        && exists metadata (evaluate calm true old_path).1))
evaluate-retried_example = evaluate-retried full_disk old_path metadata
