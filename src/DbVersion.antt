-- ===== src/DbVersion.antt =====
-- src/db_version.rs: the guard of the databases' schema versions at startup. The file system is a
-- state; what it refuses is an argument, and the texts of the messages are not modelled.
pub mod Guard
pub mod Evaluate
pub mod Retry
use vpsiner.Prelude.{
  ℕ, Bool, true, false, not, ◌&&◌, List, [], ◌∷◌, Option, none, some, ◌==◌, keep, if◌then◌else◌,
}

abbrev pub metadata_db_version : ℕ
metadata_db_version = 3

abbrev pub logs_db_version : ℕ
logs_db_version = 3

abbrev pub metrics_db_version : ℕ
metrics_db_version = 3

pub data DbKind : Type 0 where
  metadata logs metrics : DbKind

abbrev pub all_kinds : List DbKind
all_kinds = metadata ∷ logs ∷ metrics ∷ []

pub record DbVersions : Type 0 where
  pub metadata_version : ℕ
  pub logs_version : ℕ
  pub metrics_version : ℕ

unfoldable pub expected : DbKind → ℕ
expected metadata = metadata_db_version
expected logs = logs_db_version
expected metrics = metrics_db_version

unfoldable pub recorded : DbKind → DbVersions → ℕ
recorded metadata versions = versions.metadata_version
recorded logs versions = versions.logs_version
recorded metrics versions = versions.metrics_version

abbrev pub current : DbVersions
current = record {
  metadata_version = metadata_db_version;
  logs_version = logs_db_version;
  metrics_version = metrics_db_version;
}

unfoldable pub is_current : DbVersions → Bool
is_current v =
    v.metadata_version == metadata_db_version
    && (v.logs_version == logs_db_version && v.metrics_version == metrics_db_version)

-- The directory of the data: which of the databases' directories exist, and the manifest, `none` when
-- it is absent, cannot be read or cannot be parsed.
pub record DataPath : Type 0 where
  pub has_metadata : Bool
  pub has_logs : Bool
  pub has_metrics : Bool
  pub manifest : Option DbVersions

-- `tokio::fs::write`: it is done, the file cannot be opened, or it is emptied and then not written to
-- its end, which leaves a manifest that cannot be parsed.
pub data Writing : Type 0 where
  complete : Writing
  unopened : Writing
  cut_short : Writing

-- What the file system refuses.
pub record Refusals : Type 0 where
  pub create_dir : Bool
  pub write : Writing
  pub remove : DbKind → Bool

-- What the message of a fatal error is about.
pub data Fatal : Type 0 where
  create_failed : Fatal
  write_failed : Fatal
  remove_failed : DbKind → Fatal
  incompatible : DbVersions → List DbKind → Fatal

pub data Verdict : Type 0 where
  accepted : Verdict
  refused : Fatal → Verdict

unfoldable pub exists : DbKind → DataPath → Bool
exists metadata path = path.has_metadata
exists logs path = path.has_logs
exists metrics path = path.has_metrics

unfoldable pub without : DbKind → DataPath → DataPath
without metadata path = record path { has_metadata = false }
without logs path = record path { has_logs = false }
without metrics path = record path { has_metrics = false }

-- `remove_dir`, where a directory that is not there is removed already.
unfoldable pub remove_dir : Refusals → DbKind → DataPath → Verdict × DataPath
unfolding without
remove_dir fs kind path =
    if fs.remove kind then (refused (remove_failed kind), path) else (accepted, without kind path)

unfoldable pub write_versions : Refusals → DbVersions → DataPath → Verdict × DataPath
write_versions fs versions path = elim fs.write [
  | complete ↦ (accepted, record path { manifest = some versions })
  | unopened ↦ (refused write_failed, path)
  | cut_short ↦ (refused write_failed, record path { manifest = none })
]

-- The directories in turn, and then the current versions: the first failure ends it.
unfoldable pub wipe : Refusals → List DbKind → DataPath → Verdict × DataPath
unfolding remove_dir write_versions
wipe fs [] path = write_versions fs current path
wipe fs (kind ∷ rest) path =
    let (verdict, path') = remove_dir fs kind path in
    elim verdict [ accepted ↦ wipe fs rest path' | refused fatal ↦ (refused fatal, path') ]

unfoldable pub is_stale : DbVersions → DataPath → DbKind → Bool
unfolding recorded expected exists
is_stale versions path kind = not (recorded kind versions == expected kind) && exists kind path

unfoldable pub stale_kinds : DbVersions → DataPath → List DbKind
unfolding is_stale
stale_kinds versions path = keep (is_stale versions path) all_kinds

unfoldable pub upgrade : Refusals → Bool → DbVersions → List DbKind → DataPath → Verdict × DataPath
unfolding wipe write_versions is_current
upgrade fs force versions [] path =
    if is_current versions then (accepted, path) else write_versions fs current path
upgrade fs force versions (kind ∷ rest) path =
    if not force
    then (refused (incompatible versions (kind ∷ rest)), path)
    else wipe fs (kind ∷ rest) path

unfoldable pub evaluate : Refusals → Bool → DataPath → Verdict × DataPath
unfolding wipe upgrade stale_kinds
evaluate fs force path =
    if fs.create_dir then (refused create_failed, path) else elim path.manifest [
      | none ↦ wipe fs all_kinds path
      | some versions ↦ upgrade fs force versions (stale_kinds versions path) path
    ]
