-- ===== src/Handler/Options.antt =====
-- The options of a mooncake snapshot (storage/snapshot_options.rs). An event id, a UUID in the source,
-- is a number; the call that draws a fresh one is outside the program.
use moonlink.Base.{ℕ, Bool, Option, none, some}

pub data MaintenanceOption : Type 0 where
  best_effort force_regular force_full : (event_id : ℕ) → MaintenanceOption
  skip : MaintenanceOption

pub data IcebergSnapshotOption : Type 0 where
  skip : IcebergSnapshotOption
  best_effort : (event_id : ℕ) → IcebergSnapshotOption

unfoldable pub get_event_id : IcebergSnapshotOption → Option ℕ
get_event_id IcebergSnapshotOption.skip = none
get_event_id (IcebergSnapshotOption.best_effort id) = some id

pub record SnapshotOption : Type 0 where
  pub uuid : ℕ
  pub dump_snapshot : Bool
  pub force_create : Bool
  pub iceberg_snapshot_option : IcebergSnapshotOption
  pub index_merge_option : MaintenanceOption
  pub data_compaction_option : MaintenanceOption
