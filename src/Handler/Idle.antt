-- ===== src/Handler/Idle.antt =====
-- The options of the next snapshot, by what the table handler has in progress.
use moonlink.Base.{ℕ, ◌≡◌, Bool, true, arith}
use moonlink.Handler.Options.{MaintenanceOption}
use moonlink.Handler.State.{TableHandlerState, is_maintenance_ongoing, is_requested}
use moonlink.Handler.Maintenance.{
  can_start_new_maintenance, get_mooncake_snapshot_option, get_maintenance_task_option,
  requested_option, forces_snapshot,
}

module _ {Q V : Type 0} where
  -- If new maintenance can start, then the next snapshot tries index merge and data compaction at
  -- its best effort and is created only on demand; and as soon as maintenance is in progress, the
  -- snapshot skips both.
  can_start_new_maintenance-options :
      (s : TableHandlerState Q V) (force : Bool) (uuid a b c : ℕ)
      → can_start_new_maintenance s ≡ true
      → ((get_mooncake_snapshot_option s force uuid a b c).index_merge_option
          ≡ MaintenanceOption.best_effort b)
        × ((get_mooncake_snapshot_option s force uuid a b c).data_compaction_option
            ≡ MaintenanceOption.best_effort c)
        × ((get_mooncake_snapshot_option s force uuid a b c).force_create ≡ force)
  unfolding can_start_new_maintenance get_mooncake_snapshot_option get_maintenance_task_option
      requested_option forces_snapshot is_requested is_maintenance_ongoing
  can_start_new_maintenance-options s force uuid a b c h = ground arith
