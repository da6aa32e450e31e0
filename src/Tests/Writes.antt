-- ===== src/Tests/Writes.antt =====
-- The theorems on when the table handler writes the log, at concrete states.
use moonlink.Base.{arith, Option, ℕ, ◌≡◌, refl, some, done}
use moonlink.Event.{is_some}
use moonlink.Wal.Manager.{WalManager}
use moonlink.Wal.Persist.{PreparePersistentUpdate}
use moonlink.Wal.Valid.Prepare.{first_kept}
use moonlink.Handler.Log.{periodical_persistence_update_wal}
use moonlink.Handler.Writes.{Started, periodical_persistence_update_wal-Started}
use moonlink.Tests.Witnesses.{streaming-IsIdle}
use moonlink.Tests.Log.{streaming}
use moonlink.Tests.Handler.{State, at_four}

periodical_persistence_update_wal-Started_example :
    (s' : State) × (m' : WalManager ℕ) × (o : Option (PreparePersistentUpdate ℕ))
    × (periodical_persistence_update_wal at_four streaming (some 5) ≡ done (s', m', o))
    × (s' ≡ record at_four { wal_persist_ongoing = is_some o })
    × Started 0 (first_kept 0 streaming (some 5)) streaming m' o
periodical_persistence_update_wal-Started_example =
    periodical_persistence_update_wal-Started at_four 0 streaming (some 5) streaming-IsIdle
      (omega arith) refl
