-- ===== src/Wal/Valid/Push.antt =====
-- Pushing an event (storage/wal.rs, `push`).
use moonlink.Base.{ℕ, ◌≤◌, ◌≡◌, refl, ◌⊎◌, false, Option, [], ◌∷◌, ◌++◌, done, arith}
use moonlink.Event.{TableEvent, is_recovery}
use moonlink.Wal.Manager.{
  WalEvent, WalManager, to_wal_event, tracked_xact_id, raise_highest_lsn, update_highest_lsn, push,
}
use moonlink.Wal.Valid.{IsTracked, IsLogged}
use moonlink.Wal.Valid.Tracking.{IsFresh, update_transaction_tracking-IsTracked}

-- A commit's LSN is 0, or no lower than that of any commit before it.
abbrev pub IsMonotone : {R P E : Type 0} → (highest : ℕ) → TableEvent R P E → Type 0
IsMonotone highest (TableEvent.commit lsn _ _) = (lsn ≡ 0) ⊎ (highest ≤ lsn)
IsMonotone highest (TableEvent.commit_flush lsn _ _) = (lsn ≡ 0) ⊎ (highest ≤ lsn)
IsMonotone highest _ = Unit

-- What a manager expects of the next event: a live event of a kind that the log takes, in the order
-- of the commits, and none of a streaming transaction that has ended.
pub record Accepts {R P E : Type 0} (m : WalManager R) (event : TableEvent R P E) : Type 0 where
  pub logged : IsLogged event
  pub live : is_recovery event ≡ done false
  pub monotone : IsMonotone m.highest_completion_lsn event
  pub fresh : IsFresh (tracked_xact_id event) m.active_transactions

raise_highest_lsn-done :
    {R : Type 0} (m : WalManager R) (lsn : ℕ)
    → (lsn ≡ 0) ⊎ (m.highest_completion_lsn ≤ lsn)
    → raise_highest_lsn m lsn ≡ done (record m { highest_completion_lsn = lsn })
unfolding raise_highest_lsn
raise_highest_lsn-done m lsn h = ground arith

abbrev buffered : {R : Type 0} → WalManager R → WalEvent R → WalManager R
buffered m e = record m { in_mem_buf = m.in_mem_buf ++ (e ∷ []) }

module _ {R P E : Type 0} (m : WalManager R) where
  buffer_event :
      (event : TableEvent R P E)
      → IsLogged event
      → IsMonotone m.highest_completion_lsn event
      → (e : WalEvent R) × (h : ℕ) × (to_wal_event event ≡ done e)
        × (update_highest_lsn (buffered m e) event
            ≡ done (record m { in_mem_buf = m.in_mem_buf ++ (e ∷ []); highest_completion_lsn = h }))
  unfolding to_wal_event update_highest_lsn
  buffer_event (TableEvent.append row x lsn _) l h =
      (WalEvent.append row x lsn, m.highest_completion_lsn, refl, refl)
  buffer_event (TableEvent.delete row lsn x d _) l h =
      (WalEvent.delete row lsn x d, m.highest_completion_lsn, refl, refl)
  buffer_event (TableEvent.commit lsn x _) l h =
      (WalEvent.commit lsn x, lsn, refl, raise_highest_lsn-done _ lsn h)
  buffer_event (TableEvent.stream_abort x _ _) l h =
      (WalEvent.stream_abort x, m.highest_completion_lsn, refl, refl)
  buffer_event (TableEvent.commit_flush lsn x _) l h =
      (WalEvent.commit lsn x, lsn, refl, raise_highest_lsn-done _ lsn h)
  buffer_event (TableEvent.stream_flush x _) l h =
      (WalEvent.stream_flush x, m.highest_completion_lsn, refl, refl)
  buffer_event _ l h = absurd l

-- The manager after a push: the event's record stands at the end of the buffer, and the files are
-- as before.
pub record Pushed {R P E : Type 0} (m m' : WalManager R) (event : TableEvent R P E) : Type 0 where
  pub wal_event : WalEvent R
  pub converted : to_wal_event event ≡ done wal_event
  pub buffer : m'.in_mem_buf ≡ m.in_mem_buf ++ (wal_event ∷ [])
  pub live : m'.live_wal_files_tracker ≡ m.live_wal_files_tracker
  pub current : m'.curr_file_number ≡ m.curr_file_number
  pub table : m'.mooncake_table_id ≡ m.mooncake_table_id

-- If a manager's trackers are bounded, with the oldest kept file `k` and perhaps an update in
-- flight, then a push of an event that it accepts fails no assertion and keeps the trackers bounded
-- and the main transaction's tracker in shape. It appends the event's record to the buffer and
-- changes neither the live files nor the current file's number.
pub push-IsTracked :
    {R P E : Type 0} (in_flight : Option ℕ) (k : ℕ) (m : WalManager R) (event : TableEvent R P E)
    → Accepts m event
    → IsTracked in_flight k m
    → (m' : WalManager R) × (push m event ≡ done m') × IsTracked in_flight k m' × Pushed m m' event
unfolding push
push-IsTracked in_flight k m event a v =
    let (e, h, converted, raised) = buffer_event m event a.logged a.monotone in
    let buffered_m = record m {
      in_mem_buf = m.in_mem_buf ++ (e ∷ []);
      highest_completion_lsn = h;
    } in
    let (m', tracked, v', same) =
      update_transaction_tracking-IsTracked in_flight k buffered_m event a.logged
        (record {
          current = v.current;
          streaming = v.streaming;
          main = v.main;
          shape = v.shape;
          ascending = v.ascending;
        })
        a.fresh in
    (
      m',
      rw (a.live, converted, raised) tracked,
      v',
      record {
        wal_event = e;
        converted = converted;
        buffer = same.buffer;
        live = same.live;
        current = same.current;
        table = same.table;
      },
    )
