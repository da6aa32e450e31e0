-- ===== src/Tests/Replay.antt =====
-- The theorems on recovery at concrete logs.
use moonlink.Base.{
  ◌⊎◌, ℕ, ◌≡◌, ◌≢◌, refl, inl, inr, true, false, some, List, [], ◌∷◌, done, panics, Panic, Result,
  ok, err,
}
use moonlink.Event.{TableEvent, is_recovery, set_is_recovery}
use moonlink.Wal.Transaction.{WalTransactionState}
use moonlink.Wal.Manager.{WalEvent, to_wal_event, into_table_event}
use moonlink.Wal.Recovery.{
  event_already_captured_in_iceberg_snapshot, reapply_streaming, reapply_update,
  should_reapply_wal_event, send_if, replay_events,
}
use moonlink.Wal.Replay.{
  to_wal_event-into_table_event, should_reapply_wal_event-streaming, replay_events-abort,
}
use moonlink.Wal.Marked.{set_is_recovery-cases}
use moonlink.Tests.Log.{program, Event}

-- A streaming transaction that committed at 9 in file 0 and was not captured at 5.
abbrev xacts : List (ℕ × WalTransactionState)
xacts = (7, WalTransactionState.commit 0 9 0) ∷ []

abbrev appended : Event
appended = TableEvent.append 10 (some 7) 6 false

abbrev items : List (Result Event ℕ)
items = ok appended ∷ err 1 ∷ ok (TableEvent.commit 9 (some 7) false) ∷ []

abbrev sent : List Event
sent = TableEvent.append 10 (some 7) 6 true ∷ TableEvent.commit 9 (some 7) true ∷ []

sends : replay_events items xacts 9 (some 5) ≡ done sent
unfolding replay_events should_reapply_wal_event reapply_update reapply_streaming
    event_already_captured_in_iceberg_snapshot send_if set_is_recovery
sends = refl

to_wal_event-into_table_event_example :
    to_wal_event {R = ℕ} (into_table_event {P = ℕ} {E = ℕ} (WalEvent.append 10 (some 7) 6))
    ≡ done (WalEvent.append 10 (some 7) 6)
to_wal_event-into_table_event_example =
    to_wal_event-into_table_event ℕ ℕ (WalEvent.append 10 (some 7) 6)

should_reapply_wal_event-streaming_example :
    should_reapply_wal_event appended xacts 9 (some 5) ≡ done true
unfolding program
should_reapply_wal_event-streaming_example =
    should_reapply_wal_event-streaming appended 7 (WalTransactionState.commit 0 9 0) xacts 9
      (some 5) refl refl

replay_events-abort_example :
    replay_events (ok appended ∷ ok (TableEvent.stream_abort 7 false false) ∷ []) xacts 9 (some 5)
    ≢ done sent
replay_events-abort_example =
    replay_events-abort (ok appended ∷ ok (TableEvent.stream_abort 7 false false) ∷ []) 7 false
      false xacts 9 (some 5) sent (inr (inl refl))

set_is_recovery-cases_example :
    ((set_is_recovery appended true ≡ panics Panic.unimplemented)
      × (to_wal_event appended ≡ panics Panic.unimplemented))
    ⊎ ((e' : Event) × (set_is_recovery appended true ≡ done e')
        × (is_recovery e' ≡ done true)
        × (to_wal_event e' ≡ to_wal_event appended))
set_is_recovery-cases_example = set_is_recovery-cases appended true
