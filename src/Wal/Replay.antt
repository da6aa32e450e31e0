-- ===== src/Wal/Replay.antt =====
-- What recovery reads from the log and sends to the table handler (storage/wal.rs, "Recovery").
use moonlink.Base.{
  ℕ, zero, suc, ◌+◌, ◌-◌, ◌≤◌, ◌<◌, ◌≡◌, ◌≢◌, refl, inl, inr, Bool, true, false, ◌&&◌, not, Option,
  none, some, List, [], ◌∷◌, map, Outcome, done, panics, Panic, >>=-eq-done, Result, ok, err, arith,
  ltb, Any, lookup, sym, ap, subst,
}
use moonlink.Base.Words.{u64_max, next_u64, next_u64_lem}
use moonlink.Event.{TableEvent, set_is_recovery}
use moonlink.Wal.Transaction.{
  WalTransactionState, is_closed, is_captured_in_iceberg_snapshot, get_completion_lsn_and_file,
}
use moonlink.Wal.Manager.{WalEvent, WalFileInfo, to_wal_event, into_table_event}
use moonlink.Wal.Persist.{PersistentWalMetadata}
use moonlink.Wal.Store.{FileSystem, Codec}
use moonlink.Wal.Recovery.{
  event_already_captured_in_iceberg_snapshot, reapply_streaming, reapply_update,
  should_reapply_wal_event, send_if, replay_events, read_wal_file, recover_files,
  file_number_or_panic, recover_flushed_wals,
}
use moonlink.Wal.Valid.{Numbered}
use moonlink.Wal.Valid.Files.{Numbered-le, Numbered-last}

-- An event of the log, turned into a table event and back, is the same event.
pub to_wal_event-into_table_event :
    {R : Type 0} (P E : Type 0) (w : WalEvent R)
    → to_wal_event (into_table_event {P = P} {E = E} w) ≡ done w
unfolding to_wal_event into_table_event
to_wal_event-into_table_event P E (WalEvent.append row x lsn) = refl
to_wal_event-into_table_event P E (WalEvent.delete row lsn x d) = refl
to_wal_event-into_table_event P E (WalEvent.commit lsn x) = refl
to_wal_event-into_table_event P E (WalEvent.stream_abort x) = refl
to_wal_event-into_table_event P E (WalEvent.stream_flush x) = refl

-- An append, a delete or a commit of the streaming transaction `x`.
abbrev pub IsUpdateOf : {R P E : Type 0} → ℕ → TableEvent R P E → Type 0
IsUpdateOf x (TableEvent.append _ y _ _) = y ≡ some x
IsUpdateOf x (TableEvent.delete _ _ y _ _) = y ≡ some x
IsUpdateOf x (TableEvent.commit _ y _) = y ≡ some x
IsUpdateOf x _ = ⊥

-- Whether a snapshot has captured the transaction; with no snapshot, nothing is captured.
abbrev pub captured_by : Option ℕ → WalTransactionState → Bool
captured_by none s = false
captured_by (some lsn) s = is_captured_in_iceberg_snapshot s lsn

module _ {R P E : Type 0} where
  reapply_streaming-tracked :
      (event : TableEvent R P E) (s : WalTransactionState) (last : Option ℕ)
      → reapply_streaming event (some s) last ≡ done (is_closed s && not (captured_by last s))
  unfolding reapply_streaming is_closed is_captured_in_iceberg_snapshot
      event_already_captured_in_iceberg_snapshot get_completion_lsn_and_file
  reapply_streaming-tracked event (WalTransactionState.commit a lsn c) none = refl
  reapply_streaming-tracked event (WalTransactionState.commit a lsn c) (some l) = refl
  reapply_streaming-tracked event (WalTransactionState.abort a lsn c) none = refl
  reapply_streaming-tracked event (WalTransactionState.abort a lsn c) (some l) = refl
  reapply_streaming-tracked event (WalTransactionState.opened a) last = refl

  -- An append, delete or commit of a tracked streaming transaction is sent again exactly when the
  -- transaction has ended and the snapshot has not captured it.
  pub should_reapply_wal_event-streaming :
      (event : TableEvent R P E) (x : ℕ) (s : WalTransactionState)
      (xacts : List (ℕ × WalTransactionState)) (highest : ℕ) (last : Option ℕ)
      → IsUpdateOf x event
      → lookup x xacts ≡ some s
      → should_reapply_wal_event event xacts highest last
        ≡ done (is_closed s && not (captured_by last s))
  unfolding should_reapply_wal_event reapply_update
  should_reapply_wal_event-streaming (TableEvent.append row y lsn r) x s xacts highest last u
        found =
      rw (u, reapply_update, found)
        (reapply_streaming-tracked (TableEvent.append row (some x) lsn r) s last)
  should_reapply_wal_event-streaming (TableEvent.delete row lsn y d r) x s xacts highest last u
        found =
      rw (u, reapply_update, found)
        (reapply_streaming-tracked (TableEvent.delete row lsn (some x) d r) s last)
  should_reapply_wal_event-streaming (TableEvent.commit lsn y r) x s xacts highest last u found =
      rw (u, reapply_update, found)
        (reapply_streaming-tracked (TableEvent.commit lsn (some x) r) s last)
  should_reapply_wal_event-streaming _ x s xacts highest last u found = absurd u

  send_if-done :
      (b : Bool) (e : TableEvent R P E) (rest : Outcome (List (TableEvent R P E)))
      (sent : List (TableEvent R P E))
      → send_if b e rest ≡ done sent
      → (later : List (TableEvent R P E)) × (rest ≡ done later)
  unfolding send_if
  send_if-done false e rest sent h = (sent, h)
  send_if-done true e rest sent h =
      let (marked, _, h') = >>=-eq-done (set_is_recovery e true) _ h in
      let (later, went, _) = >>=-eq-done rest _ h' in (later, went)

  abort-panics :
      (event : TableEvent R P E) (x : ℕ) (r c : Bool) (xacts : List (ℕ × WalTransactionState))
      (highest : ℕ) (last : Option ℕ) (b : Bool)
      → event ≡ TableEvent.stream_abort x r c
      → should_reapply_wal_event event xacts highest last ≢ done b
  unfolding should_reapply_wal_event
  abort-panics event x r c xacts highest last b same e =
      let stops : panics Panic.unimplemented ≡ done b =
        subst (λ j. should_reapply_wal_event j xacts highest last ≡ done b) same e in
      cc

  -- If one of the items read from the log is the abort of a streaming transaction, then the replay
  -- panics: whatever else the log holds, no list of events is sent.
  pub replay_events-abort :
      (items : List (Result (TableEvent R P E) E)) (x : ℕ) (r c : Bool)
      (xacts : List (ℕ × WalTransactionState)) (highest : ℕ) (last : Option ℕ)
      (sent : List (TableEvent R P E))
      → Any (λ i. i ≡ ok (TableEvent.stream_abort x r c)) items
      → replay_events items xacts highest last ≢ done sent
  unfolding replay_events
  replay_events-abort [] x r c xacts highest last sent m e = elim m [ ]
  replay_events-abort (err _ ∷ items) x r c xacts highest last sent (inl q) e = cc
  replay_events-abort (err _ ∷ items) x r c xacts highest last sent (inr m) e =
      replay_events-abort items x r c xacts highest last sent m e
  replay_events-abort (ok i ∷ items) x r c xacts highest last sent m e =
      let (b, now, went) = >>=-eq-done (should_reapply_wal_event i xacts highest last) _ e in
      elim m [
        | inl q ↦ abort-panics i x r c xacts highest last b (cc) now
        | inr m' ↦
            let (later, rest) = send_if-done b i _ sent went in
            replay_events-abort items x r c xacts highest last later m' rest
      ]

module _ {R B E : Type 0} (fs : FileSystem B E) (codec : Codec R B E) where
  -- Enough fuel reads each of consecutive files once, in order.
  recover_files-Numbered :
      (fuel : ℕ) (d : fs.Disk) (table k n end : ℕ) (files : List WalFileInfo)
      → Numbered k files n
      → end + 1 ≡ n
      → end < u64_max
      → n < fuel + k
      → recover_files fs codec fuel d table k end
        ≡ map (λ file. read_wal_file fs codec d table file.file_number) files
  unfolding recover_files
  recover_files-Numbered zero d table k n end files h e s f =
      absurd (omega (arith, Numbered-le k n files h))
  recover_files-Numbered (suc fuel) d table k n end [] h e s f =
      let past : ltb end k ≡ true = ground arith in rw past refl
  recover_files-Numbered (suc fuel) d table k n end (file ∷ files) h e s f =
      let below = Numbered-le (k + 1) n files h.1 in
      let within : ltb end k ≡ false = ground arith in
      let stepped : next_u64 k ≡ k + 1 = next_u64_lem k (omega arith) in
      rw (within, h.0, stepped)
        (ap (λ t. read_wal_file fs codec d table k ∷ t)
          (recover_files-Numbered fuel d table (k + 1) n end files h.1 e s (omega arith)))

  -- From the metadata of a log whose live files are consecutive, recovery reads each live file
  -- once, in order, and the fuel of the model is enough.
  pub recover_flushed_wals-Numbered :
      (d : fs.Disk) (m : PersistentWalMetadata) (k n : ℕ)
      → Numbered k m.live_wal_files_tracker n
      → k < n
      → n ≤ u64_max
      → recover_flushed_wals fs codec d m
        ≡ done (
            map
              (λ file. read_wal_file fs codec d m.mooncake_table_id file.file_number)
              m.live_wal_files_tracker)
  unfolding recover_flushed_wals file_number_or_panic
  recover_flushed_wals-Numbered d m k n h l s = go m.live_wal_files_tracker refl
    where
      Reads : List WalFileInfo → Type 0
      Reads files =
          recover_flushed_wals fs codec d m
          ≡ done (map (λ file. read_wal_file fs codec d m.mooncake_table_id file.file_number) files)

      go : (files : List WalFileInfo) → m.live_wal_files_tracker ≡ files → Reads files
      go [] e = absurd (omega (arith, subst (λ t. Numbered k t n) e h))
      go (file ∷ files) e =
          let h' = subst (λ t. Numbered k t n) e h in
          let moved : Numbered file.file_number (file ∷ files) n =
            subst (λ t. Numbered t (file ∷ files) n) (sym h'.0) h' in
          let (g, ends, below) = Numbered-last k n file files h' in
          rw (e, recover_flushed_wals, ends, file_number_or_panic)
            (ap done (
              recover_files-Numbered (suc (suc g.file_number - file.file_number)) d
                m.mooncake_table_id file.file_number n g.file_number (file ∷ files) moved below
                (omega arith) (omega arith)))
