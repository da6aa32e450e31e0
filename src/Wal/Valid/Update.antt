-- ===== src/Wal/Valid/Update.antt =====
-- A persistence update from its preparation to its completion.
use moonlink.Base.{
  ℕ, ◌+◌, ◌≤◌, ◌<◌, ◌≡◌, ◌≢◌, refl, ◌⊎◌, inl, inr, Option, none, some, List, [], ◌∷◌, arith,
  All-map, values, sym, ap, subst,
}
use moonlink.Base.Words.{u64_max, next_u64, next_u64_lem}
use moonlink.Wal.Transaction.{WalTransactionState}
use moonlink.Wal.Manager.{WalEvent, WalFileInfo, WalManager}
use moonlink.Wal.Persist.{
  PreparePersistentUpdate, file_info, push_file, compute_updated_live_wal_file_tracker, take_events,
  extract_next_persistence_file,
}
use moonlink.Wal.Valid.{Numbered, IsBounded, IsTracked}
use moonlink.Wal.Valid.Files.{Numbered-append}
use moonlink.Wal.Valid.Cleanup.{IsBounded-mono}

-- No update is in flight: the live files run from `k` to the current file, and every tracked
-- transaction lies among them.
pub record IsIdle {R : Type 0} (k : ℕ) (m : WalManager R) : Type 0 where
  pub tracked : IsTracked none k m
  pub live : Numbered k m.live_wal_files_tracker m.curr_file_number

-- The live files once an update is complete.
abbrev pub next_live : {R : Type 0} → WalManager R → PreparePersistentUpdate R → List WalFileInfo
next_live m u =
    compute_updated_live_wal_file_tracker m.live_wal_files_tracker u.files_to_delete
      (file_info u.files_to_persist)

-- An update is in flight that deletes the files from `k` up to `w`. Every transaction that its
-- snapshot has not captured began in file `w` or later, and the files that will be live run from
-- `w` to the current file.
pub record IsInFlight {R : Type 0} (k w : ℕ) (m : WalManager R) (u : PreparePersistentUpdate R)
    : Type 0 where
  pub tracked : IsTracked u.accompanying_persistence_snapshot_lsn w m
  pub deleted : Numbered k u.files_to_delete w
  pub small : w ≤ u64_max
  pub next : Numbered w (next_live m u) m.curr_file_number
  pub written : u.persistent_wal_metadata.live_wal_files_tracker ≡ next_live m u

-- The manager once its buffered events have left for a file.
abbrev pub emptied : {R : Type 0} → WalManager R → WalManager R
emptied m = record m { in_mem_buf = []; curr_file_number = next_u64 m.curr_file_number }

abbrev pub next_file : {R : Type 0} → WalManager R → WalFileInfo
next_file m = record { file_number = m.curr_file_number; highest_lsn = m.highest_completion_lsn }

-- Nothing is buffered and no file begins, or all that is buffered leaves for the next file.
abbrev pub Extracted :
    {R : Type 0}
    → WalManager R
    → (buffer : List (WalEvent R)) → WalManager R
    → Option (List (WalEvent R) × WalFileInfo)
    → Type 0
Extracted m buffer m' next =
    ((buffer ≡ []) × (m' ≡ record m { in_mem_buf = [] }) × (next ≡ none))
    ⊎ ((buffer ≢ []) × (m' ≡ emptied m) × (next ≡ some (buffer, next_file m)))

module _ {R : Type 0} where
  take_events-Extracted :
      (m : WalManager R) (buffer : List (WalEvent R))
      → Extracted m buffer (take_events m buffer).0 (take_events m buffer).1
  unfolding take_events
  take_events-Extracted m [] = inl (refl, refl, refl)
  take_events-Extracted m (event ∷ events) = inr (λ e. cc, refl, refl)

  pub extract_next_persistence_file-Extracted :
      (m : WalManager R)
      → Extracted m m.in_mem_buf
          (extract_next_persistence_file m).0
          (extract_next_persistence_file m).1
  unfolding extract_next_persistence_file
  extract_next_persistence_file-Extracted m = take_events-Extracted m m.in_mem_buf

  emptied-IsTracked :
      (in_flight : Option ℕ) (w : ℕ) (m : WalManager R)
      → m.curr_file_number < u64_max
      → IsTracked in_flight w m
      → IsTracked in_flight w (emptied m)
  emptied-IsTracked in_flight w m small v = record {
    current = omega (arith, v.current, grown);
    streaming = All-map _ _ later (values m.active_transactions) v.streaming;
    main = All-map _ _ later m.main_transaction_tracker v.main;
    shape = v.shape;
    ascending = v.ascending;
  }
    where
      grown : next_u64 m.curr_file_number ≡ m.curr_file_number + 1
      grown = next_u64_lem m.curr_file_number small

      later :
          (s : WalTransactionState)
          → IsBounded in_flight w m.curr_file_number s
          → IsBounded in_flight w (next_u64 m.curr_file_number) s
      later =
          IsBounded-mono in_flight w m.curr_file_number (next_u64 m.curr_file_number)
            (omega (arith, grown))

  module _ (m m' : WalManager R) (next : Option (List (WalEvent R) × WalFileInfo))
      (small : m.curr_file_number < u64_max) (x : Extracted m m.in_mem_buf m' next) where
    pub extracted-IsTracked :
        (in_flight : Option ℕ) (w : ℕ) → IsTracked in_flight w m → IsTracked in_flight w m'
    extracted-IsTracked in_flight w v = go x
      where
        same : IsTracked in_flight w (record m { in_mem_buf = [] })
        same = record {
          current = v.current;
          streaming = v.streaming;
          main = v.main;
          shape = v.shape;
          ascending = v.ascending;
        }

        go : Extracted m m.in_mem_buf m' next → IsTracked in_flight w m'
        go (inl (_, e, _)) = subst (IsTracked in_flight w) (sym e) same
        go (inr (_, e, _)) =
            subst (IsTracked in_flight w) (sym e) (emptied-IsTracked in_flight w m small v)

    -- The next live files run up to the new current file.
    pub extracted-next :
        (w : ℕ) (kept : List WalFileInfo)
        → Numbered w kept m.curr_file_number
        → Numbered w (push_file kept (file_info next)) m'.curr_file_number
    extracted-next w kept h = go x
      where
        go :
            Extracted m m.in_mem_buf m' next
            → Numbered w (push_file kept (file_info next)) m'.curr_file_number
        go (inl (_, e, n)) = rw (e, n) h
        go (inr (_, e, n)) =
            rw (e, n, next_u64_lem m.curr_file_number small)
              (Numbered-append w m.curr_file_number kept (next_file m) h refl)

    pub extracted-live : m'.live_wal_files_tracker ≡ m.live_wal_files_tracker
    extracted-live = go x
      where
        go : Extracted m m.in_mem_buf m' next → m'.live_wal_files_tracker ≡ m.live_wal_files_tracker
        go (inl (_, e, _)) = ap (λ n. n.live_wal_files_tracker) e
        go (inr (_, e, _)) = ap (λ n. n.live_wal_files_tracker) e

    pub extracted-xacts : m'.active_transactions ≡ m.active_transactions
    extracted-xacts = go x
      where
        go : Extracted m m.in_mem_buf m' next → m'.active_transactions ≡ m.active_transactions
        go (inl (_, e, _)) = ap (λ n. n.active_transactions) e
        go (inr (_, e, _)) = ap (λ n. n.active_transactions) e

    pub extracted-table : m'.mooncake_table_id ≡ m.mooncake_table_id
    extracted-table = go x
      where
        go : Extracted m m.in_mem_buf m' next → m'.mooncake_table_id ≡ m.mooncake_table_id
        go (inl (_, e, _)) = ap (λ n. n.mooncake_table_id) e
        go (inr (_, e, _)) = ap (λ n. n.mooncake_table_id) e
