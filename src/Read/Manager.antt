-- ===== src/Read/Manager.antt =====
-- The read state manager. A table's contents at a time, the `ReadState`, is a type parameter.
use moonlink.Base.{
  ℕ, Bool, true, false, not, ◌&&◌, ◌||◌, Option, none, some, List, [], ◌∷◌, Outcome, done, panics,
  Panic, Result, ok, err, ◌>>=◌, ◌>>◌, assert, leb, ltb, ◌==◌, if◌then◌else◌,
}
use moonlink.Base.Words.{u64_max}

abbrev pub no_read_lsn : ℕ
no_read_lsn = u64_max

abbrev pub no_cache_lsn : ℕ
no_cache_lsn = u64_max

abbrev pub no_snapshot_lsn : ℕ
no_snapshot_lsn = u64_max

abbrev pub no_commit_lsn : ℕ
no_commit_lsn = 0

-- The receivers' and the table's state are outside: what they say is an argument.
pub record ReadStateManager (D : Type 0) : Type 0 where
  pub last_read_lsn : ℕ
  pub last_read_state : D

-- What the three receivers hold at a time.
pub record Lsns : Type 0 where
  pub snapshot_lsn : ℕ
  pub commit_lsn : ℕ
  pub replication_lsn : ℕ

abbrev pub new : {D : Type 0} → D → ReadStateManager D
new empty = record { last_read_lsn = no_read_lsn; last_read_state = empty }

unfoldable pub snapshot_is_clean : (snapshot_lsn commit_lsn : ℕ) → Bool
snapshot_is_clean s c =
    if (s == no_snapshot_lsn) && (c == no_commit_lsn)
    then true
    else (s == c) && not (s == no_snapshot_lsn)

unfoldable pub should_use_cache :
    (requested : Option ℕ) (cached_lsn snapshot_lsn commit_lsn : ℕ) → Bool
should_use_cache (some bound) cached s c =
    if cached == no_cache_lsn
    then false
    else (cached == s) && (leb bound cached && snapshot_is_clean s c)
should_use_cache none cached s c =
    if cached == no_cache_lsn then false else (cached == s) && snapshot_is_clean s c

-- The answer to a request, once the assertions hold.
unfoldable pub is_satisfied : (requested : Option ℕ) → Lsns → Bool
is_satisfied none e = true
is_satisfied (some n) e =
    (not (e.snapshot_lsn == no_snapshot_lsn) && leb n e.snapshot_lsn)
    || (leb n e.replication_lsn && snapshot_is_clean e.snapshot_lsn e.commit_lsn)

unfoldable pub can_satisfy_read_from_snapshot : (requested : Option ℕ) → Lsns → Outcome Bool
unfolding is_satisfied
can_satisfy_read_from_snapshot requested e = do
  if not (e.snapshot_lsn == no_snapshot_lsn) && not (e.commit_lsn == no_commit_lsn)
      then assert (leb e.snapshot_lsn e.commit_lsn)
      else done tt
  assert (leb e.commit_lsn e.replication_lsn)
  done (is_satisfied requested e)

-- The LSN up to which a newly read state is valid.
unfoldable pub effective_lsn : (last_read_lsn : ℕ) → Lsns → ℕ
effective_lsn last e =
    if last == no_read_lsn
    then e.snapshot_lsn
    else if (e.snapshot_lsn == e.commit_lsn) && ltb e.snapshot_lsn e.replication_lsn
    then e.replication_lsn
    else e.snapshot_lsn

-- Which receiver is waited on.
pub data Receiver : Type 0 where
  replication_lsn_rx table_snapshot_rx : Receiver

unfoldable pub wait_for_relevant_lsn_change : (requested_lsn current_replication_lsn : ℕ) → Receiver
wait_for_relevant_lsn_change n r = if ltb r n then replication_lsn_rx else table_snapshot_rx

-- A read of the table may fail before its files are known, or while they are resolved.
abbrev pub SnapshotRead : (D E : Type 0) → Type 0
SnapshotRead D E = Result (Result D E) E

module _ {D E : Type 0} where
  unfoldable pub store :
      ReadStateManager D → (lsn : ℕ) → SnapshotRead D E → ReadStateManager D × Result D E
  store m lsn (err e) = (m, err e)
  store m lsn (ok (err e)) = (record m { last_read_lsn = lsn }, err e)
  store m lsn (ok (ok d)) = (record { last_read_lsn = lsn; last_read_state = d }, ok d)

  unfoldable pub read_from_snapshot_and_update_cache :
      ReadStateManager D → Lsns → SnapshotRead D E → ReadStateManager D × Result D E
  unfolding store effective_lsn
  read_from_snapshot_and_update_cache m e read =
      if ltb m.last_read_lsn e.snapshot_lsn || (m.last_read_lsn == no_read_lsn)
      then store m (effective_lsn m.last_read_lsn e) read
      else (m, ok m.last_read_state)

  -- One round of the loop; `waited` is what comes after the wait.
  unfoldable pub read_round :
      ReadStateManager D
      → (requested : Option ℕ) → Lsns
      → SnapshotRead D E
      → (waited : Outcome (ReadStateManager D × Option (Result D E)))
      → Outcome (ReadStateManager D × Option (Result D E))
  read_round m requested e read waited = can_satisfy_read_from_snapshot requested e >>= λ satisfied.
      elim satisfied [
        | true ↦ done (
          (read_from_snapshot_and_update_cache m e read).0,
          some (read_from_snapshot_and_update_cache m e read).1,
        )
        | false ↦ elim requested [ none ↦ panics Panic.unwrap_failed | some _ ↦ waited ]
      ]

  -- The loop, from what the receivers hold now and what they hold after each wait. A wait fails when
  -- its sender is gone; where the list ends, the request is still waiting.
  unfoldable pub read_loop :
      ReadStateManager D
      → (requested : Option ℕ) → Lsns
      → (waits : List (Result Lsns E)) → SnapshotRead D E
      → Outcome (ReadStateManager D × Option (Result D E))
  unfolding read_round
  read_loop m requested e [] read = read_round m requested e read (done (m, none))
  read_loop m requested e (err f ∷ later) read =
      read_round m requested e read (done (m, some (err f)))
  read_loop m requested e (ok e' ∷ later) read =
      read_round m requested e read (read_loop m requested e' later read)

  -- `now` is what the receivers hold when the cache is tried.
  unfoldable pub try_read :
      ReadStateManager D
      → (requested : Option ℕ) → (now first : Lsns) (waits : List (Result Lsns E))
      → SnapshotRead D E
      → Outcome (ReadStateManager D × Option (Result D E))
  try_read m requested now first waits read =
      let rest = read_loop m requested first waits read in
      if should_use_cache requested m.last_read_lsn now.snapshot_lsn now.commit_lsn
      then done (m, some (ok m.last_read_state))
      else rest
