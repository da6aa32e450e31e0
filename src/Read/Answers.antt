-- ===== src/Read/Answers.antt =====
-- Reads of a table, from its cache or from its snapshot (read_state_manager.rs, `try_read`).
use moonlink.Base.{
  ℕ, ◌≤◌, ◌≡◌, ◌≢◌, refl, inl, inr, true, false, ◌||◌, Option, none, some, List, [], ◌∷◌, Outcome,
  done, Result, ok, err, arith, ltb, ◌==◌, Bool-cases, sym, ap, subst, ◌∙◌,
}
use mathlib.Core.Option.{some-injective}
use moonlink.Read.Manager.{
  ReadStateManager, Lsns, no_read_lsn, should_use_cache, is_satisfied, effective_lsn, SnapshotRead,
  store, read_from_snapshot_and_update_cache, read_round, read_loop, try_read,
}
use moonlink.Read.Fresh.{
  AtLeast, Fresh, Observed, Reads, Resolves, Covered, Covered-AtLeast, is_satisfied-Covered,
  effective_lsn-Fresh, can_satisfy-done,
}

err-ok : {D E : Type 0} (f : E) (d : D) → err f ≡ ok d → ⊥
err-ok f d e = absurd (cc)

ok-injective : {D E : Type 0} (d d' : D) → ◌≡◌ {A = Result D E} (ok d) (ok d') → d ≡ d'
ok-injective d d' e = cc

should_use_cache-newer :
    (n cached s c : ℕ)
    → should_use_cache (some n) cached s c ≡ true
    → (n ≤ cached) × (cached ≢ no_read_lsn)
unfolding should_use_cache
should_use_cache-newer n cached s c h = ground (arith, h)

module _ {D E : Type 0} (contents : ℕ → D) where
  -- A result for a request of LSN `n`.
  abbrev Sound : ℕ → Result D E → Type 0
  Sound n (ok d) = AtLeast contents n d
  Sound n (err f) = Unit

  store-Fresh :
      (m : ReadStateManager D) (e : Lsns) (read : SnapshotRead D E)
      → Fresh contents m
      → Observed contents e
      → Reads contents e read
      → Resolves contents read
      → Fresh contents (store m (effective_lsn m.last_read_lsn e) read).0
  unfolding store
  store-Fresh m e (err f) fresh o r files = fresh
  store-Fresh m e (ok (err f)) fresh o r files = elim files [ ]
  store-Fresh m e (ok (ok d)) fresh o (l, later, same) files =
      effective_lsn-Fresh contents m.last_read_lsn e l d o later same

  store-Sound :
      (n : ℕ) (m : ReadStateManager D) (e : Lsns) (lsn : ℕ) (read : SnapshotRead D E)
      → Observed contents e
      → Reads contents e read
      → Covered contents n e
      → Sound n (store m lsn read).1
  unfolding store
  store-Sound n m e lsn (err f) o r covered = tt
  store-Sound n m e lsn (ok (err f)) o r covered = tt
  store-Sound n m e lsn (ok (ok d)) o (l, later, same) covered =
      Covered-AtLeast contents n e l d covered o later same

  read_from_snapshot_and_update_cache-Fresh :
      (m : ReadStateManager D) (e : Lsns) (read : SnapshotRead D E)
      → Fresh contents m
      → Observed contents e
      → Reads contents e read
      → (Resolves contents read → Fresh contents (read_from_snapshot_and_update_cache m e read).0)
        × ((n : ℕ)
            → Covered contents n e
            → Sound n (read_from_snapshot_and_update_cache m e read).1)
  unfolding read_from_snapshot_and_update_cache
  read_from_snapshot_and_update_cache-Fresh m e read fresh o r =
      elim (Bool-cases (ltb m.last_read_lsn e.snapshot_lsn || (m.last_read_lsn == no_read_lsn))) [
        | inl t ↦ (
          rw t (store-Fresh m e read fresh o r),
          λ n. rw t (store-Sound n m e (effective_lsn m.last_read_lsn e) read o r),
        )
        | inr f ↦
            let known : m.last_read_lsn ≢ no_read_lsn = ground (arith, f) in
            let newer : e.snapshot_lsn ≤ m.last_read_lsn = ground (arith, f) in
            (rw f (λ files. fresh), λ n. rw f (cached n known newer fresh))
      ]
    where
      cached :
          (n : ℕ)
          → m.last_read_lsn ≢ no_read_lsn
          → e.snapshot_lsn ≤ m.last_read_lsn
          → Fresh contents m
          → Covered contents n e
          → AtLeast contents n m.last_read_state
      cached n known newer (inl unread) covered = absurd (known unread)
      cached n known newer (inr (l, h, same)) covered =
          Covered-AtLeast contents n e l m.last_read_state covered o (inr (omega arith)) same

  -- The result, where there is one, is as new as was asked for, and the cache stays fresh if the
  -- files of the table that was read were found.
  abbrev pub Answered :
      Option ℕ → SnapshotRead D E → Outcome (ReadStateManager D × Option (Result D E)) → Type 0
  Answered requested read x =
      (m : ReadStateManager D) × (answer : Option (Result D E)) × (x ≡ done (m, answer))
      × (Resolves contents read → Fresh contents m)
      × ((n : ℕ) (d : D) → requested ≡ some n → answer ≡ some (ok d) → AtLeast contents n d)

  Sound-ok : (n : ℕ) (r : Result D E) (d : D) → Sound n r → r ≡ ok d → AtLeast contents n d
  Sound-ok n (ok d') d s e = subst (λ x. AtLeast contents n x) (ok-injective d' d e) s
  Sound-ok n (err f) d s e = absurd (cc)

  read_round-waits :
      (m : ReadStateManager D) (requested : Option ℕ) (e : Lsns) (read : SnapshotRead D E)
      (waited : Outcome (ReadStateManager D × Option (Result D E)))
      → Observed contents e
      → is_satisfied requested e ≡ false
      → read_round m requested e read waited ≡ waited
  unfolding read_round is_satisfied
  read_round-waits m none e read waited o f = absurd (cc)
  read_round-waits m (some n) e read waited o f =
      rw (can_satisfy-done contents (some n) e o, read_round, f) refl

  read_round-Answered :
      (m : ReadStateManager D) (requested : Option ℕ) (e : Lsns) (read : SnapshotRead D E)
      (waited : Outcome (ReadStateManager D × Option (Result D E)))
      → Fresh contents m
      → Observed contents e
      → Reads contents e read
      → Answered requested read waited
      → Answered requested read (read_round m requested e read waited)
  unfolding read_round
  read_round-Answered m requested e read waited fresh o r w =
      elim (Bool-cases (is_satisfied requested e)) [
        | inl t ↦
            let (kept, sound) = read_from_snapshot_and_update_cache-Fresh m e read fresh o r in
            (
              (read_from_snapshot_and_update_cache m e read).0,
              some (read_from_snapshot_and_update_cache m e read).1,
              rw (can_satisfy-done contents requested e o, read_round, t) refl,
              kept,
              λ n d asked same.
                  Sound-ok n (read_from_snapshot_and_update_cache m e read).1 d
                    (sound n (
                      is_satisfied-Covered contents n e
                        (ap (λ q. is_satisfied q e) (sym asked) ∙ t)))
                    (some-injective (read_from_snapshot_and_update_cache m e read).1 (ok d) same),
            )
        | inr f ↦
            subst (Answered requested read) (sym (read_round-waits m requested e read waited o f)) w
      ]

  -- What the receivers hold after the waits.
  abbrev pub Waits : SnapshotRead D E → List (Result Lsns E) → Type 0
  Waits read [] = Unit
  Waits read (err f ∷ later) = Waits read later
  Waits read (ok e ∷ later) = Observed contents e × Reads contents e read × Waits read later

  read_loop-Answered :
      (m : ReadStateManager D) (requested : Option ℕ) (e : Lsns) (waits : List (Result Lsns E))
      (read : SnapshotRead D E)
      → Fresh contents m
      → Observed contents e
      → Reads contents e read
      → Waits read waits
      → Answered requested read (read_loop m requested e waits read)
  unfolding read_loop
  read_loop-Answered m requested e [] read fresh o r w =
      read_round-Answered m requested e read (done (m, none)) fresh o r
        (m, none, refl, (λ _. fresh), λ n d asked same. absurd (cc))
  read_loop-Answered m requested e (err f ∷ later) read fresh o r w =
      read_round-Answered m requested e read (done (m, some (err f))) fresh o r (
        m,
        some (err f),
        refl,
        (λ _. fresh),
        λ n d asked same. absurd (err-ok f d (some-injective (err f) (ok d) same)),
      )
  read_loop-Answered m requested e (ok e' ∷ later) read fresh o r (o', r', w) =
      read_round-Answered m requested e read (read_loop m requested e' later read) fresh o r
        (read_loop-Answered m requested e' later read fresh o' r' w)

  -- A request fails no assertion, if the LSNs that the receivers hold are in order, nothing was
  -- committed between the last commit and the replication, and a read of the table is as new as its
  -- snapshot. What it returns holds all commits up to the LSN that was asked
  -- for, if there was one, and the cache stays as new as its LSN if the files of what was read are
  -- found.
  pub try_read-Answered :
      (m : ReadStateManager D) (requested : Option ℕ) (now first : Lsns)
      (waits : List (Result Lsns E)) (read : SnapshotRead D E)
      → Fresh contents m
      → Observed contents first
      → Reads contents first read
      → Waits read waits
      → Answered requested read (try_read m requested now first waits read)
  unfolding try_read
  try_read-Answered m requested now first waits read fresh o r w =
      elim (Bool-cases
        (should_use_cache requested m.last_read_lsn now.snapshot_lsn now.commit_lsn)) [
          | inr f ↦ rw f (read_loop-Answered m requested first waits read fresh o r w)
          | inl t ↦ rw t (
            m,
            some (ok m.last_read_state),
            refl,
            (λ _. fresh),
            λ n d asked same.
                let (le, known) =
                  should_use_cache-newer n m.last_read_lsn now.snapshot_lsn now.commit_lsn (
                    ap (λ q. should_use_cache q m.last_read_lsn now.snapshot_lsn now.commit_lsn)
                      (sym asked)
                    ∙ t) in
                subst (λ x. AtLeast contents n x)
                  (ok-injective m.last_read_state d
                    (some-injective (ok m.last_read_state) (ok d) same))
                  (cached n le known fresh),
          )
        ]
    where
      cached :
          (n : ℕ)
          → n ≤ m.last_read_lsn
          → m.last_read_lsn ≢ no_read_lsn
          → Fresh contents m
          → AtLeast contents n m.last_read_state
      cached n le known (inl unread) = absurd (known unread)
      cached n le known (inr (l, h, same)) = (l, omega arith, same)
