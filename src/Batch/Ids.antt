-- ===== src/Batch/Ids.antt =====
-- Callers of a counter at the same time.
use moonlink.Base.{
  ℕ, zero, suc, ◌+◌, ◌≤◌, ◌<◌, ◌≡◌, refl, Bool, true, false, List, [], ◌∷◌, done, assert, arith,
  ltb, length, All, Bool-cases, panics, Panic, All-map, inl, inr, sym, subst, ap, ap₂,
}
use moonlink.Base.Words.{u64_mod}
use moonlink.Batch.Counter.{
  BatchIdCounter, streaming_batch_id_max, start, limit, new, check_limit, fetch_add,
}

-- The counter, the callers that have checked it and have not incremented it, and the ids that were
-- handed out, the last first. No more than `callers` are at it at a time.
pub data Calls (callers : ℕ) (streaming : Bool)
    : BatchIdCounter → (pending : ℕ) → List ℕ → Type 0 where
  begins : Calls callers streaming (new streaming) 0 []
  checks :
      {c : BatchIdCounter} {pending : ℕ} {ids : List ℕ}
      → Calls callers streaming c pending ids
      → pending < callers
      → check_limit c ≡ done tt
      → Calls callers streaming c (suc pending) ids
  increments :
      {c : BatchIdCounter} {pending : ℕ} {ids : List ℕ}
      → Calls callers streaming c (suc pending) ids
      → Calls callers streaming (fetch_add c).1 pending ((fetch_add c).0 ∷ ids)

-- `n` ids from `first` on, the last first.
abbrev pub issued : (first n : ℕ) → List ℕ
issued first zero = []
issued first (suc n) = (first + n) ∷ issued first n

-- What holds at each time.
record Counts (callers : ℕ) (streaming : Bool) (c : BatchIdCounter) (pending : ℕ) (ids : List ℕ)
    : Type 0 where
  kind : c.is_streaming ≡ streaming
  next : c.counter ≡ start streaming + length ids
  all : ids ≡ issued (start streaming) (length ids)
  room : c.counter + pending + 1 ≤ limit streaming + callers

start-limit : (b : Bool) → start b + 1 ≤ limit b
start-limit true = omega arith
start-limit false = omega arith

done-panics : {A : Type 0} (x : A) (p : Panic) → done x ≡ panics p → ⊥
done-panics x p e = absurd (cc)

check-below : (n m : ℕ) → assert (ltb n m) ≡ done tt → n < m
check-below n m e = elim (Bool-cases (ltb n m)) [
  | inl t ↦ ground (arith, t)
  | inr f ↦ absurd (done-panics tt Panic.assertion_failed (sym (rw f at e)))
]

Calls-Counts :
    {callers : ℕ} {streaming : Bool} {c : BatchIdCounter} {pending : ℕ} {ids : List ℕ}
    → limit streaming + callers ≤ u64_mod
    → Calls callers streaming c pending ids
    → Counts callers streaming c pending ids
unfolding new check_limit fetch_add
Calls-Counts {streaming = b} h begins = record {
  kind = refl;
  next = omega arith;
  all = refl;
  room = omega (arith, start-limit b);
}
Calls-Counts {callers = n} {streaming = b} h (checks {c = c} run few test) =
    let i = Calls-Counts h run in
    let below : c.counter < limit b =
      ground (arith, check-below c.counter (limit c.is_streaming) test, ap limit i.kind) in
    record { kind = i.kind; next = i.next; all = i.all; room = omega arith }
Calls-Counts {streaming = b} h (increments {c = c} {pending = p} {ids = ids} run) =
    let i = Calls-Counts h run in
    record {
      kind = i.kind;
      next = omega (arith, i.next, i.room);
      all = ap₂ (λ x y. x ∷ y) i.next i.all;
      room = omega (arith, i.room);
    }

issued-within : (first n : ℕ) → All (λ i. (first ≤ i) × (i < first + n)) (issued first n)
issued-within first zero = tt
issued-within first (suc n) = (
  (omega arith, omega arith),
  All-map (λ i. (first ≤ i) × (i < first + n)) (λ i. (first ≤ i) × (i < first + suc n))
      (λ i h. (h.0, omega arith)) (issued first n) (issued-within first n),
)

-- If the limit and the number of callers at the same time fit 64 bits, then, however the callers' steps
-- come between each other, the ids of a counter are consecutive from its first one, and at most as
-- many as there are callers, less one, reach the limit. For the counter that is not streaming the
-- limit leaves room for one caller only.
pub Calls-issued :
    (callers : ℕ) (streaming : Bool) {c : BatchIdCounter} {pending : ℕ} {ids : List ℕ}
    → limit streaming + callers ≤ u64_mod
    → Calls callers streaming c pending ids
    → (ids ≡ issued (start streaming) (length ids))
      × (start streaming + length ids + pending + 1 ≤ limit streaming + callers)
Calls-issued callers streaming h run =
    let i = Calls-Counts h run in (i.all, omega (arith, i.next, i.room))

-- With one caller at a time the ids of the streaming counter are below those of the other one.
pub Calls-separate :
    {c c' : BatchIdCounter} {pending pending' : ℕ} {ids ids' : List ℕ}
    → Calls 1 true c pending ids
    → Calls 1 false c' pending' ids'
    → All (λ i. All (λ j. i < j) ids') ids
Calls-separate {ids = ids} {ids' = ids'} run run' =
    let (all, room) = Calls-issued 1 true (omega arith) run in
    let (all', room') = Calls-issued 1 false (omega arith) run' in
    let low : All (λ i. i < streaming_batch_id_max) ids =
      subst (All (λ i. i < streaming_batch_id_max)) (sym all) (
        All-map (λ i. (0 ≤ i) × (i < 0 + length ids)) (λ i. i < streaming_batch_id_max)
          (λ i h. omega (arith, h.1, room)) (issued 0 (length ids))
          (issued-within 0 (length ids))) in
    let high : All (λ j. streaming_batch_id_max ≤ j) ids' =
      subst (All (λ j. streaming_batch_id_max ≤ j)) (sym all') (
        All-map (λ j. (streaming_batch_id_max ≤ j) × (j < streaming_batch_id_max + length ids'))
          (λ j. streaming_batch_id_max ≤ j) (λ j h. h.0)
          (issued streaming_batch_id_max (length ids'))
          (issued-within streaming_batch_id_max (length ids'))) in
    All-map (λ i. i < streaming_batch_id_max) (λ i. All (λ j. i < j) ids')
      (λ i l. All-map (λ j. streaming_batch_id_max ≤ j) (λ j. i < j) (λ j h. omega arith) ids' high)
      ids low
