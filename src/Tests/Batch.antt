-- ===== src/Tests/Batch.antt =====
-- One batch of each kind.
use moonlink.Base.{◌+◌, ◌≤◌, ◌<◌, ◌≡◌, refl, Bool, true, false, [], ◌∷◌, arith, All}
use moonlink.Batch.Counter.{BatchIdCounter, new, check_limit, fetch_add, streaming_batch_id_max}
use moonlink.Batch.Ids.{Calls, begins, checks, increments, issued, Calls-issued, Calls-separate}

abbrev after : Bool → BatchIdCounter
after streaming = (fetch_add (new streaming)).1

one_call :
    (streaming : Bool) → Calls 1 streaming (after streaming) 0 ((fetch_add (new streaming)).0 ∷ [])
unfolding check_limit new
one_call true = increments (checks begins (omega arith) refl)
one_call false = increments (checks begins (omega arith) refl)

Calls-separate_example :
    All (λ i. All (λ j. i < j) ((fetch_add (new false)).0 ∷ [])) ((fetch_add (new true)).0 ∷ [])
Calls-separate_example = Calls-separate (one_call true) (one_call false)

-- Two callers check before either of them increments.
abbrev twice : BatchIdCounter
twice = (fetch_add (fetch_add (new true)).1).1

both_call : Calls 2 true twice 0 (1 ∷ 0 ∷ [])
unfolding check_limit new fetch_add
both_call = increments (increments (checks (checks begins (omega arith) refl) (omega arith) refl))

Calls-issued_example : (1 ∷ 0 ∷ [] ≡ issued 0 2) × (0 + 2 + 0 + 1 ≤ streaming_batch_id_max + 2)
Calls-issued_example = Calls-issued 2 true (omega arith) both_call
