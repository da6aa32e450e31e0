-- ===== src/Batch/Counter.antt =====
-- `BatchIdCounter`. `get_and_next` reads the counter for its check and then increments it, in two
-- atomic steps; another caller's may come between.
use moonlink.Base.{ℕ, ◌+◌, ◌%◌, Bool, true, false, Outcome, done, ◌>>◌, assert, ltb}
use moonlink.Base.Words.{u64_max, u64_mod}

abbrev pub streaming_batch_id_max : ℕ
streaming_batch_id_max = 9223372036854775808

pub record BatchIdCounter : Type 0 where
  pub counter : ℕ
  pub is_streaming : Bool

abbrev pub start : Bool → ℕ
start true = 0
start false = streaming_batch_id_max

unfoldable pub new : (is_streaming : Bool) → BatchIdCounter
new is_streaming = record { counter = start is_streaming; is_streaming = is_streaming }

-- The number that an id has to be below.
abbrev pub limit : Bool → ℕ
limit true = streaming_batch_id_max
limit false = u64_max

unfoldable pub check_limit : BatchIdCounter → Outcome (Unit {0})
check_limit c = assert (ltb c.counter (limit c.is_streaming))

-- `AtomicU64::fetch_add`, which wraps around.
unfoldable pub fetch_add : BatchIdCounter → ℕ × BatchIdCounter
fetch_add c = (c.counter, record c { counter = (c.counter + 1) % u64_mod })

unfoldable pub get_and_next : BatchIdCounter → Outcome (ℕ × BatchIdCounter)
get_and_next c = check_limit c >> done (fetch_add c)
