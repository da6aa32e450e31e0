-- ===== src/Handler/Discard.antt =====
-- Which events a recovered table handler drops.
use moonlink.Base.{
  ℕ, ◌≤◌, ◌≡◌, refl, ◌↔◌, true, false, Option, none, if◌then◌else◌, some, arith, leb, sym, ◌∙◌,
  Option-cases, Bool-cases, inl, inr,
}
use mathlib.Core.Option.{some-injective}
use mathlib.Core.Bool.{false≢true}
use moonlink.Event.{TableEvent, is_streaming_update, get_lsn_for_ingest_event}
use moonlink.Handler.State.{TableHandlerState}
use moonlink.Handler.Lsns.{discards_from, should_discard_event}

-- An event that is not of a streaming transaction and whose LSN is at most the LSN from which the
-- handler starts.
abbrev IsSeen : {R P E : Type 0} → Option ℕ → TableEvent R P E → Type 0
IsSeen initial event =
    (from : ℕ) × (lsn : ℕ) × (initial ≡ some from)
    × (is_streaming_update event ≡ false)
    × (get_lsn_for_ingest_event event ≡ some lsn)
    × (lsn ≤ from)

-- The LSN of an event that belongs to the main transaction: an append, a delete, a commit or a commit
-- with a flush that names no streaming transaction.
abbrev pub main_lsn : {R P E : Type 0} → TableEvent R P E → Option ℕ
main_lsn (TableEvent.append _ none lsn _) = some lsn
main_lsn (TableEvent.delete _ lsn none _ _) = some lsn
main_lsn (TableEvent.commit lsn none _) = some lsn
main_lsn (TableEvent.commit_flush lsn none _) = some lsn
main_lsn _ = none

abbrev seen_lsn : {R P E : Type 0} → TableEvent R P E → Option ℕ
seen_lsn event = if is_streaming_update event then none else get_lsn_for_ingest_event event

seen_lsn-main : {R P E : Type 0} (event : TableEvent R P E) → seen_lsn event ≡ main_lsn event
unfolding is_streaming_update get_lsn_for_ingest_event
seen_lsn-main (TableEvent.append _ none _ _) = refl
seen_lsn-main (TableEvent.append _ (some _) _ _) = refl
seen_lsn-main (TableEvent.delete _ _ none _ _) = refl
seen_lsn-main (TableEvent.delete _ _ (some _) _ _) = refl
seen_lsn-main (TableEvent.commit _ none _) = refl
seen_lsn-main (TableEvent.commit _ (some _) _) = refl
seen_lsn-main (TableEvent.commit_flush _ none _) = refl
seen_lsn-main (TableEvent.commit_flush _ (some _) _) = refl
seen_lsn-main _ = refl

seen_lsn-some :
    {R P E : Type 0} (event : TableEvent R P E) (lsn : ℕ)
    → seen_lsn event ≡ some lsn
    → (is_streaming_update event ≡ false) × (get_lsn_for_ingest_event event ≡ some lsn)
seen_lsn-some event lsn h = elim (Bool-cases (is_streaming_update event)) [
  | inl e ↦ absurd (none-some lsn (rw e at h))
  | inr e ↦ (e, rw e at h)
]
  where
    none-some : (n : ℕ) → none ≡ some n → ⊥
    none-some n e = cc

module _ {R P E : Type 0} where
  discards_from-IsSeen :
      (from : ℕ) (event : TableEvent R P E)
      → discards_from from event ≡ true
      → IsSeen (some from) event
  unfolding discards_from
  discards_from-IsSeen from event h = elim (Bool-cases (is_streaming_update event)) [
    | inl e ↦ absurd (false≢true (rw (e, discards_from) at h))
    | inr e ↦ elim (Option-cases (get_lsn_for_ingest_event event)) [
      | inl n ↦ absurd (false≢true (rw (e, n, discards_from) at h))
      | inr (lsn, n) ↦
          let l : leb lsn from ≡ true = rw (e, n, discards_from) at h in
          (from, lsn, refl, e, n, ground (arith, l))
    ]
  ]

  discards_from-seen :
      (from lsn : ℕ) (event : TableEvent R P E)
      → is_streaming_update event ≡ false
      → get_lsn_for_ingest_event event ≡ some lsn
      → lsn ≤ from
      → discards_from from event ≡ true
  unfolding discards_from
  discards_from-seen from lsn event e n l =
      let within : leb lsn from ≡ true = ground arith in rw (e, n, discards_from) within

module _ {Q V R P E : Type 0} where
  should_discard_event-IsSeen :
      (s : TableHandlerState Q V) (event : TableEvent R P E)
      → (should_discard_event s event ≡ true) ↔ IsSeen s.initial_persistence_lsn event
  unfolding should_discard_event
  should_discard_event-IsSeen s event = elim (Option-cases s.initial_persistence_lsn) [
    | inl none_yet ↦
        (λ h. absurd (false≢true (rw (none_yet, should_discard_event) at h)), λ seen. absurd (cc))
    | inr (from, e) ↦ (
      λ h.
          let (f, lsn, same, streaming, n, l) =
            discards_from-IsSeen from event (rw (e, should_discard_event) at h) in
          (f, lsn, e ∙ same, streaming, n, l),
      λ seen.
          let (f, lsn, same, streaming, n, l) = seen in
          rw (e, should_discard_event)
            (discards_from-seen from lsn event streaming n
              (omega (arith, some-injective f from (sym same ∙ e)))),
    )
  ]

  -- An event is discarded exactly when the handler has an LSN to start from and the event is an
  -- append, a delete, a commit or a commit with a flush of the main transaction, at that LSN or
  -- before it. No event of a streaming transaction and no other event is discarded.
  pub should_discard_event_iff :
      (s : TableHandlerState Q V) (event : TableEvent R P E)
      → (should_discard_event s event ≡ true) ↔ (
          (from : ℕ) × (lsn : ℕ) × (s.initial_persistence_lsn ≡ some from)
          × (main_lsn event ≡ some lsn)
          × (lsn ≤ from))
  should_discard_event_iff s event =
      let (to, back) = should_discard_event-IsSeen s event in
      (
        λ h.
            let (from, lsn, e, streaming, n, l) = to h in
            let seen : seen_lsn event ≡ some lsn = rw streaming n in
            (from, lsn, e, sym (seen_lsn-main event) ∙ seen, l),
        λ h.
            let (from, lsn, e, n, l) = h in
            let seen : seen_lsn event ≡ some lsn = seen_lsn-main event ∙ n in
            let (streaming, at) = seen_lsn-some event lsn seen in
            back (from, lsn, e, streaming, at, l),
      )
