-- ===== src/Read/Lsn.antt =====
-- The replicated LSN and who hears of it (lsn_state.rs, `LsnState`).
use moonlink.Base.{
  ℕ, ◌≤◌, ◌≡◌, refl, Bool, true, List, [], ◌∷◌, arith, ltb, if◌then◌else◌, All, ◌∙◌, ap,
}

-- `sent` is the value that the watch channel holds.
pub record LsnState : Type 0 where
  pub current : ℕ
  pub sent : ℕ

unfoldable pub new : LsnState
new = record { current = 0; sent = 0 }

-- A send without a receiver fails, and the channel keeps its value.
unfoldable pub mark : (has_receiver : Bool) (lsn : ℕ) → LsnState → LsnState
mark has_receiver lsn s =
    if ltb s.current lsn
    then record { current = lsn; sent = if has_receiver then lsn else s.sent }
    else s

abbrev pub marks : List (Bool × ℕ) → LsnState → LsnState
marks [] s = s
marks ((heard, lsn) ∷ ms) s = marks ms (mark heard lsn s)

abbrev pub highest : ℕ → List (Bool × ℕ) → ℕ
highest n [] = n
highest n ((_, lsn) ∷ ms) = highest (if ltb n lsn then lsn else n) ms

-- Somebody listens at each mark.
abbrev pub Heard : List (Bool × ℕ) → Type 0
Heard = All (λ m. m.0 ≡ true)

mark-current :
    (b : Bool) (n : ℕ) (s : LsnState)
    → (mark b n s).current ≡ (if ltb s.current n then n else s.current)
unfolding mark
mark-current b n s = ground arith

mark-sent_le :
    (b : Bool) (n : ℕ) (s : LsnState)
    → s.sent ≤ s.current
    → (mark b n s).sent ≤ (mark b n s).current
unfolding mark
mark-sent_le b n s h = ground (arith, h)

mark-heard :
    (b : Bool) (n : ℕ) (s : LsnState)
    → s.sent ≡ s.current
    → b ≡ true
    → (mark b n s).sent ≡ (mark b n s).current
unfolding mark
mark-heard b n s h t = ground (arith, h, t)

marks-from :
    (ms : List (Bool × ℕ)) (s : LsnState)
    → s.sent ≤ s.current
    → ((marks ms s).current ≡ highest s.current ms)
      × ((marks ms s).sent ≤ (marks ms s).current)
      × (s.sent ≡ s.current → Heard ms → (marks ms s).sent ≡ (marks ms s).current)
marks-from [] s h = (refl, h, λ e _. e)
marks-from ((b, n) ∷ ms) s h =
    let (cur, le, all) = marks-from ms (mark b n s) (mark-sent_le b n s h) in
    (
      cur ∙ ap (λ i. highest i ms) (mark-current b n s),
      le,
      λ e heard. all (mark-heard b n s e heard.0) heard.1,
    )

-- The state is the highest LSN that was marked. A receiver never sees a higher one, and sees that
-- one if somebody listened at each mark.
pub marks-new :
    (ms : List (Bool × ℕ))
    → ((marks ms new).current ≡ highest 0 ms)
      × ((marks ms new).sent ≤ (marks ms new).current)
      × (Heard ms → (marks ms new).sent ≡ highest 0 ms)
unfolding new
marks-new ms =
    let (cur, le, all) = marks-from ms new (omega arith) in (cur, le, λ heard. all refl heard ∙ cur)
