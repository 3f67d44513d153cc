-- ===== src/Decoder/Transfer/Deadline.antt =====
-- The deadline of decoder_transfer of app/decoder_ipc.c ends its loop.
use whitenoise_linux.Base.{ℕ, ◌+◌, ◌≤◌, List, [], ◌∷◌, none, some, ◌≡◌, ◌⊎◌}
use whitenoise_linux.Decoder.Transfer.{Round, Request, Transfer, poll_timeout}

-- A turn at or after the deadline, or one in which the clock cannot be read.
abbrev pub IsLate : Request → Round → Type 0
IsLate q r = (r.now ≡ none) ⊎ ((now : ℕ) × (r.now ≡ some now) × (q.deadline ≤ now))

-- Turns on a clock that stands at `now` in front of them: a turn waits no longer than poll may (it
-- waits in poll, or for one millisecond before it asks for the helper's end), and the clock goes on by
-- what it waits; the other calls take no time.
abbrev pub OnClock : Request → ℕ → List Round → Type 0
OnClock q now [] = Unit
OnClock q now (r ∷ rs) =
    (r.now ≡ some now)
    × ((timeout : ℕ) → r.spends timeout ≤ timeout)
    × OnClock q (now + r.spends (poll_timeout q now)) rs

-- The clock of the turn stands at the deadline at most.
abbrev pub InTime : Request → Round → Type 0
InTime q r = (now : ℕ) × (r.now ≡ some now) × (now ≤ q.deadline)
