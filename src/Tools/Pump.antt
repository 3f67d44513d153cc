-- ===== src/Tools/Pump.antt =====
-- The loop of serve_request (app/tool_broker.c) that collects what a tool writes to its output and
-- to its errors.
pub mod Kept
pub mod Completes
pub mod Collected
use whitenoise_linux.Base.Results.{enomem, efbig, etimedout}
use whitenoise_linux.Base.{
  ℕ, zero, suc, ◌+◌, ◌-◌, ◌*◌, ◌^◌, ◌≤◌, ◌<◌, min, List, [], ◌∷◌, ◌++◌, Bytes, Bool, true, false,
  not, Option, none, some, ltb, ◌==◌, ◌&&◌, ◌||◌, if◌then◌else◌, length, take, drop, ◌≡◌, refl, sym,
  ap, ◌∙◌, arith, inl, inr, Bool-cases, ◌⊎◌, append_assoc, append-nil, length-append, length-take,
  take-append-drop, subst,
}
use whitenoise_linux.Tools.Request.{output_limit}

-- One of the two pipes: whether the broker's end is open (`fd >= 0`), what the tool is still to write
-- to it, buffers[i] up to lengths[i], and capacities[i].
pub record Pipe : Type 0 where
  pub is_open : Bool
  pub pending : Bytes
  pub buffer : Bytes
  pub capacity : ℕ

-- An errno, which is not 0.
abbrev pub errno : ℕ → ℕ
errno k = k + 1

-- What read answers: at most `k + 1` bytes (none when the tool has closed its end), or EINTR, or
-- another error.
pub data Call : Type 0 where
  got : ℕ → Call
  interrupted : Call
  failed : ℕ → Call

-- A pipe that poll has reported: whether realloc gives memory, should it be called, and read's answer.
pub record Report : Type 0 where
  pub grows : Bool
  pub call : Call

pub data Poll : Type 0 where
  poll_interrupted : Poll
  timed_out : Poll
  poll_failed : ℕ → Poll
  ready : Option Report → Option Report → Poll

-- read and what becomes of its answer: the pipe, and `failed`.
unfoldable pub read_bytes : Pipe → ℕ → Bytes → Pipe × ℕ
read_bytes p k [] = (record p { is_open = false }, 0)
read_bytes p k (b ∷ rest) =
    let available = p.capacity - length p.buffer in
    if available == 0
    then (record p { pending = rest }, efbig)
    else let count = min k (min (available - 1) (length rest)) in
      (record p { buffer = p.buffer ++ b ∷ take count rest; pending = drop count rest }, 0)

unfoldable pub read_pipe : Pipe → Call → Pipe × ℕ
unfolding read_bytes
read_pipe p (got k) = read_bytes p k p.pending
read_pipe p interrupted = (p, 0)
read_pipe p (failed k) = (p, errno k)

abbrev pub first_capacity : ℕ
first_capacity = 8192

abbrev pub next_capacity : ℕ → ℕ
next_capacity c = if c == 0 then first_capacity else c * 2

-- One round of the inner loop.
unfoldable pub visit : Pipe → Option Report → Pipe × ℕ
unfolding read_pipe
visit p none = (p, 0)
visit p (some r) =
    if not p.is_open
    then (p, 0)
    else if length p.buffer == p.capacity && ltb p.capacity output_limit
    then if r.grows
      then read_pipe (record p { capacity = next_capacity p.capacity }) r.call
      else (p, enomem)
    else read_pipe p r.call

-- How a turn of the loop leaves it: it goes on, or it is over with `failed` and both pipes.
pub data Turned : Type 0 where
  going : Pipe → Pipe → Turned
  over : ℕ → Pipe → Pipe → Turned

unfoldable pub poll_turn : Pipe → Pipe → Poll → Turned
unfolding visit
poll_turn a b poll_interrupted = going a b
poll_turn a b timed_out = over etimedout a b
poll_turn a b (poll_failed k) = over (errno k) a b
poll_turn a b (ready x y) =
    let (a', e) = visit a x in
    let (b', f) = visit b y in
    if not (e == 0) then over e a' b else if not (f == 0) then over f a' b' else going a' b'

abbrev pub next_turn : Turned → (Pipe → Pipe → Turned) → Turned
next_turn (going a b) rest = rest a b
next_turn (over e a b) rest = over e a b

-- The loop, over what poll and read answer. When the answers end, it waits.
unfoldable pub pump : List Poll → Pipe → Pipe → Turned
unfolding poll_turn
pump [] a b = if not (a.is_open || b.is_open) then over 0 a b else going a b
pump (t ∷ polls) a b =
    if not (a.is_open || b.is_open) then over 0 a b else next_turn (poll_turn a b t) (pump polls)

-- A pipe of which nothing is read yet.
abbrev pub new_pipe : Bytes → Pipe
new_pipe whole = record { is_open = true; pending = whole; buffer = []; capacity = 0 }

-- Nothing, or a power of two that goes into the limit.
abbrev pub IsCapacity : ℕ → Type 0
IsCapacity c = (c ≡ 0) ⊎ ((j : ℕ) × (c * 2 ^ j ≡ output_limit))

-- What is kept of the `whole` that a tool writes: its front, inside the buffer and the limit.
pub record IsKept (whole : Bytes) (p : Pipe) : Type 0 where
  pub front : (left : Bytes) × (p.buffer ++ left ≡ whole)
  pub room : length p.buffer ≤ p.capacity
  pub limited : p.capacity ≤ output_limit

-- Between two turns nothing is lost, and a closed pipe is read to its end.
pub record IsPipe (whole : Bytes) (p : Pipe) : Type 0 where
  pub all : p.buffer ++ p.pending ≡ whole
  pub room : length p.buffer ≤ p.capacity
  pub grown : IsCapacity p.capacity
  pub finished : p.is_open ≡ false → p.pending ≡ []
