-- ===== src/Helpers/Channel.antt =====
-- How descriptors reach the launcher (app/helper_broker.c): send_channel and receive_channel.
pub mod Closed
pub mod Wanted
pub mod Sent
use whitenoise_linux.Base.{
  ℕ, zero, suc, ◌+◌, ◌/◌, ◌%◌, ◌*◌, List, [], ◌∷◌, ◌++◌, Bool, true, false, not, Option, none, some,
  ltb, ◌==◌, ◌&&◌, ◌||◌, if◌then◌else◌, length, ◌≡◌, refl,
}

-- One control message: whether it carries rights, the whole descriptors in it, and whether bytes are
-- left behind them.
pub record Header : Type 0 where
  pub is_rights : Bool
  pub descriptors : List ℕ
  pub partial : Bool

-- What recvmsg answers: EINTR, another error, 0 at the end of the stream, or bytes (so many more than
-- one) with the mask in the first, whether the message was truncated, and its control messages.
pub data Received : Type 0 where
  interrupted : Received
  failed : Received
  end_of_stream : Received
  got : ℕ → ℕ → Bool → List Header → Received

-- descriptors[0..count], the descriptors that have been closed, and `invalid`.
pub record Collected : Type 0 where
  pub kept : List ℕ
  pub closed : List ℕ
  pub invalid : Bool

-- The body of the inner loop: the array has four places.
unfoldable pub collect_descriptor : Collected → ℕ → Collected
collect_descriptor s fd =
    if length s.kept == 4
    then record s { closed = s.closed ++ fd ∷ []; invalid = true }
    else record s { kept = s.kept ++ fd ∷ [] }

unfoldable pub collect_descriptors : Collected → List ℕ → Collected
unfolding collect_descriptor
collect_descriptors s [] = s
collect_descriptors s (fd ∷ fds) = collect_descriptors (collect_descriptor s fd) fds

unfoldable pub collect_header : Collected → Header → Collected
collect_header s h =
    if h.is_rights
    then collect_descriptors (record s { invalid = s.invalid || h.partial }) h.descriptors
    else record s { invalid = true }

unfoldable pub collect : Collected → List Header → Collected
unfolding collect_header
collect s [] = s
collect s (h ∷ hs) = collect (collect_header s h) hs

abbrev pub bit : ℕ → ℕ → ℕ
bit mask fd = if fd == 0 then mask % 2 else if fd == 1 then mask / 2 % 2 else mask / 4 % 2

-- The descriptors that a mask announces: the channel, and those of 0 to 2 that it names.
abbrev pub wanted : ℕ → ℕ
wanted mask = 1 + bit mask 0 + bit mask 1 + bit mask 2

-- Behind the loop that moves the descriptors above 9: the new ones, those closed, and `invalid`.
pub record Moved : Type 0 where
  pub descriptors : List ℕ
  pub closed : List ℕ
  pub invalid : Bool

-- fcntl(fd, F_DUPFD_CLOEXEC, 10): the new descriptor, or `none`.
abbrev pub Duplicate : Type 0
Duplicate = ℕ → Option ℕ

-- One round: the old descriptor is closed in any case.
abbrev pub moved_one : ℕ → Option ℕ → Moved → Moved
moved_one fd none rest = record {
  descriptors = rest.descriptors;
  closed = fd ∷ rest.closed;
  invalid = true;
}
moved_one fd (some new) rest = record rest {
  descriptors = new ∷ rest.descriptors;
  closed = fd ∷ rest.closed;
}

-- The other rounds start with the `invalid` that this one leaves.
abbrev pub next_move : ℕ → Option ℕ → (Bool → Moved) → Moved
next_move fd none rest = moved_one fd none (rest true)
next_move fd (some new) rest = moved_one fd (some new) (rest false)

unfoldable pub move : Duplicate → Bool → List ℕ → Moved
move duplicate invalid [] = record { descriptors = []; closed = []; invalid = invalid }
move duplicate true (fd ∷ fds) = moved_one fd none (move duplicate true fds)
move duplicate false (fd ∷ fds) = next_move fd (duplicate fd) (λ b. move duplicate b fds)

-- What receive_channel returns (`none` for -1), the descriptors that it hands on, those that it has
-- opened and those that it has closed.
pub record Taken : Type 0 where
  pub result : Option ℕ
  pub descriptors : List ℕ
  pub opened : List ℕ
  pub closed : List ℕ

abbrev nothing : Option ℕ → Taken
nothing result = record { result = result; descriptors = []; opened = []; closed = [] }

-- The end of receive_channel.
unfoldable pub taken : List ℕ → Moved → Taken
taken closed m =
    if m.invalid
    then record {
      result = some 0;
      descriptors = [];
      opened = m.descriptors;
      closed = closed ++ (m.closed ++ m.descriptors);
    }
    else record {
      result = some (length m.descriptors);
      descriptors = m.descriptors;
      opened = m.descriptors;
      closed = closed ++ m.closed;
    }

-- What is known before the control messages are read.
abbrev pub first_collected : ℕ → ℕ → Bool → Collected
first_collected more mask truncated = record {
  kept = [];
  closed = [];
  invalid = not (more == 0) || truncated || ltb 7 mask;
}

unfoldable pub receive_channel : Duplicate → Received → Taken
unfolding collect move taken
receive_channel duplicate interrupted = nothing (some 0)
receive_channel duplicate failed = nothing none
receive_channel duplicate end_of_stream = nothing none
receive_channel duplicate (got more mask truncated headers) =
    let s = collect (first_collected more mask truncated) headers in
    taken s.closed (move duplicate (s.invalid || not (length s.kept == wanted mask)) s.kept)

-- What fcntl(fd, F_GETFD) answers for one of the descriptors 0 to 2.
pub data Flags : Type 0 where
  is_open : Flags
  is_bad : Flags
  other_error : Flags

-- The loop of send_channel, from `fd` on, whose bit in the mask is `weight`: the descriptors and the
-- mask that it adds, or `none` for -1.
abbrev pub announced : Flags → ℕ → ℕ → Option (List ℕ × ℕ) → Option (List ℕ × ℕ)
announced other_error fd weight rest = none
announced is_bad fd weight rest = rest
announced is_open fd weight none = none
announced is_open fd weight (some (fds, mask)) = some (fd ∷ fds, weight + mask)

unfoldable pub standard : Flags → Flags → Flags → Option (List ℕ × ℕ)
standard zeroth first second =
    announced zeroth 0 1 (announced first 1 2 (announced second 2 4 (some ([], 0))))

-- The message of send_channel: the descriptors, the channel first, and the byte that goes with them.
unfoldable pub message_of : ℕ → Option (List ℕ × ℕ) → Option (List ℕ × ℕ)
message_of channel none = none
message_of channel (some (fds, mask)) = some (channel ∷ fds, mask)

unfoldable pub send_channel : ℕ → Flags → Flags → Flags → Option (List ℕ × ℕ)
unfolding standard message_of
send_channel channel zeroth first second = message_of channel (standard zeroth first second)
