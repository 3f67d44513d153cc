-- ===== src/WebSocket/Query.antt =====
-- ws_query of app/ws_shim.c: the address, the upgrade, and the loop over the messages.
use whitenoise_linux.Base.{
  ℕ, zero, suc, ◌+◌, ◌-◌, List, [], ◌∷◌, ◌++◌, Bytes, Bool, false, not, ◌&&◌, ◌||◌, Option, none,
  some, leb, ◌==◌, if◌then◌else◌, codes, same_bytes, length, take,
}
use whitenoise_linux.WebSocket.Socket.{Event}
use whitenoise_linux.WebSocket.Frame.{closed, message, unfinished, recv_message}

-- enum ws_result_format
pub data Format : Type 0 where
  single_event event_lines : Format

abbrev pub is_space : ℕ → Bool
is_space c = c == 32 || c == 9 || c == 13 || c == 10

-- A byte that is dropped, and the state behind a byte: inside a string, and behind a backslash.
abbrev pub dropped : Bool → ℕ → Bool
dropped quoted c = not quoted && is_space c

abbrev pub next_quoted : Bool → Bool → ℕ → Bool
next_quoted quoted escaped c =
    if escaped || (quoted && c == 92) then quoted else if c == 34 then not quoted else quoted

abbrev pub next_escaped : Bool → Bool → ℕ → Bool
next_escaped quoted escaped c = not escaped && quoted && c == 92

-- ws_compact_json behind the bytes already read: `quoted` and `escaped` are its state.
unfoldable pub compact : Bool → Bool → Bytes → Bytes
compact quoted escaped [] = []
compact quoted escaped (c ∷ cs) =
    let skip = dropped quoted c in
    let rest =
      compact (if skip then quoted else next_quoted quoted escaped c)
        (if skip then escaped else next_escaped quoted escaped c) cs in
    if skip then rest else c ∷ rest

unfoldable pub ws_compact_json : Bytes → Bytes
ws_compact_json m = compact false false m

-- strncmp(message, prefix, strlen(prefix)) == 0, on a message that is as long.
unfoldable pub starts_with : Bytes → Bytes → Bool
starts_with prefix m = same_bytes (take (length prefix) m) prefix

abbrev pub event_mark : Bytes
event_mark = codes "[\"EVENT\""

abbrev pub eose_mark : Bytes
eose_mark = codes "[\"EOSE\""

abbrev pub closed_mark : Bytes
closed_mark = codes "[\"CLOSED\""

-- The end of a query: its result, where `none` is -1, and the first `used` bytes of the buffer, or
-- the message for a single event; `running` if the turns allowed are not enough.
pub data Fetched : Type 0 where
  fetched : Option ℕ → Bytes → Fetched
  running : Fetched

-- What the code compares and keeps of a message.
abbrev pub as_line : Format → Bytes → Bytes
as_line single_event m = m
as_line event_lines m = ws_compact_json m

-- The room for a message; `none` where the loop ends before it reads.
abbrev pub room : Format → ℕ → ℕ → Option ℕ
room single_event capacity used = some (capacity - used)
room event_lines capacity used =
    if leb (capacity - used) 1 then none else some (capacity - used - 1)

-- One turn ends the loop or goes on with the buffer, the events and the result so far.
pub data Turn : Type 0 where
  ends : Option ℕ → Bytes → Turn
  goes_on : Bytes → ℕ → Option ℕ → Turn

-- A line has been added, the `events`th.
abbrev added : ℕ → Bytes → ℕ → Turn
added max_events out events =
    if events == max_events
    then ends (some (length out)) out
    else goes_on out events (some (length out))

-- A message that starts with one mark starts with no other.
unfoldable pub took_message : Format → ℕ → Bytes → ℕ → Option ℕ → Bytes → Turn
took_message single_event max_events out events result m =
    if starts_with event_mark m
    then ends (some (length m)) m
    else if starts_with eose_mark m
    then ends (some (length out)) out
    else if starts_with closed_mark m
    then ends result out
    else goes_on out events result
took_message event_lines max_events out events result m =
    if starts_with event_mark m
    then added max_events (out ++ (m ++ 10 ∷ [])) (events + 1)
    else if starts_with eose_mark m
    then ends (some (length out)) out
    else if starts_with closed_mark m
    then ends result out
    else goes_on out events result

module _ (format : Format) (max_events capacity : ℕ) where
  -- The loop over the messages; each turn and each message may take `turns` steps.
  unfoldable pub collect : ℕ → ℕ → Bytes → ℕ → Option ℕ → List Event → Fetched
  collect steps zero out events result es = running
  collect steps (suc turns) out events result es = elim (room format capacity (length out)) [
    | none ↦ fetched result out
    | some available ↦ elim (recv_message steps available es) [
      | closed ↦ fetched result out
      | unfinished ↦ running
      | message m left ↦
          elim (took_message format max_events out events result (as_line format m)) [
            | ends r out' ↦ fetched r out'
            | goes_on out' events' result' ↦ collect steps turns out' events' result' left
          ]
    ]
  ]

-- The result before the first message.
abbrev pub first_result : Format → Option ℕ
first_result single_event = some 0
first_result event_lines = none
