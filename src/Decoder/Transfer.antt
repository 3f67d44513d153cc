-- ===== src/Decoder/Transfer.antt =====
-- decoder_transfer of app/decoder_ipc.c, in its POSIX form: one request is written to the helper's
-- socket while its reply is read. What the system calls answer is an argument, one `Round` for each
-- turn of the loop.
pub mod Pieces
pub mod Sound
pub mod Deadline
use whitenoise_linux.Base.{
  ℕ, zero, suc, ◌+◌, ◌-◌, ◌≤◌, ◌<◌, min, List, [], ◌∷◌, ◌++◌, Bytes, Bool, true, false, not, ◌&&◌,
  ◌||◌, Option, none, some, ltb, leb, ◌==◌, if◌then◌else◌, length, take, drop,
}
use whitenoise_linux.Decoder.Reply.{Reply, image_buffer, store, image_received, image_complete}

-- recv(): bytes (none of them: the end of the stream), EAGAIN or EWOULDBLOCK, EINTR, another error.
pub data Recv : Type 0 where
  got : Bytes → Recv
  blocked interrupted broken : Recv

-- send(): how many bytes were taken, EAGAIN, EWOULDBLOCK or EINTR, another error.
pub data Send : Type 0 where
  wrote : ℕ → Send
  full refused : Send

-- waitpid(child, WNOHANG): still running, exit status, killed, EINTR, ECHILD, another error.
pub data Wait : Type 0 where
  alive : Wait
  exited : ℕ → Wait
  killed again no_child error : Wait

-- poll(): what is ready (input, hang-up or error; output; POLLNVAL), no event, EINTR, an error.
pub data Poll : Type 0 where
  ready : Bool → Bool → Bool → Poll
  timed_out disturbed failed : Poll

-- The answers of one turn of the loop; a turn asks for those that its branch needs. What poll answers
-- and the time that it takes depend on how long it may wait, in milliseconds.
pub record Round : Type 0 where
  pub now : Option ℕ
  pub peek : Recv
  pub wait : Wait
  pub poll : ℕ → Poll
  pub spends : ℕ → ℕ
  pub recv : Recv
  pub send : Send
  pub shut : Bool

-- What stays fixed during a transfer.
pub record Request : Type 0 where
  pub header : Bytes
  pub content : Bytes
  pub finish : Bool
  pub deadline : ℕ

-- The variables of the loop, `process->reaped`, the exit status that was read, and all bytes that
-- the socket has taken and given.
pub record Transfer : Type 0 where
  pub reply : Reply
  pub sent : ℕ
  pub eof : Bool
  pub reaped : Bool
  pub status : Option ℕ
  pub wire : Bytes
  pub arrived : Bytes

-- One turn ends the transfer with a result, or goes on.
pub data Next : Type 0 where
  stop : Transfer → Bool → Next
  go : Transfer → Next

abbrev pub total : Request → ℕ
total q = length q.header + length q.content

-- The timeout of poll. Its callers put the deadline image_seconds ahead, so the cast to int keeps it.
abbrev pub poll_timeout : Request → ℕ → ℕ
poll_timeout q now = q.deadline - now

-- What send() is offered: the rest of the header, or at most 65536 bytes of the data.
abbrev pub offered : Request → ℕ → Bytes
offered q sent =
    if ltb sent (length q.header)
    then drop sent q.header
    else take 65536 (drop (sent - length q.header) q.content)

-- Nothing may follow a complete reply of a session: the peek that ends the transfer.
ended : Transfer → Recv → Next
ended t (got d) = stop t false
ended t blocked = stop t true
ended t interrupted = go t
ended t broken = stop t false

-- After the end of the stream: the helper must end well.
waited : Request → Transfer → Wait → Next
waited q t alive = go t
waited q t (exited code) =
    stop (record t { reaped = true; status = some code })
      (t.sent == total q && image_complete t.reply && code == 0)
waited q t killed = stop (record t { reaped = true }) false
waited q t again = go t
waited q t no_child = stop (record t { reaped = true }) false
waited q t error = stop t false

module _ (malloc : ℕ → Option Bytes) (q : Request) where
  -- The branch of POLLIN, POLLHUP and POLLERR. `d` is what recv() put into the buffer.
  received : Transfer → Bytes → Next
  received t d =
      if length d == 0
      then (let t' = record t { eof = true } in
          if not q.finish || not (image_complete t.reply) || not (t.sent == total q)
          then stop t' false
          else go t')
      else let answer =
          image_received malloc (store t.reply (image_buffer t.reply).0 d) (length d) in
        let t' = record t { reply = answer.0; arrived = t.arrived ++ d } in
        if answer.1 then go t' else stop t' false

  receive : Transfer → Recv → Next
  unfolding received
  receive t (got d) = received t (take (image_buffer t.reply).1 d)
  receive t blocked = go t
  receive t interrupted = go t
  receive t broken = stop t false

  -- The branch of POLLOUT. `d` is what send() took.
  took : Transfer → Bytes → Bool → Next
  took t d shut =
      let t' = record t { sent = t.sent + length d; wire = t.wire ++ d } in
      if length d == 0
      then stop t false
      else if q.finish && t'.sent == total q && not shut
      then stop t' false
      else go t'

  transmit : Transfer → Send → Bool → Next
  unfolding took
  transmit t (wrote n) shut = took t (take n (offered q t.sent)) shut
  transmit t full shut = go t
  transmit t refused shut = stop t false

  send_next : Round → Bool → Next → Next
  unfolding transmit
  send_next r writable (stop t b) = stop t b
  send_next r writable (go t) =
      if writable && ltb t.sent (total q) then transmit t r.send r.shut else go t

  polled : Round → Transfer → Poll → Next
  unfolding receive send_next
  polled r t (ready readable writable invalid) =
      if invalid
      then stop t false
      else send_next r writable (if readable then receive t r.recv else go t)
  polled r t timed_out = stop t false
  polled r t disturbed = go t
  polled r t failed = stop t false

  -- One turn of the loop, at a time `now` before the deadline, until which poll may wait.
  unfoldable pub on_time : Round → ℕ → Transfer → Next
  unfolding ended waited polled
  on_time r now t =
      if not q.finish && t.sent == total q && image_complete t.reply
      then ended t r.peek
      else if t.eof
      then waited q t r.wait
      else polled r t (r.poll (poll_timeout q now))

  unfoldable pub turn : Round → Transfer → Next
  unfolding on_time
  turn r t = elim r.now [
    | none ↦ stop t false
    | some now ↦ if leb q.deadline now then stop t false else on_time r now t
  ]

  -- The loop, over the answers of its turns; `go` if they do not end it.
  unfoldable pub turns : List Round → Transfer → Next
  turns [] t = go t
  turns (r ∷ rs) t = elim (turn r t) [ stop t' b ↦ stop t' b | go t' ↦ turns rs t' ]

  -- decoder_transfer: a byte that waits before the request, or a closed socket, fails it.
  unfoldable pub decoder_transfer : Recv → List Round → Transfer → Next
  decoder_transfer (got d) rs t = stop t false
  decoder_transfer broken rs t = stop t false
  decoder_transfer _ rs t = turns rs t

abbrev pub start : Reply → Transfer
start r = record {
  reply = r;
  sent = 0;
  eof = false;
  reaped = false;
  status = none;
  wire = [];
  arrived = [];
}
