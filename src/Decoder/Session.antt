-- ===== src/Decoder/Session.antt =====
-- `struct WnModelSession` of app/decoder_ipc.c: one helper process that answers one request after
-- another. wn_model_start, wn_model_exchange and wn_model_close.
pub mod Exchange
use whitenoise_linux.Base.{
  ℕ, zero, suc, ◌+◌, ◌*◌, ◌≤◌, ◌<◌, List, [], ◌∷◌, ◌++◌, Bytes, Bool, true, false, not, ◌&&◌, ◌||◌,
  Option, none, some, ltb, leb, ◌==◌, if◌then◌else◌, codes, length,
}
use whitenoise_linux.Decoder.Wire.{image_input_max, image_seconds, model_output_max, put, u32_mod}
use whitenoise_linux.Decoder.Reply.{Kind, model, Reply}
use whitenoise_linux.Decoder.Transfer.{
  Recv, Round, Request, Transfer, Next, stop, go, decoder_transfer, start,
}
use whitenoise_linux.Decoder.Process.{Process, Call, decoder_stop}
use whitenoise_linux.Decoder.Build.{blank, given, named}

pub record Session : Type 0 where
  pub process : Process
  pub active : Bool
  pub sequence : ℕ

-- What the system answers during an exchange.
pub record Answers : Type 0 where
  pub clock : Option ℕ
  pub peek : Recv
  pub rounds : List Round

-- wn_model_start; `started` is the process of a decoder_start that succeeded, `session_memory` says
-- that calloc did.
pub wn_model_start : Option Bytes → Bool → Option Process → Option Session
wn_model_start helper session_memory none = none
wn_model_start helper session_memory (some p) =
    if named helper && session_memory
    then some (record { process = p; active = true; sequence = 0 })
    else none

-- The arguments of an exchange. `output` is the caller's array, whose size is `capacity`;
-- `has_length` says that the pointer to the length is not NULL.
pub record Ask : Type 0 where
  pub operation : ℕ
  pub content : Option Bytes
  pub size : ℕ
  pub output : Option Bytes
  pub capacity : ℕ
  pub has_length : Bool

-- What an exchange gives: the payload or NULL, its length, and what the helper was sent.
pub record Answer : Type 0 where
  pub payload : Option Bytes
  pub length : ℕ
  pub wire : Bytes

abbrev pub nothing : Bytes → Answer
nothing wire = record { payload = none; length = 0; wire = wire }

-- The session is given up: its process is stopped.
abbrev pub give_up : Session → Session
give_up s = record s { process = (decoder_stop s.process).0; active = false }

unfoldable pub model_request : Ask → ℕ → Bytes
model_request a sequence = codes "FBI1" ++ (put a.operation ++ (put a.size ++ put sequence))

-- output && capacity < WN_MODEL_OUTPUT_MAX ? capacity : WN_MODEL_OUTPUT_MAX
abbrev pub model_cap : Ask → ℕ
model_cap a =
    if given a.output && ltb a.capacity model_output_max then a.capacity else model_output_max

abbrev pub model_reply : Ask → ℕ → Reply
model_reply a sequence = record (blank model) {
  index = a.operation;
  sequence = sequence;
  cap = model_cap a;
  pixels = a.output;
  borrowed = given a.output;
}

abbrev pub content_of : Ask → Bytes
content_of a = elim a.content [ none ↦ [] | some d ↦ d ]

-- The guard of an exchange on an active session; UINT32_MAX is 2 ^ 32 - 1.
abbrev pub model_refused : Session → Ask → Bool
model_refused s a =
    not a.has_length
    || (not (a.size == 0) && not (given a.content))
    || ltb image_input_max a.size
    || ltb 1 a.operation
    || (s.sequence + 1) == u32_mod

-- The end of an exchange, by the outcome of its transfer; `none` while the transfer runs.
unfoldable pub after_transfer : Session → Next → Option (Session × Answer)
after_transfer s (stop t true) =
    some (s, record { payload = t.reply.pixels; length = t.reply.bytes; wire = t.wire })
after_transfer s (stop t false) = some (
  give_up (record s { process = record s.process { reaped = t.reaped || s.process.reaped } }),
  nothing t.wire,
)
after_transfer s (go t) = none

module _ (malloc : ℕ → Option Bytes) (answers : Answers) where
  unfoldable pub exchange_at : Session → Ask → Option ℕ → Option (Session × Answer)
  unfolding after_transfer
  exchange_at s a none = some (give_up s, nothing [])
  exchange_at s a (some now) =
      if model_refused s a
      then some (give_up s, nothing [])
      else let s' = record s { sequence = s.sequence + 1 } in
        after_transfer s' (
          decoder_transfer malloc
            (record {
              header = model_request a s'.sequence;
              content = content_of a;
              finish = false;
              deadline = now + image_seconds * 1000;
            })
            answers.peek answers.rounds (start (model_reply a s'.sequence)))

  -- wn_model_exchange on a session that is not NULL.
  unfoldable pub wn_model_exchange : Session → Ask → Option (Session × Answer)
  unfolding exchange_at
  wn_model_exchange s a =
      if not s.active then some (s, nothing []) else exchange_at s a answers.clock

-- wn_model_close: the calls that it makes before the session is freed.
pub wn_model_close : Option Session → List Call
wn_model_close none = []
wn_model_close (some s) = if s.active then (decoder_stop s.process).1 else []
