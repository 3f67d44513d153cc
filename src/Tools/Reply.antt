-- ===== src/Tools/Reply.antt =====
-- What comes back from the tool broker (app/tool_broker.c): the end of serve_request, and
-- wn_tools_run and wn_tools_submit_notification.
pub mod Answered
pub mod Received
use whitenoise_linux.Base.Results.{Result, ok, err, eio, enoent, enomem}
use whitenoise_linux.Base.{
  ℕ, zero, suc, ◌+◌, ◌-◌, ◌^◌, List, [], ◌∷◌, ◌++◌, Bytes, Bool, true, false, Option, none, some,
  ltb, ◌==◌, ◌||◌, if◌then◌else◌, length, ◌≡◌, refl,
}
use whitenoise_linux.Broker.Channel.{Channel, Turn, transfer, write_turns}
use whitenoise_linux.Decoder.Wire.{put, u32}
use whitenoise_linux.Tools.Request.{
  Opening, Opened, Broker, Run, admit, open_request, output_limit, tool_notify,
}
use whitenoise_linux.Tools.Pump.{Pipe, Poll, Turned, going, over, pump, new_pipe}

-- struct response: four 32-bit words, the signed ones by their bit patterns.
pub record Response : Type 0 where
  pub error : ℕ
  pub status : ℕ
  pub output : ℕ
  pub errors : ℕ

-- -1
abbrev pub minus_one : ℕ
minus_one = 2 ^ 32 - 1

unfoldable pub response_out : Response → Bytes
response_out r = put r.error ++ (put r.status ++ (put r.output ++ put r.errors))

unfoldable pub response_in : Bytes → Response
response_in d = record { error = u32 d 0; status = u32 d 4; output = u32 d 8; errors = u32 d 12 }

-- How a tool ended.
pub data Status : Type 0 where
  exited : ℕ → Status
  signalled : ℕ → Status

-- What waitpid answers.
pub data Wait : Type 0 where
  wait_interrupted : Wait
  wait_failed : ℕ → Wait
  gone : Status → Wait

-- The expression of response.status; `status` is 0 where waitpid has not set it.
unfoldable pub exit_status : Status → ℕ
exit_status (exited n) = n
exit_status (signalled n) = 128 + n

-- The loop around waitpid: its errno, or 0, and the status. When the answers end, it waits.
unfoldable pub wait_child : List Wait → Option (ℕ × Status)
wait_child [] = none
wait_child (wait_interrupted ∷ waits) = wait_child waits
wait_child (wait_failed e ∷ waits) = some (e, exited 0)
wait_child (gone s ∷ waits) = some (0, s)

-- What the system answers to serve_request once it knows what to run: the errno of the two pipe
-- calls and of fork, what the tool writes, and what poll, read and waitpid answer.
pub record World : Type 0 where
  pub output_error : Option ℕ
  pub errors_error : Option ℕ
  pub fork_error : Option ℕ
  pub tool_output : Bytes
  pub tool_errors : Bytes
  pub polls : List Poll
  pub waits : List Wait

-- The response with the two buffers, and whether the tool has been killed.
pub record Served : Type 0 where
  pub response : Response
  pub output : Bytes
  pub errors : Bytes
  pub killed : Bool

unfoldable pub only_error : ℕ → Served
only_error e = record {
  response = record { error = e; status = minus_one; output = 0; errors = 0 };
  output = [];
  errors = [];
  killed = false;
}

-- What follows the loop over the pipes.
unfoldable pub collected : ℕ → Pipe → Pipe → ℕ × Status → Served
unfolding exit_status
collected failed a b (waited, status) = record {
  response = record {
    error = if failed == 0 then waited else failed;
    status = exit_status status;
    output = length a.buffer;
    errors = length b.buffer;
  };
  output = a.buffer;
  errors = b.buffer;
  killed = if failed == 0 then false else true;
}

abbrev pub waited_for : ℕ → Pipe → Pipe → Option (ℕ × Status) → Option Served
waited_for failed a b none = none
waited_for failed a b (some w) = some (collected failed a b w)

-- `none` where the broker waits for ever.
unfoldable pub finish : Turned → List Wait → Option Served
unfolding collected wait_child
finish (going a b) waits = none
finish (over failed a b) waits = waited_for failed a b (wait_child waits)

abbrev pub or_run : Option ℕ → Option Served → Option Served
or_run (some e) served = some (only_error e)
or_run none served = served

-- The tool is run: pipe, pipe, fork, the loop and waitpid.
unfoldable pub run_tool : World → Option Served
unfolding finish only_error
run_tool w = or_run w.output_error (
    or_run w.errors_error (
      or_run w.fork_error
        (finish (pump w.polls (new_pipe w.tool_output) (new_pipe w.tool_errors)) w.waits)))

abbrev pub serve_admitted : (Run → World) → Result Run → Option Served
serve_admitted world (err e) = some (only_error e)
serve_admitted world (ok run) = run_tool (world run)

-- serve_request up to its answer. The world depends on what is run.
unfoldable pub serve_request : Broker → Channel → (Run → World) → Option Served
unfolding run_tool
serve_request b c world = serve_admitted world (admit b c)

-- The three writes of the answer; the last two are made also if one of them fails.
unfoldable pub answer : List Turn → List Turn → List Turn → Served → Bytes
answer t₀ t₁ t₂ s =
    let (whole, out) = write_turns t₀ (response_out s.response) in
    if whole then out ++ ((write_turns t₁ s.output).1 ++ (write_turns t₂ s.errors).1) else out

-- What wn_tools_run returns and stores: a pointer that stays NULL is `none`, and a size is that of
-- what it points to.
pub record Outcome : Type 0 where
  pub result : ℕ
  pub output : Option Bytes
  pub errors : Option Bytes
  pub exit_code : ℕ

unfoldable pub no_outcome : ℕ → Outcome
no_outcome e = record { result = e; output = none; errors = none; exit_code = minus_one }

abbrev pub transferred : Option (Bytes × Channel) → Result (Option Bytes × Channel)
transferred none = err eio
transferred (some (d, c)) = ok (some d, c)

-- One of the two buffers: nothing for no bytes, else malloc and transfer; or an error.
unfoldable pub receive : Channel → ℕ → Bool → Result (Option Bytes × Channel)
receive c zero allocated = ok (none, c)
receive c (suc n) false = err enomem
receive c (suc n) true = transferred (transfer c (suc n))

-- The end of wn_tools_run with everything received: an error in the response frees both buffers.
unfoldable pub stored : Response → Option Bytes → Option Bytes → Outcome
stored r output errors =
    if r.error == 0
    then record { result = 0; output = output; errors = errors; exit_code = r.status }
    else record { result = r.error; output = none; errors = none; exit_code = r.status }

abbrev pub received : Response → Option Bytes → Result (Option Bytes × Channel) → Outcome
received r output (err e) = no_outcome e
received r output (ok (errors, c)) = stored r output errors

abbrev pub receive_errors : Response → Bool → Result (Option Bytes × Channel) → Outcome
receive_errors r allocated (err e) = no_outcome e
receive_errors r allocated (ok (output, c)) = received r output (receive c r.errors allocated)

abbrev pub receive_both : Bool → Bool → Option (Bytes × Channel) → Outcome
receive_both m₁ m₂ none = no_outcome eio
receive_both m₁ m₂ (some (header, c)) =
    let r = response_in header in
    if ltb output_limit r.output || ltb output_limit r.errors
    then no_outcome eio
    else receive_errors r m₂ (receive c r.output m₁)

-- wn_tools_run behind open_request, on its end of the channel; `m₁` and `m₂` are whether malloc
-- gives memory.
unfoldable pub read_response : Channel → Bool → Bool → Outcome
unfolding receive stored no_outcome
read_response c m₁ m₂ = receive_both m₁ m₂ (transfer c 16)

unfoldable pub wn_tools_run :
    Opening → ℕ → List (Option Bytes) → Option Bytes → Channel → Bool → Bool → Outcome
unfolding read_response
wn_tools_run o operation arguments proxy c m₁ m₂ =
    let opened = open_request o operation arguments proxy in
    if opened.error == 0 then read_response c m₁ m₂ else no_outcome opened.error

-- wn_tools_submit_notification closes its end at once. Its result and what open_request did; without
-- the program nothing is opened.
unfoldable pub wn_tools_submit_notification :
    Broker → Opening → List (Option Bytes) → ℕ × Option Opened
wn_tools_submit_notification b o arguments =
    if length (b.tools tool_notify) == 0
    then (enoent, none)
    else let opened = open_request o tool_notify arguments none in
      (
        opened.error,
        some (
            if opened.error == 0
            then record opened { closed = opened.closed ++ 0 ∷ [] }
            else opened),
      )
