-- ===== src/Tests/Tools.antt =====
-- Runs of the tool broker, app/tool_broker.c, and instances of its theorems.
use whitenoise_linux.Base.Results.{ok}
use whitenoise_linux.Base.{
  ℕ, ◌+◌, ◌≤◌, ◌<◌, List, [], ◌∷◌, ◌==◌, Bytes, true, false, Option, none, some, codes, same_bytes,
  if◌then◌else◌, replicate, length, All, ◌≢◌, ◌≡◌, refl, ◌⊎◌, arith,
}
use whitenoise_linux.Broker.Channel.{Turn, moved, interrupted, Channel, transfer, write_turns}
use whitenoise_linux.Broker.Strings.{strnlen, split}
use whitenoise_linux.Decoder.Wire.{put, u32}
use whitenoise_linux.Tools.Environment.{
  keys, IsListed, same_start, fixed_path, fixed_renderer, tool_environment_slots,
  freeze_environment, curl_environment, without_proxies, freeze_environment-IsListed,
}
use whitenoise_linux.Tools.Request.{
  Opening, Broker, Run, request_out, request_in, open_request, admit, text_of, proxy_length,
}
use whitenoise_linux.Tools.Request.Packed.{given}
use whitenoise_linux.Tools.Request.Sent.{meant_run, meant_environment}
use whitenoise_linux.Tools.Request.Agreement.{admit-open_request}
use whitenoise_linux.Tools.Request.Admitted.{IsFrozen, admit-IsFrozen}
use whitenoise_linux.Tools.Pump.{Poll, Call, Report, pump, new_pipe}
use whitenoise_linux.Tools.Pump.Collected.{AreKept, pump-AreKept}
use whitenoise_linux.Tools.Pump.Completes.{GoesWell, IsComplete, pump-IsComplete}
use whitenoise_linux.Tools.Reply.{
  World, Wait, exited, Outcome, response_out, answer, wait_child, serve_request, wn_tools_run,
}
use whitenoise_linux.Tools.Reply.Answered.{Runs, Answers, done, wn_tools_run-serve_request}
use whitenoise_linux.Tools.Dialog.{
  DialogRequest, DialogCall, dialog_answer, separators, wn_tools_dialog,
}
use whitenoise_linux.Tools.Dialog.Picked.{printed, dialog_answer-printed}
use whitenoise_linux.Tools.Dialog.Workers.{
  Step, Reach, no_dialogs, IsSingle, Starts, suggested, Reach-IsSingle, wn_tools_dialog-Starts,
}

abbrev steady : List Turn
steady = interrupted ∷ replicate 60 (moved 4)

abbrev opening : Opening
opening = record {
  pair_error = none;
  flag_error = none;
  handed_over = true;
  turns = replicate 60 (moved 9);
}

abbrev broker : Broker
broker = record {
  tools = λ n. if n == 2 then [] else codes "/usr/bin/curl";
  environment = codes "http_proxy=x" ∷ codes "LANG=C" ∷ [];
}

abbrev asked : List Bytes
asked = codes "-s" ∷ [] ∷ codes "a.b" ∷ []

abbrev proxy : Option Bytes
proxy = some (codes "socks5h://h:1")

abbrev request_channel : Channel
request_channel = record {
  stream = (open_request opening 1 (given asked) proxy).sent;
  turns = steady;
}

abbrev curl_run : Run
curl_run = record {
  operation = 1;
  argv = codes "/usr/bin/curl" ∷ asked;
  environment = codes "LANG=C" ∷ codes "all_proxy=socks5h://h:1" ∷ [];
}

admitted : admit broker request_channel ≡ ok curl_run
unfolding admit open_request transfer strnlen same_start write_turns request_out put request_in u32
    split curl_environment
admitted = refl

kept_open : (open_request opening 1 (given asked) proxy).closed ≡ 1 ∷ []
unfolding open_request strnlen same_start write_turns request_out put
kept_open = refl

size_of_request : length request_channel.stream ≤ 60
unfolding open_request strnlen same_start write_turns request_out put
size_of_request = omega arith

meant :
    meant_run broker 1 asked
      (meant_environment broker.environment (proxy_length proxy) (text_of proxy))
    ≡ ok curl_run
unfolding proxy_length strnlen same_start without_proxies
meant = refl

admit-open_request_example :
    admit broker request_channel
    ≡ meant_run broker 1 asked
        (meant_environment broker.environment (proxy_length proxy) (text_of proxy))
admit-open_request_example =
    admit-open_request opening broker request_channel 1 asked proxy (omega arith) (omega arith)
      (omega arith) (omega arith) kept_open (record { sound = tt; served = size_of_request }) refl

admit-IsFrozen_example : IsFrozen broker curl_run
admit-IsFrozen_example = admit-IsFrozen broker request_channel curl_run admitted

-- Turns in which poll is interrupted, reports one of the pipes or both, and read is interrupted.
abbrev reading : ℕ → Option Report
reading k = some (record { grows = true; call = Call.got k })

abbrev disturbed : Option Report
disturbed = some (record { grows = true; call = Call.interrupted })

abbrev short_turns : List Poll
short_turns =
    Poll.poll_interrupted
    ∷ Poll.ready none (reading 0)
    ∷ Poll.ready (reading 3) none
    ∷ Poll.ready disturbed (reading 5)
    ∷ Poll.ready (reading 0) (reading 1)
    ∷ Poll.ready (reading 1) disturbed
    ∷ Poll.ready (reading 1) none
    ∷ []

goes_on : (k e : ℕ) → Call.got k ≢ Call.failed e
goes_on k e h = cc

is_disturbed : (e : ℕ) → Call.interrupted ≢ Call.failed e
is_disturbed e h = cc

short_turns-GoesWell : All GoesWell short_turns
short_turns-GoesWell = (
  tt,
  (
    (tt, (refl, goes_on 0)),
    (
      ((refl, goes_on 3), tt),
      (
        ((refl, is_disturbed), (refl, goes_on 5)),
        (
          ((refl, goes_on 0), (refl, goes_on 1)),
          (((refl, goes_on 1), (refl, is_disturbed)), (((refl, goes_on 1), tt), tt)),
        ),
      ),
    ),
  ),
)

pump-AreKept_example :
    AreKept
      (codes "abc")
      (codes "no")
      (pump short_turns (new_pipe (codes "abc")) (new_pipe (codes "no")))
pump-AreKept_example = pump-AreKept (codes "abc") (codes "no") short_turns

pump-IsComplete_example :
    IsComplete
      (codes "abc")
      (codes "no")
      (pump short_turns (new_pipe (codes "abc")) (new_pipe (codes "no")))
pump-IsComplete_example =
    pump-IsComplete (codes "abc") (codes "no") short_turns (omega arith) (omega arith)
      short_turns-GoesWell (omega arith) (omega arith)

abbrev world : World
world = record {
  output_error = none;
  errors_error = none;
  fork_error = none;
  tool_output = codes "abc";
  tool_errors = codes "no";
  polls = short_turns;
  waits = Wait.wait_interrupted ∷ Wait.gone (exited 3) ∷ [];
}

world-Runs : Runs 3 world
unfolding wait_child
world-Runs = record {
  output_pipe = refl;
  errors_pipe = refl;
  forked = refl;
  output_fits = omega arith;
  errors_fit = omega arith;
  polled = short_turns-GoesWell;
  output_read = omega arith;
  errors_read = omega arith;
  waited = refl;
}

abbrev slow : List Turn
slow = interrupted ∷ replicate 40 (moved 2)

abbrev answer_channel : Channel
answer_channel = record {
  stream = answer slow slow slow (done 3 (codes "abc") (codes "no"));
  turns = steady;
}

size_of_answer : length answer_channel.stream ≤ 60
unfolding response_out put answer write_turns
size_of_answer = omega arith

answered : Answers slow slow slow (done 3 (codes "abc") (codes "no"))
unfolding write_turns response_out put
answered = record { header = refl; output = refl; errors = refl }

wn_tools_run-serve_request_example :
    (serve_request broker request_channel (λ _. world) ≡ some (done 3 (codes "abc") (codes "no")))
    × (wn_tools_run opening 1 (given asked) proxy answer_channel true true ≡ record {
      result = 0;
      output = some (codes "abc");
      errors = some (codes "no");
      exit_code = 3;
    })
wn_tools_run-serve_request_example =
    wn_tools_run-serve_request opening broker request_channel answer_channel 1 asked proxy
      (λ _. world) curl_run 3 slow slow slow (omega arith) (omega arith) (omega arith) (omega arith)
      kept_open (record { sound = tt; served = size_of_request }) refl meant world-Runs
      (omega arith) answered (record { sound = tt; served = size_of_answer }) refl

abbrev home_only : Bytes → Option Bytes
home_only key = if same_bytes key (codes "HOME") then some (codes "/h") else none

freeze_environment-IsListed_example :
    let entries = (freeze_environment home_only (λ _. true)).1 in
    All
      (λ (e : Bytes). (e ≡ fixed_path) ⊎ ((e ≡ fixed_renderer) ⊎ IsListed home_only keys e))
      entries
    × (length entries < tool_environment_slots)
freeze_environment-IsListed_example = freeze_environment-IsListed home_only (λ _. true)

abbrev pick : DialogRequest
pick = record { save = false; multiple = true; name = [] }

abbrev picked : Outcome
picked = record { result = 0; output = some (codes "/a/b///c\n"); errors = none; exit_code = 0 }

dialog_answer-printed_example :
    (dialog_answer pick true picked ≡ (some (codes "/a/b" ∷ codes "/c" ∷ []), 0))
    × (length (codes "/a/b" ∷ codes "/c" ∷ [])
        ≡ separators (printed (codes "/a/b") (codes "/c" ∷ [])) + 1)
dialog_answer-printed_example =
    dialog_answer-printed pick picked (codes "/a/b") (codes "/c" ∷ []) refl refl refl refl refl refl
      (refl, tt) (omega arith) (omega arith)

abbrev ask : DialogCall
ask = record {
  has_callback = true;
  save = true;
  multiple = false;
  name = some (codes "../x/n");
  allocated = true;
  create_error = 0;
}

Reach-IsSingle_example : IsSingle (wn_tools_dialog no_dialogs ask).0
Reach-IsSingle_example =
    Reach-IsSingle (wn_tools_dialog no_dialogs ask).0 (Reach.next Reach.here (Step.call ask refl))

wn_tools_dialog-Starts_example :
    Starts (suggested ask.name) no_dialogs (wn_tools_dialog no_dialogs ask) false
wn_tools_dialog-Starts_example = wn_tools_dialog-Starts no_dialogs ask refl refl refl (omega arith)
