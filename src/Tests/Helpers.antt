-- ===== src/Tests/Helpers.antt =====
-- Runs of the helper launcher, app/helper_broker.c, and instances of its theorems.
use whitenoise_linux.Base.Results.{Result, ok}
use whitenoise_linux.Base.{
  ℕ, ◌+◌, ◌≤◌, List, [], ◌∷◌, ◌++◌, Bytes, true, false, Option, none, some, ltb, ◌==◌, codes,
  same_bytes, if◌then◌else◌, replicate, length, ◌≡◌, ◌≢◌, refl, arith,
}
use whitenoise_linux.Broker.Strings.{strnlen, split, base_name}
use whitenoise_linux.Broker.Channel.{moved, interrupted, Channel, transfer}
use whitenoise_linux.Decoder.Wire.{put, u32}
use whitenoise_linux.Helpers.Freeze.{decoder, optional, Frozen, freeze_helpers}
use whitenoise_linux.Helpers.Freeze.Known.{AreFrozen, freeze_helpers-AreFrozen}
use whitenoise_linux.Helpers.Request.{Request, Launch, request_out, request_in, exec_request, admit}
use whitenoise_linux.Helpers.Request.Launched.{meant_launch, admit-exec_request}
use whitenoise_linux.Helpers.Request.Allowed.{IsLaunch, admit-IsLaunch}
use whitenoise_linux.Helpers.Channel.{
  Received, got, collect_descriptors, receive_channel, send_channel, Flags,
}
use whitenoise_linux.Helpers.Channel.Closed.{IsClean, receive_channel-IsClean}
use whitenoise_linux.Helpers.Channel.Sent.{rights}
use whitenoise_linux.Helpers.Transfer.{Round, poll_ready, call_moved}
use whitenoise_linux.Helpers.Jobs
use whitenoise_linux.Helpers.Jobs.{launch_loop, new_launcher}
use whitenoise_linux.Helpers.Jobs.Waited.{IsOver, launch_loop-IsOver}
use whitenoise_linux.Helpers.Supervise.{
  WatchRound, watch_ready, end_of_pipe, executed, WaitRound, still_there, gone, Effect, reply,
  wait_failed, wait_child, kill_group, watch_loop, supervise,
}
use whitenoise_linux.Helpers.Supervise.Ended.{Works, IsEnded, supervise-IsEnded}

-- realpath puts the resolved files into /r.
abbrev resolve : Bytes → Result Bytes
resolve path = ok (codes "/r" ++ path)

abbrev frozen : Frozen
frozen = record {
  helpers =
      record { requested = codes "/b/wn-image"; executable = codes "/r/b/wn-image"; kind = decoder }
      ∷ record { requested = codes "/b/wn-stt"; executable = codes "/r/b/wn-stt"; kind = optional }
      ∷ [];
  font_root = [];
}

freezes :
    freeze_helpers resolve
      (some (some (codes "/b/wn-image") ∷ some (codes "/b/wn-stt") ∷ []))
      2
      (some (codes "/res"))
    ≡ ok frozen
unfolding freeze_helpers strnlen same_bytes base_name
freezes = refl

freeze_helpers-AreFrozen_example : AreFrozen resolve frozen
freeze_helpers-AreFrozen_example =
    freeze_helpers-AreFrozen resolve
      (some (some (codes "/b/wn-image") ∷ some (codes "/b/wn-stt") ∷ [])) 2 (some (codes "/res"))
      frozen freezes

abbrev asked : List Bytes
asked = codes "m" ∷ [] ∷ []

abbrev packed : Request × Bytes
packed = (record { count = 2; bytes = 13 }, codes "/b/wn-stt" ++ 0 ∷ codes "m" ++ 0 ∷ 0 ∷ [])

packs : exec_request (codes "/b/wn-stt") asked ≡ ok packed
unfolding exec_request strnlen
packs = refl

abbrev request_channel : Channel
request_channel = record {
  stream = request_out packed.0 ++ packed.1;
  turns = interrupted ∷ replicate 30 (moved 2);
}

size_of_request : length request_channel.stream ≤ 30
unfolding request_out put
size_of_request = omega arith

admit-exec_request_example :
    admit frozen 3 false request_channel ≡ meant_launch frozen 3 false (codes "/b/wn-stt") asked
admit-exec_request_example =
    admit-exec_request frozen 3 false request_channel (codes "/b/wn-stt") asked packed (omega arith)
      (omega arith) packs (record { sound = tt; served = size_of_request }) refl

abbrev speech : Launch
speech = record {
  helper = record {
    requested = codes "/b/wn-stt";
    executable = codes "/r/b/wn-stt";
    kind = optional;
  };
  argv = codes "/r/b/wn-stt" ∷ asked;
}

admits : admit frozen 3 false request_channel ≡ ok speech
unfolding admit transfer request_out put request_in u32 strnlen same_bytes split
admits = refl

admit-IsLaunch_example : IsLaunch frozen 3 false speech
admit-IsLaunch_example = admit-IsLaunch frozen 3 false request_channel speech admits

abbrev above_nine : ℕ → Option ℕ
above_nine fd = if ltb fd 8 then some (fd + 10) else none

abbrev crowd : Received
crowd = got 0 7 false (rights (4 ∷ 5 ∷ []) ∷ rights (6 ∷ 7 ∷ 8 ∷ []) ∷ [])

crowd_closed : (receive_channel above_nine crowd).closed ≡ 8 ∷ 4 ∷ 5 ∷ 6 ∷ 7 ∷ []
unfolding receive_channel collect_descriptors
crowd_closed = refl

receive_channel-IsClean_example : IsClean crowd (receive_channel above_nine crowd)
receive_channel-IsClean_example = receive_channel-IsClean above_nine crowd

sends : send_channel 9 Flags.is_open Flags.is_bad Flags.is_open ≡ some (9 ∷ 0 ∷ 2 ∷ [], 5)
unfolding send_channel
sends = refl

abbrev at_time : ℕ → Round
at_time t = record {
  now = some t;
  stopping = false;
  poll_answer = poll_ready;
  call_answer = call_moved 1;
}

abbrev one_job : ℕ → Jobs.Round
one_job pid = record {
  stopping = false;
  finished = λ p. p == 40;
  poll = Jobs.ready;
  received = some 2;
  fork = some pid;
}

abbrev stop_round : Jobs.Round
stop_round = record (one_job 0) { stopping = true }

launch_loop-IsOver_example :
    IsOver (launch_loop (one_job 40 ∷ one_job 41 ∷ stop_round ∷ []) new_launcher)
launch_loop-IsOver_example = launch_loop-IsOver (one_job 40 ∷ one_job 41 ∷ stop_round ∷ [])

abbrev watches : List WatchRound
watches =
    record { stopping = false; now = some 5; watch = watch_ready false (some end_of_pipe) } ∷ []

abbrev rounds : List WaitRound
rounds =
    record { waited = still_there; disturbed = false }
    ∷ record { waited = gone 256; disturbed = false }
    ∷ []

abbrev effects : List Effect
effects = reply 0 0 ∷ wait_child ∷ kill_group ∷ reply 0 256 ∷ []

executes : watch_loop 10 watches ≡ some executed
unfolding watch_loop
executes = refl

supervises : supervise 10 watches true rounds ≡ some effects
unfolding supervise
supervises = refl

there_works : still_there ≢ wait_failed
there_works e = cc

gone_works : (status : ℕ) → gone status ≢ wait_failed
gone_works status e = cc

rounds-Works : Works rounds
rounds-Works = (there_works, (gone_works 256, tt))

supervise-IsEnded_example : IsEnded executed effects
supervise-IsEnded_example =
    supervise-IsEnded 10 watches true rounds executed effects rounds-Works executes supervises
