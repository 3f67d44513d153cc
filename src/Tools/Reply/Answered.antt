-- ===== src/Tools/Reply/Answered.antt =====
-- A run of a tool from end to end (app/tool_broker.c): what wn_tools_run returns is what the tool
-- wrote and how it ended.
use whitenoise_linux.Base.Results.{ok}
use whitenoise_linux.Base.{
  ℕ, ap₂, ◌≤◌, ◌<◌, List, [], ◌∷◌, ◌++◌, Bytes, true, false, Option, none, some, ◌==◌, length, All,
  ◌≡◌, refl, sym, ap, ◌∙◌, arith, append-nil, if_true,
}
use whitenoise_linux.Broker.Strings.{IsText}
use whitenoise_linux.Broker.Channel.{Turn, write_turns, write_turns-prefix, Channel, IsPatient}
use whitenoise_linux.Tools.Request.{
  Opening, Broker, Run, open_request, admit, tool_curl, tool_save_dialog, text_of, proxy_length,
  output_limit,
}
use whitenoise_linux.Tools.Request.Packed.{given}
use whitenoise_linux.Tools.Request.Sent.{meant_run, meant_environment, sent-closed}
use whitenoise_linux.Tools.Request.Agreement.{admit-open_request}
use whitenoise_linux.Tools.Pump.{Turned, going, over}
use whitenoise_linux.Tools.Pump.Completes.{
  GoesWell, output_reads, error_reads, IsComplete, pump-IsComplete,
}
use whitenoise_linux.Tools.Reply.{
  Response, exited, Wait, World, Served, response_out, wait_child, finish, run_tool, serve_request,
  stored, wn_tools_run, answer, waited_for, serve_admitted,
}
use whitenoise_linux.Tools.Reply.Received.{if_written, read_response-answer}

-- A world in which a tool runs: it writes at most 128 MiB to its output and to its errors, no call
-- fails, the loop has the turns that this takes, and it ends with the status `n`.
pub record Runs (n : ℕ) (w : World) : Type 0 where
  pub output_pipe : w.output_error ≡ none
  pub errors_pipe : w.errors_error ≡ none
  pub forked : w.fork_error ≡ none
  pub output_fits : length w.tool_output ≤ output_limit
  pub errors_fit : length w.tool_errors ≤ output_limit
  pub polled : All GoesWell w.polls
  pub output_read : length w.tool_output < output_reads w.polls
  pub errors_read : length w.tool_errors < error_reads w.polls
  pub waited : wait_child w.waits ≡ some (0, exited n)

-- The answer to a run that went well.
abbrev pub done_response : ℕ → Bytes → Bytes → Response
done_response n output errors = record {
  error = 0;
  status = n;
  output = length output;
  errors = length errors;
}

abbrev pub done : ℕ → Bytes → Bytes → Served
done n output errors = record {
  response = done_response n output errors;
  output = output;
  errors = errors;
  killed = false;
}

finish-done :
    (A B : Bytes) (n : ℕ) (waits : List Wait) (turned : Turned)
    → IsComplete A B turned
    → wait_child waits ≡ some (0, exited n)
    → finish turned waits ≡ some (done n A B)
unfolding finish
finish-done A B n waits (going a b) h e = absurd h
finish-done A B n waits (over failed a b) (none_failed, a_whole, b_whole) e =
    ap (waited_for failed a b) e ∙ rw (none_failed, a_whole, b_whole) refl

run_tool-done :
    (n : ℕ) (w : World) → Runs n w → run_tool w ≡ some (done n w.tool_output w.tool_errors)
unfolding run_tool
run_tool-done n w h =
    let loop =
      pump-IsComplete w.tool_output w.tool_errors w.polls h.output_fits h.errors_fit h.polled
        h.output_read h.errors_read in
    rw (h.output_pipe, h.errors_pipe, h.forked)
      (finish-done w.tool_output w.tool_errors n w.waits _ loop h.waited)

serve_request-admitted :
    (b : Broker) (c : Channel) (world : Run → World) (r : Run)
    → admit b c ≡ ok r
    → serve_request b c world ≡ run_tool (world r)
unfolding serve_request
serve_request-admitted b c world r e = ap (serve_admitted world) e

-- The three writes of an answer go out whole.
pub record Answers (t₀ t₁ t₂ : List Turn) (s : Served) : Type 0 where
  pub header : (write_turns t₀ (response_out s.response)).0 ≡ true
  pub output : (write_turns t₁ s.output).0 ≡ true
  pub errors : (write_turns t₂ s.errors).0 ≡ true

write_whole :
    (turns : List Turn) (d : Bytes) → (write_turns turns d).0 ≡ true → (write_turns turns d).1 ≡ d
write_whole turns d e =
    let (left, whole, all) = write_turns-prefix turns d in
    sym (append-nil _) ∙ ap (λ (t : Bytes). (write_turns turns d).1 ++ t) (sym (all e)) ∙ whole

answer-whole :
    (t₀ t₁ t₂ : List Turn) (s : Served)
    → Answers t₀ t₁ t₂ s
    → answer t₀ t₁ t₂ s ≡ response_out s.response ++ (s.output ++ s.errors)
unfolding answer
answer-whole t₀ t₁ t₂ s h =
    if_true (write_turns t₀ (response_out s.response)).0 _ _ h.header
    ∙ ap₂ (λ (a b : Bytes). a ++ b) (write_whole t₀ (response_out s.response) h.header)
        (ap₂ (λ (a b : Bytes). a ++ b) (write_whole t₁ s.output h.output)
          (write_whole t₂ s.errors h.errors))

-- A run from end to end. The caller's arguments and proxy are texts, the operation is one of the
-- four, and open_request keeps its end of the channel; the program is there, and the world in which
-- the broker runs it, with exactly these arguments, is one where it runs. Then the broker ends with an answer
-- of what the tool wrote and its status. Where its three writes go out whole, in whatever pieces, and
-- the caller reads what they put into the channel, in whatever pieces, with memory for it, wn_tools_run
-- returns 0 with these same bytes and the status.
pub wn_tools_run-serve_request :
    (o : Opening) (b : Broker) (c back : Channel) (operation : ℕ) (ss : List Bytes)
    (proxy : Option Bytes) (world : Run → World) (r : Run) (n : ℕ) (t₀ t₁ t₂ : List Turn)
    → All IsText ss
    → IsText (text_of proxy)
    → tool_curl ≤ operation
    → operation ≤ tool_save_dialog
    → (open_request o operation (given ss) proxy).closed ≡ 1 ∷ []
    → IsPatient c
    → c.stream ≡ (open_request o operation (given ss) proxy).sent
    → meant_run b operation ss
        (meant_environment b.environment (proxy_length proxy) (text_of proxy))
      ≡ ok r
    → Runs n (world r)
    → n < 256
    → Answers t₀ t₁ t₂ (done n (world r).tool_output (world r).tool_errors)
    → IsPatient back
    → back.stream ≡ answer t₀ t₁ t₂ (done n (world r).tool_output (world r).tool_errors)
    → (serve_request b c world ≡ some (done n (world r).tool_output (world r).tool_errors))
      × (wn_tools_run o operation (given ss) proxy back true true ≡ record {
        result = 0;
        output = if_written (world r).tool_output;
        errors = if_written (world r).tool_errors;
        exit_code = n;
      })
unfolding wn_tools_run stored
wn_tools_run-serve_request o b c back operation ss proxy world r n t₀ t₁ t₂ ts t low high kept pc e
      meant runs small answers pb eb =
    let admitted = admit-open_request o b c operation ss proxy ts t low high kept pc e ∙ meant in
    let (q, checked, sent, fine) = sent-closed o operation ss proxy kept in
    let served = done n (world r).tool_output (world r).tool_errors in
    let received_back =
      read_response-answer back (done_response n (world r).tool_output (world r).tool_errors)
        (world r).tool_output (world r).tool_errors pb (eb ∙ answer-whole t₀ t₁ t₂ served answers)
        (omega arith) (omega arith) refl refl runs.output_fits runs.errors_fit in
    (
      serve_request-admitted b c world r admitted ∙ run_tool-done n (world r) runs,
      if_true ((open_request o operation (given ss) proxy).error == 0) _ _ (ground (arith, fine))
          ∙ received_back,
    )
