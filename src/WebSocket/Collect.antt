-- ===== src/WebSocket/Collect.antt =====
-- The loop of ws_query of app/ws_shim.c over the messages of a relay.
use whitenoise_linux.Base.{
  ℕ, zero, suc, ◌-◌, ◌≤◌, ◌<◌, List, [], Bytes, Bool, true, false, Option, none, some, leb,
  if◌then◌else◌, length, ◌≡◌, refl, arith, inl,
}
use whitenoise_linux.WebSocket.Socket.{Event, stream}
use whitenoise_linux.WebSocket.Frame.{Received, closed, message, unfinished, recv_message}
use whitenoise_linux.WebSocket.Bounds.{Fits, recv_message-Fits}
use whitenoise_linux.WebSocket.Query.{
  event_lines, ws_compact_json, fetched, running, as_line, Turn, ends, goes_on, took_message,
  collect,
}
use whitenoise_linux.WebSocket.Compact.{ws_compact_json-IsCompact}
use whitenoise_linux.WebSocket.Lines.{
  compact-le, Final, Collected, Collected-Final, Keeps, took_message-Keeps,
}

abbrev Later : ℕ → ℕ → ℕ → ℕ → Type 0
Later capacity max_events steps turns =
    (out : Bytes) (events : ℕ) (result : Option ℕ) (es : List Event)
    → Collected capacity events out result
    → events < max_events
    → length (stream es) < steps
    → length (stream es) < turns
    → Final capacity max_events
        (collect event_lines max_events capacity steps turns out events result es)

module _ (capacity max_events steps turns : ℕ) (later : Later capacity max_events steps turns) where
  after_turn :
      (x : Turn) (left : List Event)
      → Keeps capacity max_events x
      → length (stream left) < steps
      → length (stream left) < turns
      → Final capacity max_events (elim x [
        | ends r out' ↦ fetched r out'
        | goes_on out' events' result' ↦
            collect event_lines max_events capacity steps turns out' events' result' left
      ])
  after_turn (ends r out') left v enough more = v
  after_turn (goes_on out' events' result') left (v, h) enough more =
      later out' events' result' left v h enough more

  after_message :
      (x : Received) (out : Bytes) (events : ℕ) (result : Option ℕ) (es : List Event)
      → Collected capacity events out result
      → events < max_events
      → length (stream es) < steps
      → length (stream es) ≤ turns
      → 1 < capacity - length out
      → Fits (capacity - length out - 1) (length (stream es)) x
      → Final capacity max_events (elim x [
        | closed ↦ fetched result out
        | unfinished ↦ running
        | message m left ↦
            elim (took_message event_lines max_events out events result (as_line event_lines m)) [
              | ends r out' ↦ fetched r out'
              | goes_on out' events' result' ↦
                  collect event_lines max_events capacity steps turns out' events' result' left
            ]
      ])
  unfolding ws_compact_json
  after_message closed out events result es v h enough more space fits =
      Collected-Final capacity events max_events out result v (omega arith)
  after_message unfinished out events result es v h enough more space fits = fits
  after_message (message m left) out events result es v h enough more space (fits, less) =
      after_turn (took_message event_lines max_events out events result (as_line event_lines m))
        left
        (took_message-Keeps capacity max_events events out (as_line event_lines m) result v h
          (omega (arith, compact-le false false m)) (ws_compact_json-IsCompact m))
        (omega arith) (omega arith)

  in_room :
      (full : Bool) (out : Bytes) (events : ℕ) (result : Option ℕ) (es : List Event)
      → leb (capacity - length out) 1 ≡ full
      → Collected capacity events out result
      → events < max_events
      → length (stream es) < steps
      → length (stream es) ≤ turns
      → Final capacity max_events (elim (if full then none else some (capacity - length out - 1)) [
        | none ↦ fetched result out
        | some available ↦ elim (recv_message steps available es) [
          | closed ↦ fetched result out
          | unfinished ↦ running
          | message m left ↦
              elim (took_message event_lines max_events out events result (as_line event_lines m)) [
                | ends r out' ↦ fetched r out'
                | goes_on out' events' result' ↦
                    collect event_lines max_events capacity steps turns out' events' result' left
              ]
        ]
      ])
  in_room true out events result es e v h enough more =
      Collected-Final capacity events max_events out result v (omega arith)
  in_room false out events result es e v h enough more =
      after_message (recv_message steps (capacity - length out - 1) es) out events result es v h
        enough more (ground arith) (recv_message-Fits steps (capacity - length out - 1) es enough)

module _ (capacity max_events steps : ℕ) where
  collect-Final : (turns : ℕ) → Later capacity max_events steps turns
  unfolding collect
  collect-Final zero out events result es v h enough more = absurd (omega arith)
  collect-Final (suc turns) out events result es v h enough more =
      in_room capacity max_events steps turns (collect-Final turns) (leb (capacity - length out) 1)
        out events result es refl v h enough (omega arith)

  -- Collecting lines ends, within as many turns as there are bytes and one more. The buffer then
  -- holds at most `max_events` EVENT messages, each compact and followed by a new line, and fits; the
  -- result is its size, or -1 with the buffer empty.
  pub collect_lines :
      (turns : ℕ) (es : List Event)
      → 0 < max_events
      → length (stream es) < steps
      → length (stream es) < turns
      → Final capacity max_events (collect event_lines max_events capacity steps turns [] 0 none es)
  collect_lines turns es some_event enough more =
      collect-Final turns [] 0 none es
        (record {
          messages = [];
          joined = refl;
          marked = tt;
          counted = refl;
          fits = omega arith;
          result_is = inl (refl, refl);
        })
        some_event enough more
