-- ===== src/WebSocket/Whole.antt =====
-- wn_ws_fetch_many of app/ws_shim.c from end to end.
use whitenoise_linux.Base.{
  ℕ, zero, suc, ◌+◌, ◌-◌, ◌*◌, ◌/◌, ◌≤◌, ◌<◌, List, [], ◌++◌, Bytes, Bool, true, false, not, ◌&&◌,
  ◌||◌, Option, none, some, ltb, leb, ◌==◌, if◌then◌else◌, codes, same_bytes, length, take, drop,
  ◌≡◌, refl, sym, ap, ap₂, subst, ◌∙◌, arith, ◌⊎◌, inl, inr, Bool-cases, append_assoc,
  length-append, take-append-drop, length-write_at, take-write_at, take_all, append-nil,
}
use native.Mathlib.Nat.{le-div_iff_mul-le, div-lt_iff_lt-mul, mul_comm}
use mathlib.Core.Option.{some-injective}
use whitenoise_linux.WebSocket.Socket.{Event, stream, recv_all, recv_all-some, Sent, send_all}
use whitenoise_linux.WebSocket.SendText.{send_text}
use whitenoise_linux.WebSocket.Query.{event_lines, starts_with, Fetched}
use whitenoise_linux.WebSocket.Lines.{Final}
use whitenoise_linux.WebSocket.Collect.{collect_lines}
use whitenoise_linux.WebSocket.Fetch.{
  after_scheme, host_of, path_of, handshake, blank_line, read_response, Connection, query_refused,
  minus_one, after_response, upgrade, query_at, ws_query, wn_ws_fetch_many, sticker_write,
}

-- The answer that is read, and what is left behind it, are all that the socket gave: no byte of
-- the frames is lost.
pub read_response_splits :
    (space : ℕ) (resp resp' : Bytes) (es left : List Event)
    → read_response space resp es ≡ some (resp', left)
    → resp' ++ stream left ≡ resp ++ stream es
unfolding read_response
read_response_splits zero resp resp' es left e = cc
read_response_splits (suc space) resp resp' es left e =
    step (recv_all es 1) refl (λ d l. read_response_splits space (resp ++ d) resp' l left) e
  where
    step :
        (x : Option (Bytes × List Event))
        → recv_all es 1 ≡ x
        → ((d : Bytes) (l : List Event)
            → read_response space (resp ++ d) l ≡ some (resp', left)
            → resp' ++ stream left ≡ (resp ++ d) ++ stream l)
        → ◌≡◌ {A = Option (Bytes × List Event)}
            (elim x [
              | none ↦ none
              | some (d, l) ↦
                  if leb 4 (length (resp ++ d))
                    && same_bytes (drop (length (resp ++ d) - 4) (resp ++ d)) blank_line
                  then some (resp ++ d, l)
                  else read_response space (resp ++ d) l
            ])
            (some (resp', left))
        → resp' ++ stream left ≡ resp ++ stream es
    step none same later e = cc
    step (some (d, l)) same later e =
        let (enough, read, rest) = recv_all-some es l 1 d same in
        let whole : (resp ++ d) ++ stream l ≡ resp ++ stream es =
          append_assoc resp d (stream l)
          ∙ ap (λ (t : Bytes). resp ++ t)
              (ap₂ (λ (a b : Bytes). a ++ b) read rest ∙ take-append-drop 1 (stream es)) in
        elim (Bool-cases (
          leb 4 (length (resp ++ d))
          && same_bytes (drop (length (resp ++ d) - 4) (resp ++ d)) blank_line)) [
            | inl found ↦
                subst (λ (p : Bytes × List Event). p.0 ++ stream p.1 ≡ resp ++ stream es)
                  (some-injective (resp ++ d, l) (resp', left) (rw found at e)) whole
            | inr no_end ↦ later d l (rw no_end at e) ∙ whole
          ]

-- A query with no bound on its turns but the bytes that the relay sends ends with messages that fit.
Final-minus_one : (capacity max_events : ℕ) → Final capacity max_events minus_one
Final-minus_one capacity max_events = ([], refl, tt, omega arith, omega arith, inl (refl, refl))

Final-if :
    (capacity max_events : ℕ) (b : Bool) (x y : Fetched)
    → (b ≡ true → Final capacity max_events x)
    → (b ≡ false → Final capacity max_events y)
    → Final capacity max_events (if b then x else y)
Final-if capacity max_events true x y h k = h refl
Final-if capacity max_events false x y h k = k refl

module _ (c : Connection) (max_events capacity steps : ℕ) (some_event : 0 < max_events) where
  after_response-Final :
      (req : Bytes) (sends : List Sent) (x : Option (Bytes × List Event))
      → read_response 4095 [] c.events ≡ x
      → length (stream c.events) < steps
      → Final capacity max_events
          (after_response c event_lines max_events capacity steps req sends x)
  unfolding after_response
  after_response-Final req sends none e enough = Final-minus_one capacity max_events
  after_response-Final req sends (some (resp, left)) e enough =
      Final-if capacity max_events (starts_with (codes "HTTP/1.1 101") resp) _ minus_one
        (λ ok.
          Final-if capacity max_events (send_text c.mask c.memory req sends).1 _ minus_one
            (λ sent. collect_lines capacity max_events steps steps left some_event shorter shorter)
            (λ failed. Final-minus_one capacity max_events))
        (λ bad. Final-minus_one capacity max_events)
    where
      shorter : length (stream left) < steps
      shorter = omega (
        arith,
        ap length (read_response_splits 4095 [] resp c.events left e),
        length-append resp (stream left),
      )

  query_at-Final :
      (x : Option Bytes) (req : Bytes)
      → length (stream c.events) < steps
      → Final capacity max_events (query_at c event_lines max_events capacity steps x req)
  unfolding query_at upgrade
  query_at-Final none req enough = Final-minus_one capacity max_events
  query_at-Final (some rest) req enough =
      let hs = handshake (path_of rest) (host_of rest) c.key in
      Final-if capacity max_events
        (length (host_of rest) == 0 || ltb 250 (length (host_of rest)) || not c.connected) minus_one
        _ (λ bad. Final-minus_one capacity max_events)
        (λ ok.
          Final-if capacity max_events (leb 1536 (length hs) || not (send_all c.sends hs).1)
            minus_one _ (λ bad. Final-minus_one capacity max_events)
            (λ sent.
              after_response-Final req (send_all c.sends hs).2 (read_response 4095 [] c.events) refl
                enough))

-- wn_ws_fetch_many ends, whatever the relay sends: with -1 and an empty buffer, or with at most
-- `max_events` EVENT messages, each followed by a new line, which fit the buffer, and their size. A
-- message has blanks and new lines only where it has them inside a string, so that one whose strings
-- hold none is one line.
pub wn_ws_fetch_many-Final :
    (c : Connection) (steps capacity max_events : ℕ) (url req : Bytes)
    → length (stream c.events) < steps
    → Final capacity max_events (wn_ws_fetch_many c steps capacity max_events url req)
unfolding wn_ws_fetch_many ws_query
wn_ws_fetch_many-Final c steps capacity max_events url req enough =
    Final-if capacity max_events (query_refused capacity max_events) minus_one _
      (λ bad. Final-minus_one capacity max_events)
      (λ ok.
        query_at-Final c max_events capacity steps (ground arith) (after_scheme url) req enough)

abbrev pub Within : Bytes → ℕ → Bytes → ℕ → ℕ × Bytes × ℕ → Type 0
Within memory len bytes n (taken, memory', len') =
    (length memory' ≡ length memory)
    × (len' ≤ length memory)
    × (len' ≡ len + taken)
    × (take len' memory' ≡ take len memory ++ take taken bytes)
    × ((taken ≡ n) ⊎ ((taken ≡ 0) × (length memory - len < n)))

Within-if :
    (memory bytes : Bytes) (len n : ℕ) (b : Bool) (x y : ℕ × Bytes × ℕ)
    → (b ≡ true → Within memory len bytes n x)
    → (b ≡ false → Within memory len bytes n y)
    → Within memory len bytes n (if b then x else y)
Within-if memory bytes len n true x y h k = h refl
Within-if memory bytes len n false x y h k = k refl

chunk_fits :
    (space size count : ℕ)
    → (not (size == 0) && ltb (space / size) count) ≡ false
    → size * count ≤ space
chunk_fits space zero count e = omega arith
chunk_fits space (suc n) count e =
    let fits : count ≤ space / suc n = ground arith in
    let (below, _) = le-div_iff_mul-le {k = suc n} {x = count} {y = space} (omega arith) in
    omega (arith, below fits, mul_comm (suc n) count)

too_long :
    (space size count : ℕ)
    → (not (size == 0) && ltb (space / size) count) ≡ true
    → space < size * count
too_long space zero count e = absurd (ground arith)
too_long space (suc n) count e =
    let more : space / suc n < count = ground arith in
    let (above, _) = div-lt_iff_lt-mul {k = suc n} {x = space} {y = count} (omega arith) in
    omega (arith, above more, mul_comm (suc n) count)

-- sticker_write takes all of a chunk that fits behind the bytes held, or nothing, and never writes
-- past the buffer, although its size and count come from the network.
pub sticker_write-Within :
    (memory : Bytes) (len : ℕ) (bytes : Bytes) (size count : ℕ)
    → len ≤ length memory
    → length bytes ≡ size * count
    → Within memory len bytes (size * count) (sticker_write memory len bytes size count)
unfolding sticker_write
sticker_write-Within memory len bytes size count held size_is =
    Within-if memory bytes len (size * count)
      (not (size == 0) && ltb ((length memory - len) / size) count) _ _
      (λ long. (
        refl,
        held,
        omega arith,
        sym (append-nil (take len memory)),
        inr (refl, too_long (length memory - len) size count long),
      ))
      (λ short.
        let fits = chunk_fits (length memory - len) size count short in
        let all : take (size * count) bytes ≡ bytes = take_all (size * count) bytes (omega arith) in
        (
          length-write_at memory len (take (size * count) bytes) (omega (arith, ap length all)),
          omega arith,
          refl,
          take-write_at memory len (take (size * count) bytes) (len + size * count)
              (omega (arith, ap length all)) held,
          inl refl,
        ))
