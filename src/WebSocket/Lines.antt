-- ===== src/WebSocket/Lines.antt =====
-- What wn_ws_fetch_many of app/ws_shim.c collects.
use whitenoise_linux.Base.{
  ℕ, ◌+◌, ◌≤◌, ◌<◌, List, [], ◌∷◌, ◌++◌, Bytes, Bool, true, false, Option, none, some, ◌==◌,
  if◌then◌else◌, length, All, ◌≡◌, refl, sym, ap, ◌∙◌, arith, ◌⊎◌, inl, inr, Bool-cases,
  append_assoc, length-append,
}
use whitenoise_linux.WebSocket.Compact.{IsCompact}
use whitenoise_linux.WebSocket.Query.{
  event_lines, dropped, next_quoted, next_escaped, compact, ws_compact_json, starts_with,
  event_mark, eose_mark, closed_mark, Fetched, fetched, running, Turn, ends, goes_on, took_message,
}

compact-dropped :
    (quoted escaped : Bool) (c : ℕ) (cs : Bytes)
    → dropped quoted c ≡ true
    → compact quoted escaped (c ∷ cs) ≡ compact quoted escaped cs
unfolding compact
compact-dropped quoted escaped c cs e = rw e refl

compact_kept :
    (quoted escaped : Bool) (c : ℕ) (cs : Bytes)
    → dropped quoted c ≡ false
    → compact quoted escaped (c ∷ cs)
      ≡ c ∷ compact (next_quoted quoted escaped c) (next_escaped quoted escaped c) cs
unfolding compact
compact_kept quoted escaped c cs e = rw e refl

compact_nil : (quoted escaped : Bool) → compact quoted escaped [] ≡ []
unfolding compact
compact_nil quoted escaped = refl

-- Compacting drops bytes at most.
pub compact-le : (quoted escaped : Bool) (m : Bytes) → length (compact quoted escaped m) ≤ length m
compact-le quoted escaped [] = omega (arith, ap length (compact_nil quoted escaped))
compact-le quoted escaped (c ∷ cs) = elim (Bool-cases (dropped quoted c)) [
  | inl e ↦ rw (compact-dropped quoted escaped c cs e) (omega (arith, compact-le quoted escaped cs))
  | inr e ↦
      let q = next_quoted quoted escaped c in
      let k = next_escaped quoted escaped c in
      rw (compact_kept quoted escaped c cs e) (omega (arith, compact-le q k cs))
]

compact_again :
    (quoted escaped : Bool) (m : Bytes)
    → compact quoted escaped (compact quoted escaped m) ≡ compact quoted escaped m
compact_again quoted escaped [] = ap (compact quoted escaped) (compact_nil quoted escaped)
compact_again quoted escaped (c ∷ cs) = elim (Bool-cases (dropped quoted c)) [
  | inl e ↦ rw (compact-dropped quoted escaped c cs e) (compact_again quoted escaped cs)
  | inr e ↦
      let q = next_quoted quoted escaped c in
      let k = next_escaped quoted escaped c in
      rw (compact_kept quoted escaped c cs e)
        (compact_kept quoted escaped c (compact q k cs) e ∙ ap (◌∷◌ c) (compact_again q k cs))
]

-- Compacting a message that is compact changes nothing.
pub ws_compact_json_twice : (m : Bytes) → ws_compact_json (ws_compact_json m) ≡ ws_compact_json m
unfolding ws_compact_json
ws_compact_json_twice m = compact_again false false m

-- An EVENT message without a blank or a new line outside its strings.
abbrev pub IsEvent : Bytes → Type 0
IsEvent m = (starts_with event_mark m ≡ true) × IsCompact m

abbrev pub join : List Bytes → Bytes
join [] = []
join (m ∷ ms) = m ++ (10 ∷ join ms)

join-append : (ms : List Bytes) (m : Bytes) → join (ms ++ m ∷ []) ≡ join ms ++ (m ++ 10 ∷ [])
join-append [] m = refl
join-append (x ∷ ms) m =
    ap (λ (t : Bytes). x ++ (10 ∷ t)) (join-append ms m)
    ∙ sym (append_assoc x (10 ∷ join ms) (m ++ 10 ∷ []))

All-append : (ms : List Bytes) (m : Bytes) → All IsEvent ms → IsEvent m → All IsEvent (ms ++ m ∷ [])
All-append [] m h v = (v, tt)
All-append (x ∷ ms) m h v = (h.0, All-append ms m h.1 v)

-- The buffer holds EVENT messages, each with a new line behind it, and fits; the result is its size, or -1 while it is empty.
pub record Collected (capacity events : ℕ) (out : Bytes) (result : Option ℕ) : Type 0 where
  pub messages : List Bytes
  pub joined : out ≡ join messages
  pub marked : All IsEvent messages
  pub counted : length messages ≡ events
  pub fits : length out ≤ capacity
  pub result_is : ((result ≡ none) × (events ≡ 0)) ⊎ (result ≡ some (length out))

-- The end of a query: at most `max_events` messages, which fit the buffer, and a result that is their
-- size, zero without any, or -1 with the buffer empty.
abbrev pub Final : ℕ → ℕ → Fetched → Type 0
Final capacity max_events (fetched result out) =
    (messages : List Bytes) × (out ≡ join messages)
    × All IsEvent messages
    × (length messages ≤ max_events)
    × (length out ≤ capacity)
    × (((result ≡ none) × (messages ≡ [])) ⊎ (result ≡ some (length out)))
Final capacity max_events running = ⊥

no_messages : (ms : List Bytes) → length ms ≡ 0 → ms ≡ []
no_messages [] e = refl
no_messages (m ∷ ms) e = absurd (omega arith)

pub Collected-Final :
    (capacity events max_events : ℕ) (out : Bytes) (result : Option ℕ)
    → Collected capacity events out result
    → events ≤ max_events
    → Final capacity max_events (fetched result out)
Collected-Final capacity events max_events out result v h =
    (v.messages, v.joined, v.marked, omega (arith, v.counted), v.fits, settle v.result_is)
  where
    settle :
        ((result ≡ none) × (events ≡ 0)) ⊎ (result ≡ some (length out))
        → ((result ≡ none) × (v.messages ≡ [])) ⊎ (result ≡ some (length out))
    settle (inl (e, none_yet)) = inl (e, no_messages v.messages (omega (arith, v.counted)))
    settle (inr e) = inr e

Collected-done :
    (capacity events : ℕ) (out : Bytes) (result : Option ℕ)
    → Collected capacity events out result
    → Collected capacity events out (some (length out))
Collected-done capacity events out result v = record {
  messages = v.messages;
  joined = v.joined;
  marked = v.marked;
  counted = v.counted;
  fits = v.fits;
  result_is = inr refl;
}

Collected-added :
    (capacity events : ℕ) (out m : Bytes) (result : Option ℕ)
    → Collected capacity events out result
    → IsEvent m
    → length out + length m + 1 ≤ capacity
    → Collected capacity
        (events + 1)
        (out ++ (m ++ 10 ∷ []))
        (some (length (out ++ (m ++ 10 ∷ []))))
Collected-added capacity events out m result v mark fits = record {
  messages = v.messages ++ m ∷ [];
  joined = ap (λ (t : Bytes). t ++ (m ++ 10 ∷ [])) v.joined ∙ sym (join-append v.messages m);
  marked = All-append v.messages m v.marked mark;
  counted = omega (arith, v.counted, length-append v.messages (m ∷ []));
  fits = omega (arith, length-append out (m ++ 10 ∷ []), length-append m (10 ∷ []));
  result_is = inr refl;
}

-- What a turn leaves.
abbrev pub Keeps : ℕ → ℕ → Turn → Type 0
Keeps capacity max_events (ends result out) = Final capacity max_events (fetched result out)
Keeps capacity max_events (goes_on out events result) =
    Collected capacity events out result × (events < max_events)

Keeps-if :
    (capacity max_events : ℕ) (b : Bool) (x y : Turn)
    → (b ≡ true → Keeps capacity max_events x)
    → (b ≡ false → Keeps capacity max_events y)
    → Keeps capacity max_events (if b then x else y)
Keeps-if capacity max_events true x y h k = h refl
Keeps-if capacity max_events false x y h k = k refl

pub took_message-Keeps :
    (capacity max_events events : ℕ) (out m : Bytes) (result : Option ℕ)
    → Collected capacity events out result
    → events < max_events
    → length out + length m + 1 ≤ capacity
    → IsCompact m
    → Keeps capacity max_events (took_message event_lines max_events out events result m)
unfolding took_message
took_message-Keeps capacity max_events events out m result v h fits compacted =
    Keeps-if capacity max_events (starts_with event_mark m) _ _
      (λ mark.
        let v' = Collected-added capacity events out m result v (mark, compacted) fits in
        Keeps-if capacity max_events ((events + 1) == max_events) _ _
          (λ e. Collected-Final capacity (events + 1) max_events _ _ v' (omega arith))
          (λ e. (v', ground arith)))
      (λ e.
        Keeps-if capacity max_events (starts_with eose_mark m) _ _
          (λ eose.
            Collected-Final capacity events max_events _ _
              (Collected-done capacity events out result v) (omega arith))
          (λ f.
            Keeps-if capacity max_events (starts_with closed_mark m) _ _
              (λ close. Collected-Final capacity events max_events _ _ v (omega arith))
              (λ g. (v, h))))
