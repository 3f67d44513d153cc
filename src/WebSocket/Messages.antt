-- ===== src/WebSocket/Messages.antt =====
-- recv_message of app/ws_shim.c on whole messages, fragmented or not.
use whitenoise_linux.Base.{
  ℕ, zero, suc, ◌+◌, ◌-◌, ◌≤◌, ◌<◌, ◌^◌, List, [], ◌∷◌, ◌++◌, Bytes, Bool, true, false, Option,
  none, some, ltb, ◌==◌, if◌then◌else◌, length, take, drop, ◌≡◌, ◌≢◌, refl, sym, ap, ◌∙◌, arith,
  ◌⊎◌, inl, inr, Bool-cases, append_assoc, append-nil, take-append-drop, length-append, length-take,
  length-drop,
}
use whitenoise_linux.WebSocket.Socket.{Event, stream, recv_all_exact, Sent}
use whitenoise_linux.WebSocket.Frame.{
  and_then, apply_mask, drain, keep, read_payload, recv_frame, message, recv_turns, recv_message,
}
use whitenoise_linux.WebSocket.SendText.{
  Piece, IsPiece, masked_body, is_masked, encode, text_piece, send_text, send_text-encode,
}
use whitenoise_linux.WebSocket.Bounds.{length-apply_mask}
use whitenoise_linux.WebSocket.RoundTrip.{
  apply_mask_twice, read_header_exact, header_of, mask_or_zeros,
}

no_bytes : (d rest : Bytes) → length d ≡ 0 → d ++ rest ≡ rest
no_bytes [] rest h = refl
no_bytes (c ∷ d) rest h = absurd (omega arith)

drain_exact :
    (turns n : ℕ) (es : List Event) (d rest : Bytes)
    → n ≤ turns
    → length d ≡ n
    → stream es ≡ d ++ rest
    → (left : List Event) × (drain turns es n ≡ some left) × (stream left ≡ rest)
unfolding drain and_then
drain_exact zero n es d rest fits size e = (es, refl, e ∙ no_bytes d rest (omega arith))
drain_exact (suc turns) n es d rest fits size e = elim (Bool-cases (n == 0)) [
  | inl h ↦ (es, rw h refl, e ∙ no_bytes d rest (ground arith))
  | inr h ↦
      let step = if ltb n 4096 then n else 4096 in
      let (left, read, after) =
        recv_all_exact es (take step d) (drop step d ++ rest) step
          (ground (arith, length-take step d))
          (e
            ∙ ap (λ (t : Bytes). t ++ rest) (sym (take-append-drop step d))
            ∙ append_assoc (take step d) (drop step d) rest) in
      let (left', drained, after') =
        drain_exact turns (n - step) left (drop step d) rest (ground arith)
          (omega (arith, length-drop step d)) after in
      (left', rw (h, read) drained, after')
]

length-masked_body :
    (mask : Option Bytes) (body : Bytes) → length (masked_body mask body) ≡ length body
length-masked_body none body = refl
length-masked_body (some mask) body = length-apply_mask mask 0 body

unmasked :
    (mask : Option Bytes) (body : Bytes)
    → (if is_masked mask
        then apply_mask (mask_or_zeros mask) 0 (masked_body mask body)
        else masked_body mask body)
      ≡ body
unmasked none body = refl
unmasked (some mask) body = apply_mask_twice mask 0 body

-- What is held after a frame: its payload behind the bytes held, if it is kept.
abbrev pub held : ℕ → Bytes → Piece → Bytes
held capacity acc p = if keep (header_of p) capacity (length acc) then acc ++ p.body else []

read_payload_exact :
    (capacity : ℕ) (acc : Bytes) (p : Piece) (es : List Event) (rest : Bytes)
    → stream es ≡ masked_body p.mask p.body ++ rest
    → (left : List Event) × (read_payload capacity acc (header_of p) es
        ≡ some (held capacity acc p, left))
      × (stream left ≡ rest)
unfolding read_payload and_then
read_payload_exact capacity acc p es rest e =
    elim (Bool-cases (keep (header_of p) capacity (length acc))) [
      | inl kept ↦
          let (left, read, after) =
            recv_all_exact es (masked_body p.mask p.body) rest (length p.body)
              (length-masked_body p.mask p.body) e in
          (left, rw (kept, read, unmasked p.mask p.body) refl, after)
      | inr k ↦
          let (left, drained, after) =
            drain_exact (length p.body) (length p.body) es (masked_body p.mask p.body) rest
              (omega arith) (length-masked_body p.mask p.body) e in
          (left, rw (k, drained) refl, after)
    ]

-- A frame that the socket gives is read to its end and no further, whether it is kept or drained;
-- only a close frame ends the connection.
pub recv_frame_exact :
    (capacity : ℕ) (acc : Bytes) (p : Piece) (es : List Event) (rest : Bytes)
    → IsPiece p
    → p.op ≢ 8
    → stream es ≡ encode p ++ rest
    → (left : List Event) × (recv_frame capacity acc es ≡ some (p.last, held capacity acc p, left))
      × (stream left ≡ rest)
unfolding recv_frame and_then
recv_frame_exact capacity acc p es rest v unclosed e =
    let (es₁, read, after) = read_header_exact p es rest v e in
    let (left, payload, after₁) = read_payload_exact capacity acc p es₁ rest after in
    let go : (p.op == 8) ≡ false = ground arith in (left, rw (read, go, payload) refl, after₁)

-- A message: text or continuation frames, of which the last, and no other, is marked as the last.
abbrev IsData : Piece → Type 0
IsData p = IsPiece p × ((p.op ≡ 1) ⊎ (p.op ≡ 0))

abbrev pub IsMessage : List Piece → Type 0
IsMessage [] = ⊥
IsMessage (p ∷ []) = IsData p × (p.last ≡ true)
IsMessage (p ∷ (p' ∷ ps)) = IsData p × (p.last ≡ false) × IsMessage (p' ∷ ps)

abbrev pub encode_all : List Piece → Bytes
encode_all [] = []
encode_all (p ∷ ps) = encode p ++ encode_all ps

abbrev pub payloads : List Piece → Bytes
payloads [] = []
payloads (p ∷ ps) = p.body ++ payloads ps

held_data :
    (capacity : ℕ) (acc : Bytes) (p : Piece)
    → ((p.op ≡ 1) ⊎ (p.op ≡ 0))
    → length acc + length p.body ≤ capacity
    → held capacity acc p ≡ acc ++ p.body
held_data capacity acc p text fits = rw (kept text) refl
  where
    kept : ((p.op ≡ 1) ⊎ (p.op ≡ 0)) → keep (header_of p) capacity (length acc) ≡ true
    kept (inl e) = rw e (ground arith)
    kept (inr e) = rw e (ground arith)

recv_data :
    (capacity : ℕ) (acc : Bytes) (p : Piece) (es : List Event) (rest : Bytes)
    → IsData p
    → length acc + length p.body ≤ capacity
    → stream es ≡ encode p ++ rest
    → (left : List Event) × (recv_frame capacity acc es ≡ some (p.last, acc ++ p.body, left))
      × (stream left ≡ rest)
recv_data capacity acc p es rest (v, text) fits e =
    let (left, read, after) = recv_frame_exact capacity acc p es rest v (unclosed text) e in
    (
      left,
      read ∙ ap (λ (t : Bytes). some (p.last, t, left)) (held_data capacity acc p text fits),
      after,
    )
  where
    unclosed : ((p.op ≡ 1) ⊎ (p.op ≡ 0)) → p.op ≢ 8
    unclosed (inl e) = ground arith
    unclosed (inr e) = ground arith

last_turn :
    (turns capacity : ℕ) (acc b : Bytes) (es left : List Event) (fin : Bool)
    → recv_frame capacity acc es ≡ some (fin, b, left)
    → fin ≡ true
    → recv_turns (suc turns) capacity acc es ≡ message b left
unfolding recv_turns
last_turn turns capacity acc b es left fin e h = rw (e, h, recv_turns) refl

next_turn :
    (turns capacity : ℕ) (acc b : Bytes) (es left : List Event) (fin : Bool)
    → recv_frame capacity acc es ≡ some (fin, b, left)
    → fin ≡ false
    → recv_turns (suc turns) capacity acc es ≡ recv_turns turns capacity b left
unfolding recv_turns
next_turn turns capacity acc b es left fin e h = rw (e, h, recv_turns) refl

recv_turns_message :
    (ps : List Piece) (turns capacity : ℕ) (acc : Bytes) (es : List Event) (rest : Bytes)
    → IsMessage ps
    → length ps ≤ turns
    → length acc + length (payloads ps) ≤ capacity
    → stream es ≡ encode_all ps ++ rest
    → (left : List Event) × (recv_turns turns capacity acc es ≡ message (acc ++ payloads ps) left)
      × (stream left ≡ rest)
recv_turns_message [] turns capacity acc es rest v enough fits e = absurd v
recv_turns_message (p ∷ ps) zero capacity acc es rest v enough fits e = absurd (omega arith)
recv_turns_message (p ∷ []) (suc turns) capacity acc es rest (v, last) enough fits e =
    let (left, read, after) =
      recv_data capacity acc p es rest v (omega (arith, length-append p.body []))
        (e ∙ append_assoc (encode p) [] rest) in
    (
      left,
      last_turn turns capacity acc (acc ++ p.body) es left p.last read last
          ∙ ap (λ (t : Bytes). message (acc ++ t) left) (sym (append-nil p.body)),
      after,
    )
recv_turns_message (p ∷ (p' ∷ ps)) (suc turns) capacity acc es rest (v, more, vs) enough fits e =
    let others = payloads (p' ∷ ps) in
    let (left, read, after) =
      recv_data capacity acc p es (encode_all (p' ∷ ps) ++ rest) v
        (omega (arith, length-append p.body others))
        (e ∙ append_assoc (encode p) (encode_all (p' ∷ ps)) rest) in
    let (left', reads, after') =
      recv_turns_message (p' ∷ ps) turns capacity (acc ++ p.body) left rest vs (omega arith)
        (omega (arith, length-append p.body others, length-append acc p.body)) after in
    (
      left',
      next_turn turns capacity acc (acc ++ p.body) es left p.last read more
          ∙ reads
          ∙ ap (λ (t : Bytes). message t left') (append_assoc acc p.body others),
      after',
    )

-- A message that fits the buffer is read as its payloads, unmasked and joined, and exactly its bytes
-- are taken from the socket, however it is cut into frames and however the socket cuts its bytes.
pub recv_message-payloads :
    (ps : List Piece) (turns capacity : ℕ) (es : List Event) (rest : Bytes)
    → IsMessage ps
    → length ps ≤ turns
    → length (payloads ps) ≤ capacity
    → stream es ≡ encode_all ps ++ rest
    → (left : List Event) × (recv_message turns capacity es ≡ message (payloads ps) left)
      × (stream left ≡ rest)
unfolding recv_message
recv_message-payloads ps turns capacity es rest v enough fits e =
    recv_turns_message ps turns capacity [] es rest v enough (omega arith) e

-- A message that send_text has sent in full is read back by recv_message, if it fits the buffer.
pub recv_message-send_text :
    (mask msg : Bytes) (memory : Bool) (sends : List Sent) (turns capacity : ℕ) (es : List Event)
    (rest : Bytes)
    → length mask ≡ 4
    → length msg < 2 ^ 64
    → length msg ≤ capacity
    → 1 ≤ turns
    → (send_text mask memory msg sends).1 ≡ true
    → stream es ≡ (send_text mask memory msg sends).0 ++ rest
    → (left : List Event) × (recv_message turns capacity es ≡ message msg left)
      × (stream left ≡ rest)
unfolding recv_message
recv_message-send_text mask msg memory sends turns capacity es rest four short fits enough sent e =
    let frame = text_piece mask msg in
    let v : IsPiece frame = record { op_fits = omega arith; size_fits = short; mask_fits = four } in
    let (left, read, after) =
      recv_turns_message (frame ∷ []) turns capacity [] es rest ((v, inl refl), refl) enough
        (omega (arith, length-append msg []))
        (e
          ∙ ap (λ (t : Bytes). t ++ rest)
              (send_text-encode mask msg memory sends sent ∙ sym (append-nil (encode frame)))) in
    (left, read ∙ ap (λ (t : Bytes). message t left) (append-nil msg), after)
