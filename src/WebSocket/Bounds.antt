-- ===== src/WebSocket/Bounds.antt =====
-- recv_message of app/ws_shim.c ends, and stays inside its buffer.
use whitenoise_linux.Base.{
  ℕ, zero, suc, ◌+◌, ◌-◌, ◌≤◌, ◌<◌, List, [], ◌∷◌, Bytes, Bool, true, false, Option, none, some,
  ltb, ◌==◌, if◌then◌else◌, length, ◌≡◌, refl, ap, arith, inl, inr, Bool-cases, Option-cases,
  length-drop, length-take, length-append,
}
use mathlib.Core.Option.{some-injective}
use whitenoise_linux.WebSocket.Socket.{Event, recv_all, stream, recv_all-some}
use whitenoise_linux.WebSocket.Frame.{
  Header, and_then, read_number, read_size, read_mask, read_header, apply_mask, drain, keep,
  read_payload, recv_frame, Received, closed, message, unfinished, recv_turns, recv_message,
}

abbrev left_size : List Event → ℕ
left_size es = length (stream es)

recv_all-shrinks :
    (es left : List Event) (n : ℕ) (d : Bytes)
    → recv_all es n ≡ some (d, left)
    → (left_size left + n ≡ left_size es) × (length d ≡ n)
recv_all-shrinks es left n d e =
    let (enough, read, rest) = recv_all-some es left n d e in
    (
      omega (arith, ap length rest, length-drop n (stream es)),
      omega (arith, ap length read, length-take n (stream es)),
    )

-- A chain that gives a value had one from each of its steps.
pub and_then-some {ℓ κ} :
    {A : Type ℓ} {B : Type κ} (x : Option (A × List Event)) (k : A → List Event → Option B) (b : B)
    → and_then x k ≡ some b
    → (a : A) × (left : List Event) × (x ≡ some (a, left)) × (k a left ≡ some b)
unfolding and_then
and_then-some none k b e = cc
and_then-some (some (a, left)) k b e = (a, left, refl, e)

left_of {ℓ} :
    {A : Type ℓ} (a b : A) (left left' : List Event)
    → ◌≡◌ {A = Option (A × List Event)} (some (a, left)) (some (b, left'))
    → left_size left ≡ left_size left'
left_of {A = A} a b left left' e = ap (λ p. size_left p) e
  where
    size_left : Option (A × List Event) → ℕ
    size_left none = 0
    size_left (some (n, l)) = left_size l

read_number-shrinks :
    (count : ℕ) (es left : List Event) (m : ℕ)
    → read_number count es ≡ some (m, left)
    → left_size left ≤ left_size es
unfolding read_number
read_number-shrinks count es left m e =
    let (d, left', read, rest) = and_then-some _ _ (m, left) e in
    omega (arith, (recv_all-shrinks es left' count d read).0, left_of _ _ _ _ rest)

read_size-shrinks :
    (n : ℕ) (es left : List Event) (m : ℕ)
    → read_size n es ≡ some (m, left)
    → left_size left ≤ left_size es
unfolding read_size
read_size-shrinks n es left m e = elim (Bool-cases (n == 126)) [
  | inl short ↦ read_number-shrinks 2 es left m (rw short at e)
  | inr h ↦ elim (Bool-cases (n == 127)) [
    | inl long ↦ read_number-shrinks 8 es left m (rw (h, long) at e)
    | inr k ↦ omega (arith, left_of _ _ _ _ (rw (h, k) at e))
  ]
]

read_mask-shrinks :
    (masked : Bool) (es left : List Event) (mask : Bytes)
    → read_mask masked es ≡ some (mask, left)
    → left_size left ≤ left_size es
unfolding read_mask
read_mask-shrinks true es left mask e = omega (arith, recv_all-shrinks es left 4 mask e)
read_mask-shrinks false es left mask e = omega (arith, left_of _ _ _ _ e)

-- A header takes two bytes at least.
read_header-shrinks :
    (es left : List Event) (h : Header)
    → read_header es ≡ some (h, left)
    → left_size left + 2 ≤ left_size es
unfolding read_header
read_header-shrinks es left h e =
    let (d, es₁, read, e₁) = and_then-some _ _ (h, left) e in
    let (n, es₂, size, e₂) = and_then-some _ _ (h, left) e₁ in
    let (mask, es₃, masked, e₃) = and_then-some _ _ (h, left) e₂ in
    omega (
      arith,
      (recv_all-shrinks es es₁ 2 d read).0,
      read_size-shrinks _ es₁ es₂ n size,
      read_mask-shrinks _ es₂ es₃ mask masked,
      left_of _ _ _ _ e₃,
    )

drain-shrinks :
    (turns : ℕ) (es left : List Event) (n : ℕ)
    → drain turns es n ≡ some left
    → left_size left ≤ left_size es
unfolding drain
drain-shrinks zero es left n e = omega (arith, ap left_size (some-injective _ _ e))
drain-shrinks (suc turns) es left n e = elim (Bool-cases (n == 0)) [
  | inl h ↦ omega (arith, ap left_size (some-injective es left (rw h at e)))
  | inr h ↦
      let (d, es₁, read, e₁) =
        and_then-some (recv_all es (if ltb n 4096 then n else 4096))
          (λ d l. drain turns l (n - (if ltb n 4096 then n else 4096))) left (rw h at e) in
      omega (arith, (recv_all-shrinks es es₁ _ d read).0, drain-shrinks turns es₁ left _ e₁)
]

value_of {ℓ} :
    {A : Type ℓ} (a b : A) (left left' : List Event)
    → ◌≡◌ {A = Option (A × List Event)} (some (a, left)) (some (b, left'))
    → a ≡ b
value_of a b left left' e = ap (λ p. p.0) (some-injective _ _ e)

pub length-apply_mask : (mask : Bytes) (i : ℕ) (d : Bytes) → length (apply_mask mask i d) ≡ length d
unfolding apply_mask
length-apply_mask mask i [] = refl
length-apply_mask mask i (c ∷ d) = omega (arith, length-apply_mask mask (i + 1) d)

length-unmasked :
    (masked : Bool) (mask d : Bytes) → length (if masked then apply_mask mask 0 d else d) ≡ length d
length-unmasked true mask d = length-apply_mask mask 0 d
length-unmasked false mask d = refl

read_payload-shrinks :
    (capacity : ℕ) (acc acc' : Bytes) (h : Header) (es left : List Event)
    → read_payload capacity acc h es ≡ some (acc', left)
    → length acc ≤ capacity
    → (left_size left ≤ left_size es) × (length acc' ≤ capacity)
unfolding read_payload
read_payload-shrinks capacity acc acc' h es left e fits =
    elim (Bool-cases (keep h capacity (length acc))) [
      | inl kept ↦
          let (d, es₁, read, e₁) =
            and_then-some (recv_all es h.size) _ (acc', left) (rw kept at e) in
          let (less, size) = recv_all-shrinks es es₁ h.size d read in
          let held = ap (λ (b : Bytes). length b) (value_of _ _ _ _ e₁) in
          (
            omega (arith, less, left_of _ _ _ _ e₁),
            ground (
              arith,
              held,
              size,
              length-append acc (if h.masked then apply_mask h.mask 0 d else d),
              length-unmasked h.masked h.mask d,
            ),
          )
      | inr k ↦ elim (Option-cases (drain h.size es h.size)) [
        | inl bad ↦ cc (rw (k, bad) at e)
        | inr (l, good) ↦
            let e' : ◌≡◌ {A = Option (Bytes × List Event)} (some ([], l)) (some (acc', left)) =
              rw (k, good) at e in
            (
              omega (arith, drain-shrinks h.size es l h.size good, left_of _ _ _ _ e'),
              omega (arith, ap (λ (b : Bytes). length b) (value_of _ _ _ _ e')),
            )
      ]
    ]

-- A turn takes two bytes at least, and what it holds then still fits.
recv_frame-shrinks :
    (capacity : ℕ) (acc acc' : Bytes) (es left : List Event) (fin : Bool)
    → recv_frame capacity acc es ≡ some (fin, acc', left)
    → length acc ≤ capacity
    → (left_size left + 2 ≤ left_size es) × (length acc' ≤ capacity)
unfolding recv_frame
recv_frame-shrinks capacity acc acc' es left fin e fits =
    let (h, es₁, read, e₁) = and_then-some _ _ (fin, acc', left) e in
    elim (Bool-cases (h.op == 8)) [
      | inl close ↦ cc (rw close at e₁)
      | inr k ↦
          let (acc₁, es₂, payload, e₂) =
            and_then-some (read_payload capacity acc h es₁) (λ b l. some (h.fin, b, l))
              (fin, acc', left) (rw k at e₁) in
          let same = some-injective (h.fin, acc₁, es₂) (fin, acc', left) e₂ in
          let (less, held) = read_payload-shrinks capacity acc acc₁ h es₁ es₂ payload fits in
          (
            omega (
              arith,
              less,
              read_header-shrinks es es₁ h read,
              ap (λ (p : Bool × Bytes × List Event). left_size p.2) same,
            ),
            omega (arith, held, ap (λ (p : Bool × Bytes × List Event). length p.1) same),
          )
    ]

-- A message is no longer than the buffer, and takes bytes from the socket.
abbrev pub Fits : ℕ → ℕ → Received → Type 0
Fits capacity size closed = Unit {0}
Fits capacity size (message out left) = (length out ≤ capacity) × (length (stream left) + 2 ≤ size)
Fits capacity size unfinished = ⊥

Fits-fewer :
    (capacity size size' : ℕ) (x : Received)
    → size ≤ size'
    → Fits capacity size x
    → Fits capacity size' x
Fits-fewer capacity size size' closed h v = tt
Fits-fewer capacity size size' (message out left) h v = (v.0, omega arith)
Fits-fewer capacity size size' unfinished h v = v

recv_turns-Fits :
    (turns capacity : ℕ) (acc : Bytes) (es : List Event)
    → length acc ≤ capacity
    → length (stream es) < turns
    → Fits capacity (left_size es) (recv_turns turns capacity acc es)
unfolding recv_turns
recv_turns-Fits zero capacity acc es fits enough = absurd (omega arith)
recv_turns-Fits (suc turns) capacity acc es fits enough =
    turn (λ acc' left. recv_turns-Fits turns capacity acc' left) (recv_frame capacity acc es)
      (λ fin acc' left e. recv_frame-shrinks capacity acc acc' es left fin e fits)
  where
    turn :
        ((acc' : Bytes) (left : List Event)
          → length acc' ≤ capacity
          → length (stream left) < turns
          → Fits capacity (left_size left) (recv_turns turns capacity acc' left))
        → (x : Option (Bool × Bytes × List Event))
        → ((fin : Bool) (acc' : Bytes) (left : List Event)
            → x ≡ some (fin, acc', left)
            → (left_size left + 2 ≤ left_size es) × (length acc' ≤ capacity))
        → Fits capacity (left_size es) (elim x [
          | none ↦ closed
          | some (fin, acc', left) ↦
              if fin then message acc' left else recv_turns turns capacity acc' left
        ])
    turn later none small = tt
    turn later (some (true, acc', left)) small =
        let (less, held) = small true acc' left refl in (held, less)
    turn later (some (false, acc', left)) small =
        let (less, held) = small false acc' left refl in
        Fits-fewer capacity (left_size left) (left_size es) (recv_turns turns capacity acc' left)
          (omega arith) (later acc' left held (omega arith))

-- recv_message ends, within as many turns as there are bytes and one more; what it holds fits the
-- buffer, and a message takes at least two bytes from the socket, whatever the relay sends.
pub recv_message-Fits :
    (turns capacity : ℕ) (es : List Event)
    → length (stream es) < turns
    → Fits capacity (length (stream es)) (recv_message turns capacity es)
unfolding recv_message
recv_message-Fits turns capacity es enough =
    recv_turns-Fits turns capacity [] es (omega arith) enough
