-- ===== src/WebSocket/Frame.antt =====
-- One frame as recv_message of app/ws_shim.c reads it.
use whitenoise_linux.Base.{
  ℕ, zero, suc, ◌+◌, ◌-◌, ◌*◌, ◌/◌, ◌%◌, ◌^◌, List, [], ◌∷◌, ◌++◌, Bytes, Bool, true, false, ◌&&◌,
  ◌||◌, Option, none, some, leb, ltb, ◌==◌, if◌then◌else◌, length, replicate, get_or, bit_xor,
}
use whitenoise_linux.WebSocket.Socket.{Event, recv_all}

pub record Header : Type 0 where
  pub fin : Bool
  pub op : ℕ
  pub masked : Bool
  pub size : ℕ
  pub mask : Bytes

-- A step that may fail, and what follows it on the answers that are left.
unfoldable pub and_then {ℓ κ} :
    {A : Type ℓ} {B : Type κ} → Option (A × List Event) → (A → List Event → Option B) → Option B
and_then none next = none
and_then (some (a, left)) next = next a left

-- n = (n << 8) | e[i], byte by byte.
unfoldable pub big_endian : ℕ → Bytes → ℕ
big_endian n [] = n
big_endian n (c ∷ cs) = big_endian (n * 2 ^ 8 + c) cs

-- A number of `count` bytes that follows the two bytes of the header.
unfoldable pub read_number : ℕ → List Event → Option (ℕ × List Event)
read_number count es = and_then (recv_all es count) (λ e left. some (big_endian 0 e, left))

-- The length of the payload: 126 and 127 stand for one of 2 or 8 bytes.
unfoldable pub read_size : ℕ → List Event → Option (ℕ × List Event)
read_size n es =
    if n == 126 then read_number 2 es else if n == 127 then read_number 8 es else some (n, es)

unfoldable pub read_mask : Bool → List Event → Option (Bytes × List Event)
read_mask true es = recv_all es 4
read_mask false es = some (replicate 4 0, es)

-- h[0] & 0x80 and h[1] & 0x80
abbrev pub high_bit : ℕ → Bool
high_bit c = c / 2 ^ 7 % 2 == 1

-- The header: 2 bytes, the length that they announce, and the mask.
unfoldable pub read_header : List Event → Option (Header × List Event)
read_header es = and_then (recv_all es 2) (λ h es₁.
    and_then (read_size (get_or h 1 0 % 2 ^ 7) es₁) (λ n es₂.
      and_then (read_mask (high_bit (get_or h 1 0)) es₂) (λ mask es₃. some (
        record {
          fin = high_bit (get_or h 0 0);
          op = get_or h 0 0 % 2 ^ 4;
          masked = high_bit (get_or h 1 0);
          size = n;
          mask = mask;
        },
        es₃,
      ))))

-- b[i] ^= mask[i & 3], from index `i` on.
unfoldable pub apply_mask : Bytes → ℕ → Bytes → Bytes
apply_mask mask i [] = []
apply_mask mask i (c ∷ cs) = bit_xor c (get_or mask (i % 4) 0) ∷ apply_mask mask (i + 1) cs

-- The loop that drains `n` bytes, at most 4096 at a time; `n` turns are enough.
unfoldable pub drain : ℕ → List Event → ℕ → Option (List Event)
drain zero es n = some es
drain (suc turns) es n =
    if n == 0
    then some es
    else and_then (recv_all es (if ltb n 4096 then n else 4096))
        (λ d left. drain turns left (n - (if ltb n 4096 then n else 4096)))

-- keep: a text or continuation frame whose payload fits behind the `len` bytes held.
abbrev pub keep : Header → ℕ → ℕ → Bool
keep h capacity len = (h.op == 1 || h.op == 0) && leb h.size (capacity - len)

-- The part of a turn behind the header; `acc` are the bytes held so far.
unfoldable pub read_payload : ℕ → Bytes → Header → List Event → Option (Bytes × List Event)
read_payload capacity acc h es =
    if keep h capacity (length acc)
    then and_then (recv_all es h.size)
        (λ d left. some (acc ++ (if h.masked then apply_mask h.mask 0 d else d), left))
    else elim (drain h.size es h.size) [ none ↦ none | some left ↦ some ([], left) ]

-- One turn of the loop: whether the frame is the last, the bytes held, and the answers left; `none`
-- on close, an error or the deadline.
unfoldable pub recv_frame : ℕ → Bytes → List Event → Option (Bool × Bytes × List Event)
recv_frame capacity acc es = and_then (read_header es) (λ h left.
    if h.op == 8
    then none
    else and_then (read_payload capacity acc h left) (λ acc' rest. some (h.fin, acc', rest)))

-- The return value of recv_message: -1, the message (its length is what the code returns), or a
-- loop that is not done in the turns allowed.
pub data Received : Type 0 where
  closed : Received
  message : Bytes → List Event → Received
  unfinished : Received

unfoldable pub recv_turns : ℕ → ℕ → Bytes → List Event → Received
recv_turns zero capacity acc es = unfinished
recv_turns (suc turns) capacity acc es = elim (recv_frame capacity acc es) [
  | none ↦ closed
  | some (fin, acc', left) ↦ if fin then message acc' left else recv_turns turns capacity acc' left
]

-- recv_message
unfoldable pub recv_message : ℕ → ℕ → List Event → Received
recv_message turns capacity es = recv_turns turns capacity [] es
