-- ===== src/WebSocket/SendText.antt =====
-- send_text of app/ws_shim.c, and the frames of RFC 6455 section 5.2 that it is one of.
use whitenoise_linux.Base.{
  ℕ, ◌+◌, ◌/◌, ◌%◌, ◌^◌, ◌<◌, List, [], ◌∷◌, ◌++◌, Bytes, Bool, true, false, not, Option, none,
  some, ltb, if◌then◌else◌, length, ◌≡◌, refl, ap₂, ◌∙◌, inl, inr, Bool-cases, append_assoc,
}
use whitenoise_linux.WebSocket.Socket.{Sent, send_all, send_all-sends}
use whitenoise_linux.WebSocket.Frame.{apply_mask}

-- The length as 2 or 8 bytes, highest first.
abbrev pub size_2 : ℕ → Bytes
size_2 n = n / 2 ^ 8 % 256 ∷ n % 256 ∷ []

abbrev pub size_8 : ℕ → Bytes
size_8 n =
    n / 2 ^ 56 % 256
    ∷ n / 2 ^ 48 % 256
    ∷ n / 2 ^ 40 % 256
    ∷ n / 2 ^ 32 % 256
    ∷ n / 2 ^ 24 % 256
    ∷ n / 2 ^ 16 % 256
    ∷ n / 2 ^ 8 % 256
    ∷ n % 256
    ∷ []

-- hdr, without the mask: 0x81, then 0x80 | n or 0x80 | 126 or 0x80 | 127 and the length.
unfoldable pub text_header : ℕ → Bytes
text_header n =
    if ltb n 126
    then 129 ∷ (128 + n) ∷ []
    else if ltb n 65536
    then 129 ∷ 254 ∷ size_2 n
    else 129 ∷ 255 ∷ size_8 n

-- The end of send_text, by what sending the header came to.
then_body : Bytes → Bytes × Bool × List Sent → Bytes × Bool × List Sent
then_body body (wire, false, rest) = (wire, false, rest)
then_body body (wire, true, rest) =
    let sent = send_all rest body in (wire ++ sent.0, sent.1, sent.2)

-- send_text: what the socket has taken, and whether the call succeeded. `mask` are the four bytes of
-- rand(), `memory` says that malloc gave the body.
unfoldable pub send_text : Bytes → Bool → Bytes → List Sent → Bytes × Bool × List Sent
unfolding then_body
send_text mask memory msg sends =
    if not memory
    then ([], false, sends)
    else then_body (apply_mask mask 0 msg) (send_all sends (text_header (length msg) ++ mask))

-- A frame: whether it is the last of its message, its opcode, its mask and its payload.
pub record Piece : Type 0 where
  pub last : Bool
  pub op : ℕ
  pub mask : Option Bytes
  pub body : Bytes

abbrev pub IsMask : Option Bytes → Type 0
IsMask none = Unit {0}
IsMask (some mask) = length mask ≡ 4

pub record IsPiece (p : Piece) : Type 0 where
  pub op_fits : p.op < 16
  pub size_fits : length p.body < 2 ^ 64
  pub mask_fits : IsMask p.mask

abbrev pub mask_bit : Option Bytes → ℕ
mask_bit none = 0
mask_bit (some mask) = 128

abbrev pub is_masked : Option Bytes → Bool
is_masked none = false
is_masked (some mask) = true

abbrev pub mask_bytes : Option Bytes → Bytes
mask_bytes none = []
mask_bytes (some mask) = mask

abbrev pub masked_body : Option Bytes → Bytes → Bytes
masked_body none body = body
masked_body (some mask) body = apply_mask mask 0 body

-- The seven bits of the length, and the bytes that follow them.
abbrev pub short_size : ℕ → ℕ
short_size n = if ltb n 126 then n else if ltb n 65536 then 126 else 127

abbrev pub long_size : ℕ → Bytes
long_size n = if ltb n 126 then [] else if ltb n 65536 then size_2 n else size_8 n

abbrev pub first_byte : Bool → ℕ → ℕ
first_byte last op = (if last then 128 else 0) + op

-- The bytes of a frame.
unfoldable pub encode : Piece → Bytes
encode p =
    first_byte p.last p.op
    ∷ (mask_bit p.mask + short_size (length p.body))
    ∷ (long_size (length p.body) ++ (mask_bytes p.mask ++ masked_body p.mask p.body))

abbrev pub text_piece : Bytes → Bytes → Piece
text_piece mask msg = record { last = true; op = 1; mask = some mask; body = msg }

text_header_lem :
    (n : ℕ) (rest : Bytes)
    → text_header n ++ rest ≡ 129 ∷ (128 + short_size n) ∷ (long_size n ++ rest)
unfolding text_header
text_header_lem n rest = elim (Bool-cases (ltb n 126)) [
  | inl short ↦ rw short refl
  | inr h ↦ elim (Bool-cases (ltb n 65536)) [ inl e ↦ rw (h, e) refl | inr e ↦ rw (h, e) refl ]
]

then_body-sends :
    (body wire : Bytes) (x : Bytes × Bool × List Sent)
    → (then_body body x).1 ≡ true
    → ((x.1 ≡ true) → x.0 ≡ wire)
    → (then_body body x).0 ≡ wire ++ body
unfolding then_body
then_body-sends body wire (w, false, rest) e h = cc
then_body-sends body wire (w, true, rest) e h =
    ap₂ (λ (a b : Bytes). a ++ b) (h refl) (send_all-sends rest body e)

-- When send_text succeeds, the socket has taken one masked text frame that is the whole message.
pub send_text-encode :
    (mask msg : Bytes) (memory : Bool) (sends : List Sent)
    → (send_text mask memory msg sends).1 ≡ true
    → (send_text mask memory msg sends).0 ≡ encode (text_piece mask msg)
unfolding send_text encode
send_text-encode mask msg false sends e = cc
send_text-encode mask msg true sends e =
    then_body-sends (apply_mask mask 0 msg) (text_header (length msg) ++ mask) _ e
      (send_all-sends sends (text_header (length msg) ++ mask))
    ∙ append_assoc (text_header (length msg)) mask (apply_mask mask 0 msg)
    ∙ text_header_lem (length msg) (mask ++ apply_mask mask 0 msg)
