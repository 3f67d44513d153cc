-- ===== src/WebSocket/RoundTrip.antt =====
-- recv_message of app/ws_shim.c reads the frames of RFC 6455.
use whitenoise_linux.Base.{
  ℕ, ◌+◌, ◌%◌, ◌^◌, ◌<◌, List, [], ◌∷◌, ◌++◌, Bytes, Bool, true, false, Option, none, some, ltb,
  ◌==◌, length, replicate, get_or, ◌≡◌, refl, ap, ap₂, ◌∙◌, arith, inl, inr, Bool-cases,
  append_assoc,
}
use whitenoise_linux.Base.Bits.{bit_xor_twice}
use whitenoise_linux.WebSocket.Socket.{Event, stream, recv_all_exact}
use whitenoise_linux.WebSocket.Frame.{
  Header, and_then, big_endian, read_number, read_size, read_mask, read_header, apply_mask,
  high_bit,
}
use whitenoise_linux.WebSocket.SendText.{
  size_2, size_8, Piece, IsMask, IsPiece, mask_bit, mask_bytes, is_masked, masked_body, short_size,
  long_size, first_byte, encode,
}

big_endian-size_2 : (n : ℕ) → n < 2 ^ 16 → big_endian 0 (size_2 n) ≡ n
unfolding big_endian
big_endian-size_2 n h = omega arith

big_endian-size_8 : (n : ℕ) → n < 2 ^ 64 → big_endian 0 (size_8 n) ≡ n
unfolding big_endian
big_endian-size_8 n h = omega arith

pub apply_mask_twice :
    (mask : Bytes) (i : ℕ) (d : Bytes) → apply_mask mask i (apply_mask mask i d) ≡ d
unfolding apply_mask
apply_mask_twice mask i [] = refl
apply_mask_twice mask i (c ∷ d) =
    ap₂ (λ (a : ℕ) (b : Bytes). a ∷ b) (bit_xor_twice c (get_or mask (i % 4) 0))
      (apply_mask_twice mask (i + 1) d)

-- A step that succeeds on the bytes there are, and leaves `rest`.
abbrev pub Steps {ℓ} : {A : Type ℓ} → Option (A × List Event) → A → Bytes → Type ℓ
Steps x a rest = (left : List Event) × (x ≡ some (a, left)) × (stream left ≡ rest)

read_number_exact :
    (count : ℕ) (es : List Event) (d rest : Bytes)
    → length d ≡ count
    → stream es ≡ d ++ rest
    → Steps (read_number count es) (big_endian 0 d) rest
unfolding read_number and_then
read_number_exact count es d rest size e =
    let (left, read, after) = recv_all_exact es d rest count size e in (left, rw read refl, after)

read_size_exact :
    (n : ℕ) (es : List Event) (rest : Bytes)
    → n < 2 ^ 64
    → stream es ≡ long_size n ++ rest
    → Steps (read_size (short_size n) es) n rest
unfolding read_size
read_size_exact n es rest h e = elim (Bool-cases (ltb n 126)) [
  | inl short ↦
      (es, rw short (rw (no n 126 (ground arith), no n 127 (ground arith)) refl), rw short at e)
  | inr k ↦ elim (Bool-cases (ltb n 65536)) [
    | inl short ↦
        let (left, read, after) =
          read_number_exact 2 es (size_2 n) rest refl (rw (k, short) at e) in
        (
          left,
          rw (k, short)
              (read ∙ ap (λ (m : ℕ). some (m, left)) (big_endian-size_2 n (ground arith))),
          after,
        )
    | inr long ↦
        let (left, read, after) = read_number_exact 8 es (size_8 n) rest refl (rw (k, long) at e) in
        (left, rw (k, long) (read ∙ ap (λ (m : ℕ). some (m, left)) (big_endian-size_8 n h)), after)
  ]
]
  where
    no : (a b : ℕ) → a < b → (a == b) ≡ false
    no a b h = ground arith

abbrev pub mask_or_zeros : Option Bytes → Bytes
mask_or_zeros none = replicate 4 0
mask_or_zeros (some mask) = mask

read_mask_exact :
    (mask : Option Bytes) (es : List Event) (rest : Bytes)
    → IsMask mask
    → stream es ≡ mask_bytes mask ++ rest
    → Steps (read_mask (is_masked mask) es) (mask_or_zeros mask) rest
unfolding read_mask
read_mask_exact none es rest h e = (es, refl, e)
read_mask_exact (some mask) es rest h e = recv_all_exact es mask rest 4 h e

-- The header that the bytes of a frame announce.
abbrev pub header_of : Piece → Header
header_of p = record {
  fin = p.last;
  op = p.op;
  masked = is_masked p.mask;
  size = length p.body;
  mask = mask_or_zeros p.mask;
}

short_size-lt : (n : ℕ) → short_size n < 128
short_size-lt n = ground arith

first_byte-fin : (last : Bool) (op : ℕ) → op < 16 → high_bit (first_byte last op) ≡ last
first_byte-fin true op h = ground arith
first_byte-fin false op h = ground arith

first_byte-op : (last : Bool) (op : ℕ) → op < 16 → first_byte last op % 2 ^ 4 ≡ op
first_byte-op true op h = omega arith
first_byte-op false op h = omega arith

second_byte-masked :
    (mask : Option Bytes) (n : ℕ) → n < 128 → high_bit (mask_bit mask + n) ≡ is_masked mask
second_byte-masked none n h = ground arith
second_byte-masked (some mask) n h = ground arith

second_byte-size : (mask : Option Bytes) (n : ℕ) → n < 128 → (mask_bit mask + n) % 2 ^ 7 ≡ n
second_byte-size none n h = omega arith
second_byte-size (some mask) n h = omega arith

pub read_header_exact :
    (p : Piece) (es : List Event) (rest : Bytes)
    → IsPiece p
    → stream es ≡ encode p ++ rest
    → Steps (read_header es) (header_of p) (masked_body p.mask p.body ++ rest)
unfolding read_header encode and_then
read_header_exact p es rest v e =
    let short = short_size (length p.body) in
    let body = masked_body p.mask p.body in
    let (es₁, read, after) =
      recv_all_exact es (first_byte p.last p.op ∷ (mask_bit p.mask + short) ∷ [])
        ((long_size (length p.body) ++ (mask_bytes p.mask ++ body)) ++ rest) 2 refl e in
    let (es₂, size, after₂) =
      read_size_exact (length p.body) es₁ ((mask_bytes p.mask ++ body) ++ rest) v.size_fits
        (after ∙ append_assoc (long_size (length p.body)) (mask_bytes p.mask ++ body) rest) in
    let (es₃, masked, after₃) =
      read_mask_exact p.mask es₂ (body ++ rest) v.mask_fits
        (after₂ ∙ append_assoc (mask_bytes p.mask) body rest) in
    (
      es₃,
      rw
          (
            read,
            second_byte-size p.mask short (short_size-lt (length p.body)),
            second_byte-masked p.mask short (short_size-lt (length p.body)),
            first_byte-fin p.last p.op v.op_fits,
            first_byte-op p.last p.op v.op_fits,
            size,
            masked,
          )
          refl,
      after₃,
    )
