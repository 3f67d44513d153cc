-- ===== src/Decoder/Reply/Filled.antt =====
-- What a reply in the course of arriving holds: `Filled r s` says that the bytes `s` have been
-- read, that each stands in its place, and that the next read stays inside the arrays.
use whitenoise_linux.Base.{
  ℕ, ◌+◌, ◌-◌, ◌≤◌, ◌<◌, Bytes, false, some, length, take, drop, ◌≡◌, ◌⊎◌, arith,
}
use whitenoise_linux.Decoder.Wire.{u32, image_dim_max, model_output_max, pdf_pages_max}
use whitenoise_linux.Decoder.Reply.{
  Kind, pdf, Reply, Place, in_header, in_page, in_pixels, in_extra, image_buffer, pixel_bytes,
}
use whitenoise_linux.Decoder.Reply.Header.{IsGood, IsRaster, page_prefix}

-- The lent array has room for the largest reply; a page is never read into a lent array.
abbrev pub Lent : Kind → Reply → Type 0
Lent pdf r = r.borrowed ≡ false
Lent _ r = (r.borrowed ≡ false) ⊎ ((b : Bytes) × (r.pixels ≡ some b) × (r.cap ≤ length b))

-- Less than a header has arrived.
pub record AtHeader (k : Kind) (r : Reply) (s : Bytes) : Type 0 where
  pub kind_is : r.kind ≡ k
  pub counted : r.received ≡ length s
  pub short : length s < 16
  pub no_bytes : r.bytes ≡ 0
  pub small : r.dimension ≤ image_dim_max
  pub cap_small : r.cap ≤ model_output_max
  pub header_size : length r.header ≡ 16
  pub page_size : length r.page_header ≡ 4
  pub prefix : take (length s) r.header ≡ s
  pub lent : Lent k r

-- The header of a page is accepted, and its page count is not complete.
pub record AtPage (r : Reply) (s : Bytes) : Type 0 where
  pub kind_is : r.kind ≡ pdf
  pub counted : r.received ≡ length s
  pub long : 16 ≤ length s
  pub short : length s < 20
  pub accepted : IsRaster pdf r
  pub cap_small : r.cap ≤ model_output_max
  pub header_is : r.header ≡ take 16 s
  pub page_size : length r.page_header ≡ 4
  pub prefix : take (length s - 16) r.page_header ≡ drop 16 s

-- All that precedes the pixels.
abbrev pub head_size : Kind → ℕ
head_size k = 16 + page_prefix k

-- The page count of a page's reply: it names a document that has the page asked for.
abbrev pub Paged : Kind → Reply → Bytes → Type 0
Paged pdf r s =
    (0 < r.count)
    × (r.count ≤ pdf_pages_max)
    × (r.index < r.count)
    × (r.count ≡ u32 r.page_header 0)
    × (r.page_header ≡ take 4 (drop 16 s))
Paged _ r s = Unit {0}

-- The payload is arriving in memory that has room for it.
pub record AtPixels (k : Kind) (r : Reply) (s : Bytes) (b : Bytes) : Type 0 where
  pub kind_is : r.kind ≡ k
  pub counted : r.received ≡ length s
  pub long : head_size k ≤ length s
  pub within : length s ≤ 16 + r.bytes
  pub accepted : IsGood k r
  pub cap_small : r.cap ≤ model_output_max
  pub header_is : r.header ≡ take 16 s
  pub paged : Paged k r s
  pub pixels_are : r.pixels ≡ some b
  pub room : r.bytes ≤ length b + page_prefix k
  pub prefix : take (length s - head_size k) b ≡ drop (head_size k) s

pub data Filled (k : Kind) (r : Reply) (s : Bytes) : Type 0 where
  at_header : AtHeader k r s → Filled k r s
  at_page : k ≡ pdf → AtPage r s → Filled k r s
  at_pixels : (b : Bytes) → AtPixels k r s b → Filled k r s

-- `n` bytes may be written at the place.
abbrev pub Fits : Place → ℕ → Reply → Type 0
Fits (in_header o) n r = o + n ≤ length r.header
Fits (in_page o) n r = o + n ≤ length r.page_header
Fits (in_pixels o) n r = (b : Bytes) × (r.pixels ≡ some b) × (o + n ≤ length b)
Fits in_extra n r = n ≡ 1

-- The bytes of an accepted payload, a page's count included, fit uint32_t with the count.
pub good_bytes : (k : Kind) (r : Reply) → IsGood k r → r.bytes ≤ r.cap + page_prefix k
good_bytes pdf r v = omega (arith, v.payload, v.pixels_fit)
good_bytes _ r v = omega arith

pub prefix_bytes : (k : Kind) (r : Reply) → IsGood k r → page_prefix k ≤ r.bytes
prefix_bytes pdf r v = omega (arith, v.payload)
prefix_bytes _ r v = omega arith

pub pixel_bytes_lem :
    (k : Kind) (r : Reply)
    → r.kind ≡ k
    → IsGood k r
    → r.cap ≤ model_output_max
    → pixel_bytes r + page_prefix k ≡ r.bytes
pixel_bytes_lem pdf r e v c = ground (arith, good_bytes pdf r v, prefix_bytes pdf r v)
pixel_bytes_lem _ r e v c = ground arith

-- Whatever has arrived, the next read has at least one byte to fill and stays inside its array.
pub image_buffer-Fits :
    (k : Kind) (r : Reply) (s : Bytes)
    → Filled k r s
    → Fits (image_buffer r).0 (image_buffer r).1 r × (0 < (image_buffer r).1)
unfolding image_buffer
image_buffer-Fits k r s (at_header v) = ground arith
image_buffer-Fits k r s (at_page e v) = ground arith
image_buffer-Fits pdf r s (at_pixels b v) = (
  ground (arith, good_bytes pdf r v.accepted, prefix_bytes pdf r v.accepted),
  ground (arith, good_bytes pdf r v.accepted),
)
image_buffer-Fits _ r s (at_pixels b v) = ground arith
