-- ===== src/Decoder/Reply.antt =====
-- `struct image_reply` of app/decoder_ipc.c and the functions that fill it: where the next bytes
-- go, the check of the header, and the account of what has arrived.
pub mod Header
pub mod Filled
pub mod Arrive
pub mod Limits
pub mod Keeps
use whitenoise_linux.Base.{
  ℕ, zero, suc, ◌+◌, ◌-◌, ◌*◌, ◌/◌, ◌%◌, ◌^◌, ◌≤◌, ◌<◌, List, [], ◌∷◌, ◌++◌, Bytes, Bool, true,
  false, not, ◌&&◌, ◌||◌, Option, none, some, ltb, leb, ◌==◌, if◌then◌else◌, codes, same_bytes,
  length, take, drop, write_at,
}
use whitenoise_linux.Decoder.Wire.{
  image_header, u32, u32_mod, u64_mod, archive_count_max, pdf_dim_max, pdf_pages_max,
}

-- enum decoder_kind
pub data Kind : Type 0 where
  image archive pdf mesh model math : Kind

-- WnArchiveOp: WN_ARCHIVE_LIST = 0, WN_ARCHIVE_ENTRY = 1
pub data ArchiveOp : Type 0 where
  list_all one_entry : ArchiveOp

-- struct image_reply. The arrays are byte lists of the array's size; `pixels` is `none` for NULL.
pub record Reply : Type 0 where
  pub header : Bytes
  pub page_header : Bytes
  pub extra : ℕ
  pub pixels : Option Bytes
  pub received : ℕ
  pub bytes : ℕ
  pub width : ℕ
  pub height : ℕ
  pub dimension : ℕ
  pub cap : ℕ
  pub kind : Kind
  pub op : ArchiveOp
  pub index : ℕ
  pub count : ℕ
  pub target_height : ℕ
  pub sequence : ℕ
  pub borrowed : Bool

-- A place that the next bytes are read into: an offset in one of the arrays, or the spare byte.
pub data Place : Type 0 where
  in_header in_page in_pixels : ℕ → Place
  in_extra : Place

abbrev pub is_pdf : Kind → Bool
is_pdf pdf = true
is_pdf _ = false

-- reply->bytes - (reply->kind == DECODER_PDF ? 4u : 0u), in uint32_t arithmetic.
abbrev pub pixel_bytes : Reply → ℕ
pixel_bytes r = if is_pdf r.kind then (r.bytes + u32_mod - 4) % u32_mod else r.bytes

-- The last part of image_buffer: at most 65536 bytes of the pixels, or the spare byte.
pixel_buffer : Reply → ℕ → Place × ℕ
pixel_buffer r offset =
    if ltb offset (pixel_bytes r)
    then (
      in_pixels offset,
      (if ltb 65536 (pixel_bytes r - offset) then 65536 else pixel_bytes r - offset),
    )
    else (in_extra, 1)

-- image_buffer: where to read to, and how many bytes at most.
unfoldable pub image_buffer : Reply → Place × ℕ
unfolding pixel_buffer
image_buffer r =
    if ltb r.received image_header
    then (in_header r.received, image_header - r.received)
    else if is_pdf r.kind
    then if ltb (r.received - image_header) 4
      then (in_page (r.received - image_header), 4 - (r.received - image_header))
      else pixel_buffer r (r.received - image_header - 4)
    else pixel_buffer r (r.received - image_header)

-- What recv() does at the place that image_buffer returned.
write_pixels : Option Bytes → ℕ → Bytes → Option Bytes
write_pixels none offset d = none
write_pixels (some b) offset d = some (write_at b offset d)

unfoldable pub store : Reply → Place → Bytes → Reply
unfolding write_pixels
store r (in_header offset) d = record r { header = write_at r.header offset d }
store r (in_page offset) d = record r { page_header = write_at r.page_header offset d }
store r (in_pixels offset) d = record r { pixels = write_pixels r.pixels offset d }
store r in_extra [] = r
store r in_extra (c ∷ d) = record r { extra = c }

-- memcmp(header, magic, 4) == 0
abbrev pub has_magic : Reply → Bytes → Bool
has_magic r magic = same_bytes (take 4 r.header) magic

abbrev pub is_some {ℓ} : {A : Type ℓ} → Option A → Bool
is_some none = false
is_some (some a) = true

-- The checks of decoder_header for a mesh or a model; `expected` are the two words behind the magic.
opaque_ok : Reply → Bytes → ℕ → ℕ → Bool
opaque_ok r magic first second = not (
    not (has_magic r magic)
    || not (u32 r.header 4 == first)
    || not (u32 r.header 8 == second)
    || ltb r.cap r.bytes)

-- The checks for an archive, `count` being set.
list_ok : Reply → Bool
list_ok r = not (
    ltb archive_count_max r.count
    || not (u32 r.header 8 == 0)
    || ltb r.bytes (r.count * 17 % u64_mod)
    || (r.count == 0 && not (r.bytes == 0)))

archive_ok : Reply → Bool
unfolding list_ok
archive_ok r = if not (has_magic r (codes "ARO1")) || ltb r.cap r.bytes then false else elim r.op [
  | list_all ↦ list_ok r
  | one_entry ↦ not (not (r.count == 0) || not (u32 r.header 8 == r.index))
]

abbrev raster_magic : Kind → Bytes
raster_magic pdf = codes "PDO1"
raster_magic math = codes "MAO1"
raster_magic _ = codes "WNO1"

-- (uint64_t)reply->width * reply->height * 4
abbrev pub expected : Reply → ℕ
expected r = r.width * r.height * 4 % u64_mod

-- The checks for an image, a formula or a page, `width` and `height` being set.
raster_ok : Kind → Reply → Bool
raster_ok k r = not (
    not (has_magic r (raster_magic k))
    || r.width == 0
    || r.height == 0
    || ltb r.dimension r.width
    || ltb (if is_pdf k then pdf_dim_max else r.dimension) r.height
    || (is_pdf k && not (r.target_height == 0) && ltb r.target_height r.height)
    || ltb r.cap (expected r)
    || not ((expected r + (if is_pdf k then 4 else 0)) % u64_mod == r.bytes))

-- The fields that decoder_header reads from the header.
abbrev pub set_bytes : Reply → Reply
set_bytes r = record r { bytes = u32 r.header 12 }

abbrev pub set_count : Reply → Reply
set_count r = record (set_bytes r) { count = u32 r.header 4 }

abbrev pub set_size : Reply → Reply
set_size r = record (set_bytes r) { width = u32 r.header 4; height = u32 r.header 8 }

-- `malloc n` is the memory of a call malloc(n): its bytes as found, or NULL.
module _ (malloc : ℕ → Option Bytes) where
  -- The end of decoder_header: memory for the payload, unless the caller lent it.
  allocate : Reply → Reply × Bool
  allocate r =
      let r' =
        (if r.borrowed
          then r
          else record r { pixels = malloc (if r.bytes == 0 then 1 else r.bytes) }) in
      (r', is_some r'.pixels)

  abbrev checked : Reply → Bool → Reply × Bool
  checked r good = if good then allocate r else (r, false)

  -- decoder_header: the changed reply, and whether it was accepted.
  unfoldable pub decoder_header_in : Kind → Reply → Reply × Bool
  unfolding allocate opaque_ok archive_ok raster_ok
  decoder_header_in mesh r = checked (set_bytes r) (opaque_ok (set_bytes r) (codes "MDO1") 1 0)
  decoder_header_in model r =
      checked (set_bytes r) (opaque_ok (set_bytes r) (codes "FBO1") r.index r.sequence)
  decoder_header_in archive r = checked (set_count r) (archive_ok (set_count r))
  decoder_header_in pdf r = (set_size r, raster_ok pdf (set_size r))
  decoder_header_in image r = checked (set_size r) (raster_ok image (set_size r))
  decoder_header_in math r = checked (set_size r) (raster_ok math (set_size r))

  unfoldable pub decoder_header : Reply → Reply × Bool
  unfolding decoder_header_in
  decoder_header r = decoder_header_in r.kind r

  -- The page count of a PDF reply is checked before memory is asked for.
  unfoldable pub page_counted : Reply → Reply × Bool
  page_counted r =
      let r₁ = record r { count = u32 r.page_header 0 } in
      if r₁.count == 0 || ltb pdf_pages_max r₁.count || leb r₁.count r.index
      then (r₁, false)
      else let r₂ = record r₁ { pixels = malloc ((r.bytes + u32_mod - 4) % u32_mod) } in
        (r₂, is_some r₂.pixels)

  -- image_received: `size` more bytes have been stored.
  unfoldable pub image_received : Reply → ℕ → Reply × Bool
  image_received r size =
      if leb (image_header + r.bytes) r.received && leb image_header r.received
      then (r, false)
      else let r₁ = record r { received = r.received + size } in
        if r₁.received == image_header
        then decoder_header r₁
        else if is_pdf r.kind && (r₁.received == image_header + 4)
        then page_counted r₁
        else (r₁, true)

-- image_complete
unfoldable pub image_complete : Reply → Bool
image_complete r = is_some r.pixels && (r.received == image_header + r.bytes)
