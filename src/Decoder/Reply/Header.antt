-- ===== src/Decoder/Reply/Header.antt =====
-- decoder_header of app/decoder_ipc.c against an independent description of a good header.
use whitenoise_linux.Base.{
  ℕ, ◌+◌, ◌*◌, ◌≤◌, ◌<◌, Bytes, Bool, true, ◌&&◌, Option, ◌==◌, if◌then◌else◌, codes,
  same_bytes_iff, take, ◌≡◌, ◌↔◌, ◌⊎◌, refl, arith,
}
use whitenoise_linux.Decoder.Wire.{u32, pdf_dim_max, image_dim_max, archive_count_max}
use whitenoise_linux.Decoder.Reply.{
  Kind, image, archive, pdf, mesh, model, math, ArchiveOp, list_all, one_entry, Reply, raster_magic,
  expected, raster_ok, opaque_ok, archive_ok, set_bytes, set_count, set_size, decoder_header,
  is_some,
}

abbrev pub page_prefix : Kind → ℕ
page_prefix pdf = 4
page_prefix _ = 0

-- A page may not be taller than asked for, where a height was asked for.
abbrev pub PageFits : Kind → Reply → Type 0
PageFits pdf r = (r.height ≤ pdf_dim_max) × ((r.target_height ≡ 0) ⊎ (r.height ≤ r.target_height))
PageFits _ r = (r.height ≤ r.dimension) × Unit {0}

-- A picture within the limits that were asked for, with a payload of exactly its pixels.
pub record IsRaster (k : Kind) (r : Reply) : Type 0 where
  pub magic : take 4 r.header ≡ raster_magic k
  pub wide : 0 < r.width
  pub high : 0 < r.height
  pub width_fits : r.width ≤ r.dimension
  pub page_fits : PageFits k r
  pub pixels_fit : r.width * r.height * 4 ≤ r.cap
  pub payload : r.bytes ≡ r.width * r.height * 4 + page_prefix k

area_le : (w h : ℕ) → w ≤ 32768 → h ≤ 32768 → w * h ≤ 1073741824
area_le w h p q = grind arith

-- No product of an accepted picture wraps in uint64_t.
expected_lem :
    (r : Reply) → r.width ≤ 32768 → r.height ≤ 32768 → expected r ≡ r.width * r.height * 4
expected_lem r p q = omega (arith, area_le r.width r.height p q)

raster_ok-IsRaster :
    (k : Kind) (r : Reply) → r.dimension ≤ image_dim_max → raster_ok k r ≡ true → IsRaster k r
unfolding raster_ok
raster_ok-IsRaster pdf r fits h = ground (
  arith,
  expected_lem r,
  area_le r.width r.height,
  (same_bytes_iff (take 4 r.header) (raster_magic pdf)).0,
)
raster_ok-IsRaster _ r fits h = ground (
  arith,
  expected_lem r,
  area_le r.width r.height,
  (same_bytes_iff (take 4 r.header) (codes "WNO1")).0,
  (same_bytes_iff (take 4 r.header) (codes "MAO1")).0,
)

IsRaster-raster_ok :
    (k : Kind) (r : Reply) → r.dimension ≤ image_dim_max → IsRaster k r → raster_ok k r ≡ true
unfolding raster_ok
IsRaster-raster_ok pdf r fits v = ground (
  arith,
  expected_lem r,
  area_le r.width r.height,
  (same_bytes_iff (take 4 r.header) (codes "PDO1")).1,
)
IsRaster-raster_ok _ r fits v = ground (
  arith,
  expected_lem r,
  area_le r.width r.height,
  (same_bytes_iff (take 4 r.header) (codes "WNO1")).1,
  (same_bytes_iff (take 4 r.header) (codes "MAO1")).1,
)

-- The words of an archive reply: a list has room for each of its entries, and one entry has no count.
abbrev pub IsArchiveCount : ArchiveOp → Reply → Type 0
IsArchiveCount list_all r =
    (r.count ≤ archive_count_max)
    × (u32 r.header 8 ≡ 0)
    × (r.count * 17 ≤ r.bytes)
    × ((r.count ≡ 0) → (r.bytes ≡ 0))
IsArchiveCount one_entry r = (r.count ≡ 0) × (u32 r.header 8 ≡ r.index)

pub record IsArchive (o : ArchiveOp) (r : Reply) : Type 0 where
  pub magic : take 4 r.header ≡ codes "ARO1"
  pub fits : r.bytes ≤ r.cap
  pub counted : IsArchiveCount o r

archive_ok-IsArchive : (o : ArchiveOp) (r : Reply) → r.op ≡ o → archive_ok r ≡ true → IsArchive o r
unfolding archive_ok
archive_ok-IsArchive list_all r e h =
    ground (arith, (same_bytes_iff (take 4 r.header) (codes "ARO1")).0)
archive_ok-IsArchive one_entry r e h =
    ground (arith, (same_bytes_iff (take 4 r.header) (codes "ARO1")).0)

IsArchive-archive_ok : (o : ArchiveOp) (r : Reply) → r.op ≡ o → IsArchive o r → archive_ok r ≡ true
unfolding archive_ok
IsArchive-archive_ok list_all r e v =
    ground (arith, (same_bytes_iff (take 4 r.header) (codes "ARO1")).1)
IsArchive-archive_ok one_entry r e v =
    ground (arith, (same_bytes_iff (take 4 r.header) (codes "ARO1")).1)

-- The words of a mesh or model reply: those that the request fixed.
pub record IsOpaque (magic_bytes : Bytes) (first second : ℕ) (r : Reply) : Type 0 where
  pub magic : take 4 r.header ≡ magic_bytes
  pub first_word : u32 r.header 4 ≡ first
  pub second_word : u32 r.header 8 ≡ second
  pub fits : r.bytes ≤ r.cap

opaque_ok_iff : (m : Bytes) (a b : ℕ) (r : Reply) → (opaque_ok r m a b ≡ true) ↔ IsOpaque m a b r
unfolding opaque_ok
opaque_ok_iff m a b r = (
  λ h. ground (arith, (same_bytes_iff (take 4 r.header) m).0),
  λ v. ground (arith, (same_bytes_iff (take 4 r.header) m).1),
)

-- What an accepted header says, for each kind of decoder.
abbrev pub IsGood : Kind → Reply → Type 0
IsGood mesh r = IsOpaque (codes "MDO1") 1 0 r
IsGood model r = IsOpaque (codes "FBO1") r.index r.sequence r
IsGood archive r = IsArchive r.op r
IsGood pdf r = IsRaster pdf r
IsGood image r = IsRaster image r
IsGood math r = IsRaster math r

-- The fields that are read from the header before it is judged.
abbrev pub parsed : Kind → Reply → Reply
parsed mesh r = set_bytes r
parsed model r = set_bytes r
parsed archive r = set_count r
parsed _ r = set_size r

-- The memory that the payload goes to: the caller's, or the result of malloc.
abbrev pub block : Kind → (ℕ → Option Bytes) → Reply → Option Bytes
block pdf malloc r = r.pixels
block _ malloc r = if r.borrowed then r.pixels else malloc (if r.bytes == 0 then 1 else r.bytes)

abbrev pub with_block : (ℕ → Option Bytes) → Kind → Reply → Reply
with_block malloc k r = record (parsed k r) { pixels = block k malloc (parsed k r) }

module _ (malloc : ℕ → Option Bytes) where
  pub header_result :
      (k : Kind) (r : Reply)
      → r.kind ≡ k
      → (decoder_header malloc r).1 ≡ true
      → (decoder_header malloc r).0 ≡ with_block malloc k r
  unfolding decoder_header
  header_result pdf r e h = ground arith
  header_result _ r e h = ground arith

-- The checks of each kind, by name.
abbrev good : Kind → Reply → Bool
good mesh r = opaque_ok r (codes "MDO1") 1 0
good model r = opaque_ok r (codes "FBO1") r.index r.sequence
good archive r = archive_ok r
good pdf r = raster_ok pdf r
good image r = raster_ok image r
good math r = raster_ok math r

good_iff : (k : Kind) (r : Reply) → r.dimension ≤ image_dim_max → (good k r ≡ true) ↔ IsGood k r
good_iff mesh r h = opaque_ok_iff (codes "MDO1") 1 0 r
good_iff model r h = opaque_ok_iff (codes "FBO1") r.index r.sequence r
good_iff archive r h = (archive_ok-IsArchive r.op r refl, IsArchive-archive_ok r.op r refl)
good_iff pdf r h = (raster_ok-IsRaster pdf r h, IsRaster-raster_ok pdf r h)
good_iff image r h = (raster_ok-IsRaster image r h, IsRaster-raster_ok image r h)
good_iff math r h = (raster_ok-IsRaster math r h, IsRaster-raster_ok math r h)

-- A page has no memory before its number is known; every other payload has it at once.
abbrev pub ready : Kind → Option Bytes → Bool
ready pdf b = true
ready _ b = is_some b

module _ (malloc : ℕ → Option Bytes) where
  header_flag :
      (k : Kind) (r : Reply)
      → r.kind ≡ k
      → (decoder_header malloc r).1 ≡ (good k (parsed k r) && ready k (block k malloc (parsed k r)))
  unfolding decoder_header
  header_flag pdf r e = ground arith
  header_flag _ r e = ground arith

  and_iff : (a b : Bool) → ((a && b) ≡ true) ↔ ((a ≡ true) × (b ≡ true))
  and_iff a b = (λ h. ground arith, λ h. ground arith)

  -- A header is accepted exactly if its words are those that its kind of decoder may answer to the
  -- request with, and memory for the payload was found.
  pub decoder_header_accepts :
      (r : Reply)
      → r.dimension ≤ image_dim_max
      → ((decoder_header malloc r).1 ≡ true) ↔ (
          IsGood r.kind (parsed r.kind r)
          × (ready r.kind (block r.kind malloc (parsed r.kind r)) ≡ true))
  decoder_header_accepts r h =
      let iff = good_iff r.kind (parsed r.kind r) (fits r.kind) in
      let both =
        and_iff (good r.kind (parsed r.kind r))
          (ready r.kind (block r.kind malloc (parsed r.kind r))) in
      rw (header_flag r.kind r refl)
        ((λ e. (iff.0 (both.0 e).0, (both.0 e).1), λ v. both.1 (iff.1 v.0, v.1)))
    where
      fits : (k : Kind) → (parsed k r).dimension ≤ image_dim_max
      fits pdf = h
      fits _ = h
