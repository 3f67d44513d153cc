-- ===== src/Decoder/Build.antt =====
-- The request headers and the blank replies of the one-shot requests of app/decoder_ipc.c, and what
-- their callers get.
use whitenoise_linux.Base.Int.{ℤ, positive_to, value}
use whitenoise_linux.Base.{
  ℕ, List, [], ◌∷◌, ◌++◌, Bytes, Bool, true, false, not, ◌&&◌, ◌||◌, Option, none, some, ltb, leb,
  ◌==◌, if◌then◌else◌, codes, take, replicate,
}
use whitenoise_linux.Decoder.Wire.{
  image_input_max, image_output_max, image_dim_max, archive_entry_max, archive_list_max,
  archive_scan_max, pdf_output_max, pdf_dim_max, pdf_pages_max, model_output_max, math_input_max,
  math_dim_max, math_output_max, put,
}
use whitenoise_linux.Decoder.Reply.{
  Kind, image, archive, pdf, mesh, math, ArchiveOp, list_all, one_entry, Reply,
}
use whitenoise_linux.Decoder.Transfer.{Recv, Round, Next, stop, go}

-- What the system answers during a one-shot run: the clock, decoder_start, and the transfer's turns.
pub record Run : Type 0 where
  pub clock : Option ℕ
  pub started : Bool
  pub peek : Recv
  pub rounds : List Round

-- struct image_reply reply = {0}, and the fields that a request sets.
abbrev pub blank : Kind → Reply
blank k = record {
  header = replicate 16 0;
  page_header = replicate 4 0;
  extra = 0;
  pixels = none;
  received = 0;
  bytes = 0;
  width = 0;
  height = 0;
  dimension = 0;
  cap = 0;
  kind = k;
  op = list_all;
  index = 0;
  count = 0;
  target_height = 0;
  sequence = 0;
  borrowed = false;
}

-- A string argument that is neither NULL nor empty.
abbrev pub named : Option Bytes → Bool
named none = false
named (some []) = false
named (some (c ∷ cs)) = true

-- The first `size` bytes at a pointer.
abbrev pub bytes_at : Option Bytes → ℕ → Bytes
bytes_at none size = []
bytes_at (some d) size = take size d

abbrev pub given {ℓ} : {A : Type ℓ} → Option A → Bool
given none = false
given (some a) = true

-- memchr(data, 0, size) != NULL
unfoldable pub has_zero : Bytes → Bool
has_zero [] = false
has_zero (c ∷ cs) = c == 0 || has_zero cs

-- The answer of image_run: the reply as it was left, and whether it may be used; `none` while the
-- answers of the system leave it running.
abbrev pub run_result : Next → Option (Reply × Bool)
run_result (stop t b) = some (t.reply, b)
run_result (go t) = none

-- The pixels with their width and height, or NULL and zeros.
abbrev pub image_outcome : Option (Reply × Bool) → Option (Option Bytes × ℕ × ℕ)
image_outcome none = none
image_outcome (some (r, good)) = some (if good then (r.pixels, r.width, r.height) else (none, 0, 0))

unfoldable pub image_request : ℤ → ℤ → ℕ → Bytes
image_request size max_dimension max_bytes =
    codes "WNI1" ++ (put (value size) ++ (put (value max_dimension) ++ put max_bytes))

abbrev pub image_reply : ℤ → ℕ → Reply
image_reply max_dimension max_bytes = record (blank image) {
  dimension = value max_dimension;
  cap = max_bytes;
}

unfoldable pub math_request : ℤ → ℕ → ℕ → ℕ → ℕ → Bytes
math_request size font_bits argb max_side max_bytes =
    codes "MAI1"
    ++ (put (value size) ++ (put font_bits ++ (put argb ++ (put max_side ++ put max_bytes))))

abbrev pub math_reply : ℕ → ℕ → Reply
math_reply max_side max_bytes = record (blank math) { dimension = max_side; cap = max_bytes }

abbrev pub op_code : ArchiveOp → ℕ
op_code list_all = 0
op_code one_entry = 1

abbrev pub archive_cap : ArchiveOp → ℕ
archive_cap list_all = archive_list_max
archive_cap one_entry = archive_entry_max

abbrev pub is_list : ArchiveOp → Bool
is_list list_all = true
is_list one_entry = false

-- The payload with the count of entries and its length.
abbrev pub archive_outcome : Option (Reply × Bool) → Option (Option Bytes × ℕ × ℕ)
archive_outcome none = none
archive_outcome (some (r, good)) =
    some (if good then (r.pixels, r.count, r.bytes) else (none, 0, 0))

unfoldable pub archive_request : ℤ → ArchiveOp → ℕ → Bytes
archive_request size op index =
    codes "ARI1" ++ (put (value size) ++ (put (op_code op) ++ put index))

abbrev pub archive_reply : ArchiveOp → ℕ → Reply
archive_reply op index = record (blank archive) { op = op; index = index; cap = archive_cap op }

-- The pixels with the page count, the width and the height.
abbrev pub pdf_outcome : Option (Reply × Bool) → Option (Option Bytes × ℕ × ℕ × ℕ)
pdf_outcome none = none
pdf_outcome (some (r, good)) =
    some (if good then (r.pixels, r.count, r.width, r.height) else (none, 0, 0, 0))

unfoldable pub pdf_request : ℤ → ℕ → ℕ → ℕ → Bytes
pdf_request size page width height =
    codes "PDI1" ++ (put (value size) ++ (put page ++ (put width ++ put height)))

abbrev pub pdf_reply : ℕ → ℕ → ℕ → Reply
pdf_reply page width height = record (blank pdf) {
  index = page;
  dimension = width;
  target_height = height;
  cap = pdf_output_max;
}

-- The payload with its length.
abbrev pub mesh_outcome : Option (Reply × Bool) → Option (Option Bytes × ℕ)
mesh_outcome none = none
mesh_outcome (some (r, good)) = some (if good then (r.pixels, r.bytes) else (none, 0))

unfoldable pub mesh_request : ℤ → ℕ → Bytes
mesh_request size format = codes "MDI1" ++ (put (value size) ++ (put format ++ put 0))

abbrev pub mesh_reply : Reply
mesh_reply = record (blank mesh) { cap = model_output_max }

-- The guard of wn_image_decode: the call is refused.
abbrev pub image_refused :
    (outputs : Bool) (helper content : Option Bytes) (size max_dimension : ℤ) (max_bytes : ℕ) → Bool
image_refused outputs helper content size max_dimension max_bytes =
    not outputs
    || not (named helper)
    || not (given content)
    || not (positive_to size image_input_max)
    || not (positive_to max_dimension image_dim_max)
    || max_bytes == 0
    || ltb image_output_max max_bytes

-- The guard of wn_math_render: the call is refused.
abbrev pub math_refused :
    (outputs : Bool) (helper content : Option Bytes) (size : ℤ) (font_in_range : Bool)
    (max_side max_bytes : ℕ)
    → Bool
math_refused outputs helper content size font_in_range max_side max_bytes =
    not outputs
    || not (named helper)
    || not (given content)
    || not (positive_to size math_input_max)
    || not font_in_range
    || max_side == 0
    || ltb math_dim_max max_side
    || max_bytes == 0
    || ltb math_output_max max_bytes
    || has_zero (bytes_at content (value size))

-- The guard of wn_archive_read: the call is refused.
abbrev pub archive_refused :
    (outputs : Bool) (helper content : Option Bytes) (size : ℤ) (op : ArchiveOp) (index : ℕ) → Bool
archive_refused outputs helper content size op index =
    not outputs
    || not (named helper)
    || not (given content)
    || not (positive_to size image_input_max)
    || (is_list op && not (index == 0))
    || leb archive_scan_max index

-- The guard of wn_pdf_render: the call is refused.
abbrev pub pdf_refused :
    (outputs : Bool) (helper content : Option Bytes) (size : ℤ) (page width height : ℕ) → Bool
pdf_refused outputs helper content size page width height =
    not outputs
    || not (named helper)
    || not (given content)
    || not (positive_to size image_input_max)
    || leb pdf_pages_max page
    || width == 0
    || ltb pdf_dim_max width
    || ltb pdf_dim_max height

-- The guard of wn_mesh_decode: the call is refused.
abbrev pub mesh_refused :
    (outputs : Bool) (helper content : Option Bytes) (size : ℤ) (format : ℕ) → Bool
mesh_refused outputs helper content size format =
    not outputs
    || not (named helper)
    || not (given content)
    || not (positive_to size image_input_max)
    || ltb format 1
    || ltb 4 format
