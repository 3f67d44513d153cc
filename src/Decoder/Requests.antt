-- ===== src/Decoder/Requests.antt =====
-- The one-shot requests of app/decoder_ipc.c: image_run and the functions wn_image_decode,
-- wn_math_render, wn_archive_read, wn_pdf_render and wn_mesh_decode.
pub mod Outcome
pub mod Picture
pub mod Page
pub mod Payload
use whitenoise_linux.Base.Int.{ℤ, pos, negsuc, positive_to, value}
use whitenoise_linux.Base.{
  ℕ, zero, suc, ◌+◌, ◌*◌, ◌≤◌, ◌<◌, List, [], ◌∷◌, ◌++◌, Bytes, Bool, true, false, not, ◌&&◌, ◌||◌,
  Option, none, some, ltb, leb, ◌==◌, if◌then◌else◌, codes, length, take, drop, replicate,
}
use whitenoise_linux.Decoder.Wire.{
  image_input_max, image_output_max, image_dim_max, image_seconds, archive_entry_max,
  archive_list_max, archive_scan_max, pdf_output_max, pdf_dim_max, pdf_pages_max, model_output_max,
  math_input_max, math_dim_max, math_output_max, put,
}
use whitenoise_linux.Decoder.Reply.{
  Kind, image, archive, pdf, mesh, model, math, ArchiveOp, list_all, one_entry, Reply,
}
use whitenoise_linux.Decoder.Transfer.{
  Recv, Round, Request, Transfer, Next, stop, go, decoder_transfer, start,
}
use whitenoise_linux.Decoder.Build.{
  image_refused, math_refused, archive_refused, pdf_refused, mesh_refused, Run, blank, named,
  bytes_at, given, has_zero, run_result, image_outcome, image_request, image_reply, math_request,
  math_reply, op_code, archive_cap, is_list, archive_outcome, archive_request, archive_reply,
  pdf_outcome, pdf_request, pdf_reply, mesh_outcome, mesh_request, mesh_reply,
}

module _ (malloc : ℕ → Option Bytes) (run : Run) where
  image_run_at : Option ℕ → Bytes → Bytes → Reply → Option (Reply × Bool)
  image_run_at none header content r = some (r, false)
  image_run_at (some now) header content r =
      if run.started
      then run_result (
          decoder_transfer malloc
            (record {
              header = header;
              content = content;
              finish = true;
              deadline = now + image_seconds * 1000;
            })
            run.peek run.rounds (start r))
      else some (r, false)

  unfoldable pub image_run : Bytes → Bytes → Reply → Option (Reply × Bool)
  unfolding image_run_at
  image_run header content r = image_run_at run.clock header content r

  -- wn_image_decode. `outputs` says that neither output pointer is NULL.
  unfoldable pub wn_image_decode :
      (outputs : Bool) (helper content : Option Bytes) (size max_dimension : ℤ) (max_bytes : ℕ)
      → Option (Option Bytes × ℕ × ℕ)
  unfolding image_request
  wn_image_decode outputs helper content size max_dimension max_bytes =
      if image_refused outputs helper content size max_dimension max_bytes
      then some (none, 0, 0)
      else image_outcome (
          image_run (image_request size max_dimension max_bytes) (bytes_at content (value size))
            (image_reply max_dimension max_bytes))

  -- wn_math_render. The font size is a float: its bit pattern, and the test that it lies in
  -- (0, WN_MATH_DIM_MAX].
  unfoldable pub wn_math_render :
      (outputs : Bool) (helper content : Option Bytes) (size : ℤ) (font_bits : ℕ)
      (font_in_range : Bool) (argb max_side max_bytes : ℕ)
      → Option (Option Bytes × ℕ × ℕ)
  unfolding math_request
  wn_math_render outputs helper content size font_bits font_in_range argb max_side max_bytes =
      if math_refused outputs helper content size font_in_range max_side max_bytes
      then some (none, 0, 0)
      else image_outcome (
          image_run (math_request size font_bits argb max_side max_bytes)
            (bytes_at content (value size)) (math_reply max_side max_bytes))

  -- wn_archive_read
  unfoldable pub wn_archive_read :
      (outputs : Bool) (helper content : Option Bytes) (size : ℤ) (op : ArchiveOp) (index : ℕ)
      → Option (Option Bytes × ℕ × ℕ)
  unfolding archive_request
  wn_archive_read outputs helper content size op index =
      if archive_refused outputs helper content size op index
      then some (none, 0, 0)
      else archive_outcome (
          image_run (archive_request size op index) (bytes_at content (value size))
            (archive_reply op index))

  -- wn_pdf_render
  unfoldable pub wn_pdf_render :
      (outputs : Bool) (helper content : Option Bytes) (size : ℤ) (page width height : ℕ)
      → Option (Option Bytes × ℕ × ℕ × ℕ)
  unfolding pdf_request
  wn_pdf_render outputs helper content size page width height =
      if pdf_refused outputs helper content size page width height
      then some (none, 0, 0, 0)
      else pdf_outcome (
          image_run (pdf_request size page width height) (bytes_at content (value size))
            (pdf_reply page width height))

  -- wn_mesh_decode; the formats are WN_MESH_STL = 1 to WN_MESH_GCODE = 4.
  unfoldable pub wn_mesh_decode :
      (outputs : Bool) (helper content : Option Bytes) (size : ℤ) (format : ℕ)
      → Option (Option Bytes × ℕ)
  unfolding mesh_request
  wn_mesh_decode outputs helper content size format =
      if mesh_refused outputs helper content size format
      then some (none, 0)
      else mesh_outcome
          (image_run (mesh_request size format) (bytes_at content (value size)) mesh_reply)
