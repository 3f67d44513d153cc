-- ===== src/Decoder/Wire.antt =====
-- app/decoder_ipc.h: the limits and the little-endian wire integers.
use whitenoise_linux.Base.{
  ℕ, ◌+◌, ◌*◌, ◌/◌, ◌%◌, ◌^◌, ◌<◌, [], ◌∷◌, ◌++◌, Bytes, ◌≡◌, refl, length, get_or, All, arith,
}

abbrev pub mib : ℕ
mib = 1024 * 1024

abbrev pub image_input_max : ℕ
image_input_max = 128 * mib

abbrev pub image_output_max : ℕ
image_output_max = 256 * mib

abbrev pub image_dim_max : ℕ
image_dim_max = 32768

abbrev pub image_seconds : ℕ
image_seconds = 10

abbrev pub image_header : ℕ
image_header = 16

abbrev pub archive_entry_max : ℕ
archive_entry_max = 64 * mib

abbrev pub archive_list_max : ℕ
archive_list_max = 8 * mib

abbrev pub archive_count_max : ℕ
archive_count_max = 2000

abbrev pub archive_scan_max : ℕ
archive_scan_max = 65536

abbrev pub archive_name_max : ℕ
archive_name_max = 4096

abbrev pub pdf_output_max : ℕ
pdf_output_max = 64 * mib

abbrev pub pdf_dim_max : ℕ
pdf_dim_max = 32768

abbrev pub pdf_pages_max : ℕ
pdf_pages_max = 10000

abbrev pub model_output_max : ℕ
model_output_max = 512 * mib

abbrev pub math_input_max : ℕ
math_input_max = 4096

abbrev pub math_dim_max : ℕ
math_dim_max = 4096

abbrev pub math_output_max : ℕ
math_output_max = 8 * mib

abbrev pub u32_mod : ℕ
u32_mod = 2 ^ 32

abbrev pub u64_mod : ℕ
u64_mod = 2 ^ 64

-- wn_image_put: the four bytes that it stores, lowest first; each is cut to `unsigned char`.
unfoldable pub put : ℕ → Bytes
put n = n % 256 ∷ n / 2 ^ 8 % 256 ∷ n / 2 ^ 16 % 256 ∷ n / 2 ^ 24 % 256 ∷ []

-- wn_image_u32 at the pointer `p + offset`. The four shifted bytes have no bit in common, so
-- their `|` is a sum.
unfoldable pub u32 : Bytes → ℕ → ℕ
u32 p offset =
    get_or p offset 0
    + get_or p (offset + 1) 0 * 2 ^ 8
    + get_or p (offset + 2) 0 * 2 ^ 16
    + get_or p (offset + 3) 0 * 2 ^ 24

abbrev pub IsByte : ℕ → Type 0
IsByte b = b < 256

abbrev pub IsU32 : ℕ → Type 0
IsU32 n = n < 2 ^ 32

-- The three wire integers of a header that begins with four magic bytes.
pub u32-put :
    (m₀ m₁ m₂ m₃ a b c : ℕ) (rest : Bytes)
    → IsU32 a
    → IsU32 b
    → IsU32 c
    → let h = m₀ ∷ m₁ ∷ m₂ ∷ m₃ ∷ (put a ++ (put b ++ (put c ++ rest))) in
      (u32 h 4 ≡ a) × (u32 h 8 ≡ b) × (u32 h 12 ≡ c)
unfolding put u32
u32-put m₀ m₁ m₂ m₃ a b c rest ha hb hc = (omega arith, omega arith, omega arith)

pub put-IsByte : (n : ℕ) → All IsByte (put n)
unfolding put
put-IsByte n = omega arith

pub length-put : (n : ℕ) → length (put n) ≡ 4
unfolding put
length-put n = refl
