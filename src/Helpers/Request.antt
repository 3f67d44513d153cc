-- ===== src/Helpers/Request.antt =====
-- A helper on its way through the launcher (app/helper_broker.c): the block that wn_helper_execve
-- sends, and what serve_request makes of it.
pub mod Packed
pub mod Allowed
pub mod Launched
use whitenoise_linux.Base.Results.{
  Result, ok, err, ◌>>=◌, ◌>>◌, guard, or_error, eperm, e2big, einval,
}
use whitenoise_linux.Base.{
  ℕ, zero, suc, ◌+◌, ◌-◌, ◌%◌, List, [], ◌∷◌, ◌++◌, Bytes, Bool, true, false, not, Option, none,
  some, ltb, leb, ◌==◌, ◌&&◌, ◌||◌, if◌then◌else◌, codes, same_bytes, length, take, drop, ◌≡◌, refl,
}
use whitenoise_linux.Broker.Strings.{strnlen, split}
use whitenoise_linux.Broker.Channel.{Channel, transfer}
use whitenoise_linux.Decoder.Wire.{put, u32}
use whitenoise_linux.Helpers.Freeze.{
  HelperKind, decoder, pdf, font, optional, Helper, Frozen, arg_bytes,
}

abbrev pub arg_count : ℕ
arg_count = 64

-- struct request: two 32-bit words.
pub record Request : Type 0 where
  pub count : ℕ
  pub bytes : ℕ

unfoldable pub request_out : Request → Bytes
request_out r = put r.count ++ put r.bytes

unfoldable pub request_in : Bytes → Request
request_in d = record { count = u32 d 0; bytes = u32 d 4 }

-- The loop of wn_helper_execve over argv[1], argv[2], … up to the NULL: `block` is bytes[] up to
-- request.bytes, and `count` is request.count.
unfoldable pub pack : Bytes → ℕ → List Bytes → Result (Bytes × ℕ)
pack block count [] = ok (block, count)
pack block count (s ∷ arguments) =
    let available = arg_bytes - length block in
    let l = strnlen (s ++ 0 ∷ []) available in
    let rest = pack (block ++ take (l + 1) (s ++ 0 ∷ [])) (count + 1) arguments in
    if leb arg_count count then ok (block, count) else if l == available then err e2big else rest

-- wn_helper_execve up to its socket pair: `connected` is launch_fd >= 0, and argv without argv[0].
unfoldable pub exec_request : Bytes → List Bytes → Result (Request × Bytes)
unfolding pack
exec_request path arguments = do
  let l = strnlen (path ++ 0 ∷ []) arg_bytes
  guard (not (l == 0 || l == arg_bytes)) e2big
  (block, count) ← pack (take (l + 1) (path ++ 0 ∷ [])) 0 arguments
  guard (not (leb arg_count count)) e2big
  let request : Request = record { count = count; bytes = length block }
  ok (request, block)

-- The loop over the frozen helpers.
unfoldable pub find_helper : Bytes → List Helper → Option Helper
find_helper path [] = none
find_helper path (h ∷ hs) = if same_bytes path h.requested then some h else find_helper path hs

-- What is started: the executable is argv[0].
pub record Launch : Type 0 where
  pub helper : Helper
  pub argv : List Bytes

-- Where the helper is a font helper: whether descriptor 4, its input, is a regular file.
abbrev pub IsRegular : Type 0
IsRegular = Bool

-- The arguments that a helper of this kind may have: none, one, or any.
unfoldable pub right_count : HelperKind → ℕ → Bool
right_count decoder count = count == 0
right_count pdf count = count == 1
right_count font count = count == 1
right_count optional count = true

-- argv[1] of the PDF helper is replaced, and that of the font helper checked with its input.
unfoldable pub fixed_arguments :
    HelperKind → Bytes → ℕ → IsRegular → List Bytes → Result (List Bytes)
fixed_arguments decoder font_root mask regular arguments = ok arguments
fixed_arguments pdf font_root mask regular [] = ok []
fixed_arguments pdf font_root mask regular (a ∷ arguments) = ok (font_root ∷ arguments)
fixed_arguments font font_root mask regular [] = err einval
fixed_arguments font font_root mask regular (a ∷ arguments) =
    if not (same_bytes a (codes "--stdin")) || mask % 2 == 0 || not regular
    then err einval
    else ok (a ∷ arguments)
fixed_arguments optional font_root mask regular arguments = ok arguments

unfoldable pub launch_of :
    Frozen → ℕ → IsRegular → Helper → ℕ → Option (List Bytes × Bytes) → Result Launch
unfolding right_count fixed_arguments
launch_of f mask regular h count none = err einval
launch_of f mask regular h count (some (arguments, left)) = do
  guard (length left == 0 && right_count h.kind count) einval
  fixed ← fixed_arguments h.kind f.font_root mask regular arguments
  ok (record { helper = h; argv = h.executable ∷ fixed })

-- serve_request up to its pipe: the error of its reply, or what it starts. `mask` says which of
-- descriptors 0 to 2 came with the request.
unfoldable pub admit : Frozen → ℕ → IsRegular → Channel → Result Launch
unfolding find_helper launch_of
admit f mask regular c = do
  (header, c₁) ← or_error einval (transfer c 8)
  let r = request_in header
  guard (not (leb arg_count r.count || r.bytes == 0 || ltb arg_bytes r.bytes)) einval
  (block, c₂) ← or_error einval (transfer c₁ r.bytes)
  let l = strnlen block r.bytes
  guard (not (l == r.bytes)) einval
  helper ← or_error eperm (find_helper (take l block) f.helpers)
  launch_of f mask regular helper r.count (split r.count (drop (l + 1) block))
