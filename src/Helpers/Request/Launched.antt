-- ===== src/Helpers/Request/Launched.antt =====
-- What the launcher starts for what wn_helper_execve sends (app/helper_broker.c).
use whitenoise_linux.Base.Results.{Result, ok, ◌>>=◌, or_error, eperm}
use whitenoise_linux.Base.{
  ℕ, ◌+◌, ◌-◌, List, [], ◌∷◌, ◌++◌, Bytes, false, some, ltb, leb, ◌==◌, ◌||◌, length, take, drop,
  All, ◌≡◌, refl, sym, ap, ap₂, ◌∙◌, arith, append-nil, length-append, take-append, drop-append_ge,
}
use whitenoise_linux.Broker.Strings.{
  strnlen, split, IsText, terminated, strnlen-text, split-terminated,
}
use whitenoise_linux.Broker.Channel.{Channel, IsPatient, transfer, transfer-patient}
use whitenoise_linux.Decoder.Wire.{put, u32, IsU32}
use whitenoise_linux.Helpers.Freeze.{Frozen, arg_bytes}
use whitenoise_linux.Helpers.Request.{
  Request, Launch, IsRegular, request_out, request_in, exec_request, find_helper, launch_of, admit,
  arg_count,
}
use whitenoise_linux.Helpers.Request.Packed.{exec_request-IsExec}

request_in-request_out :
    (r : Request) → IsU32 r.count → IsU32 r.bytes → request_in (request_out r) ≡ r
unfolding request_in request_out put u32
request_in-request_out r a b = λ i. record { count = count i; bytes = bytes i }
  where
    count : u32 (request_out r) 0 ≡ r.count
    count = omega arith

    bytes : u32 (request_out r) 4 ≡ r.bytes
    bytes = omega arith

length-request_out : (r : Request) → length (request_out r) ≡ 8
unfolding request_out put
length-request_out r = refl

-- What is meant by a request for this path with these arguments.
abbrev pub meant_launch : Frozen → ℕ → IsRegular → Bytes → List Bytes → Result Launch
meant_launch f mask regular path arguments = or_error eperm (find_helper path f.helpers) >>= λ h.
    launch_of f mask regular h (length arguments) (some (arguments, []))

admit_steps :
    (f : Frozen) (mask : ℕ) (regular : IsRegular) (c c₁ c₂ : Channel) (header block path : Bytes)
    (r : Request) (arguments : List Bytes)
    → transfer c 8 ≡ some (header, c₁)
    → request_in header ≡ r
    → (leb arg_count r.count || r.bytes == 0 || ltb arg_bytes r.bytes) ≡ false
    → transfer c₁ r.bytes ≡ some (block, c₂)
    → strnlen block r.bytes ≡ length path
    → (length path == r.bytes) ≡ false
    → take (length path) block ≡ path
    → split r.count (drop (length path + 1) block) ≡ some (arguments, [])
    → r.count ≡ length arguments
    → admit f mask regular c ≡ meant_launch f mask regular path arguments
unfolding admit
admit_steps f mask regular c c₁ c₂ header block path r arguments e₁ e₂ e₃ e₄ e₅ e₆ e₇ e₈ e₉ =
    rw (e₁, e₂, e₃, e₄, e₅, e₆, e₇, e₈, e₉) refl

-- Where wn_helper_execve has a request, the launcher at the other end of the channel does what the
-- caller meant, whatever pieces the bytes come in: it looks up the helper with exactly this path, or
-- answers EPERM, and takes exactly these arguments for it.
pub admit-exec_request :
    (f : Frozen) (mask : ℕ) (regular : IsRegular) (c : Channel) (path : Bytes)
    (arguments : List Bytes) (q : Request × Bytes)
    → IsText path
    → All IsText arguments
    → exec_request path arguments ≡ ok q
    → IsPatient c
    → c.stream ≡ request_out q.0 ++ q.1
    → admit f mask regular c ≡ meant_launch f mask regular path arguments
admit-exec_request f mask regular c path arguments q t ts e pc at =
    let h = exec_request-IsExec path arguments q t ts e in
    let r = q.0 in
    let rest = terminated arguments in
    let block : q.1 ≡ path ++ 0 ∷ rest = h.block ∙ whole path arguments in
    let size : length q.1 ≡ length path + length rest + 1 =
      ap length block ∙ omega (arith, length-append path (0 ∷ rest)) in
    let (c₁, t₁, s₁, p₁) = transfer-patient c (request_out r) q.1 pc at in
    let (c₂, t₂, s₂, p₂) = transfer-patient c₁ q.1 [] p₁ (s₁ ∙ sym (append-nil q.1)) in
    admit_steps f mask regular c c₁ c₂ (request_out r) q.1 path r arguments
      (ap (transfer c) (sym (length-request_out r)) ∙ t₁)
      (request_in-request_out r (omega (arith, h.counted, h.few)) (omega (arith, h.sized, h.small)))
      (ground (arith, h.counted, h.few, h.sized, h.small, size)) (ap (transfer c₁) h.sized ∙ t₂)
      (ap₂ strnlen block (h.sized ∙ size)
        ∙ strnlen-text path rest (length path + length rest + 1) t (omega arith))
      (ground (arith, h.sized, size)) (ap (take (length path)) block ∙ take-append path (0 ∷ rest))
      (ap₂ split h.counted
          (ap (drop (length path + 1)) block ∙ behind path rest ∙ sym (append-nil rest))
        ∙ split-terminated arguments [] ts)
      h.counted
  where
    whole :
        (path : Bytes) (arguments : List Bytes)
        → terminated (path ∷ arguments) ≡ path ++ 0 ∷ terminated arguments
    whole path arguments = unfold terminated in refl

    behind : (path rest : Bytes) → drop (length path + 1) (path ++ 0 ∷ rest) ≡ rest
    behind path rest =
        let one : length path + 1 - length path ≡ 1 = omega arith in
        drop-append_ge (length path + 1) path (0 ∷ rest) (omega arith)
        ∙ ap (λ (n : ℕ). drop n (0 ∷ rest)) one
