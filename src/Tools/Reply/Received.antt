-- ===== src/Tools/Reply/Received.antt =====
-- An answer of the tool broker as wn_tools_run receives it (app/tool_broker.c).
use whitenoise_linux.Base.Results.{ok, eio}
use whitenoise_linux.Base.{
  ℕ, ◌≤◌, [], ◌∷◌, ◌++◌, Bytes, true, false, Option, none, some, ltb, ◌||◌, if◌then◌else◌, length,
  ◌≡◌, refl, sym, ap, ◌∙◌, arith, append-nil, if_false,
}
use whitenoise_linux.Broker.Channel.{Channel, IsPatient, transfer, transfer-patient}
use whitenoise_linux.Decoder.Wire.{put, u32, IsU32}
use whitenoise_linux.Tools.Request.{output_limit}
use whitenoise_linux.Tools.Reply.{
  Response, Outcome, response_out, response_in, receive, stored, receive_errors, receive_both,
  read_response, no_outcome, transferred, received,
}

-- A buffer that is only there if something was written.
abbrev pub if_written : Bytes → Option Bytes
if_written [] = none
if_written (b ∷ d) = some (b ∷ d)

pub response_in-response_out :
    (r : Response)
    → IsU32 r.error
    → IsU32 r.status
    → IsU32 r.output
    → IsU32 r.errors
    → response_in (response_out r) ≡ r
unfolding response_in response_out put u32
response_in-response_out r a b c d =
    λ i. record { error = error i; status = status i; output = output i; errors = errors i }
  where
    error : u32 (response_out r) 0 ≡ r.error
    error = omega arith

    status : u32 (response_out r) 4 ≡ r.status
    status = omega arith

    output : u32 (response_out r) 8 ≡ r.output
    output = omega arith

    errors : u32 (response_out r) 12 ≡ r.errors
    errors = omega arith

pub receive-IsPatient :
    (c : Channel) (d rest : Bytes)
    → IsPatient c
    → c.stream ≡ d ++ rest
    → (c' : Channel) × (receive c (length d) true ≡ ok (if_written d, c'))
      × (c'.stream ≡ rest)
      × IsPatient c'
unfolding receive
receive-IsPatient c [] rest p e = (c, refl, e, p)
receive-IsPatient c (b ∷ d) rest p e =
    let (c', read, s, p') = transfer-patient c (b ∷ d) rest p e in (c', ap transferred read, s, p')

pub length-response_out : (r : Response) → length (response_out r) ≡ 16
unfolding response_out put
length-response_out r = refl

pub read_steps :
    (c c₁ c₂ c₃ : Channel) (header : Bytes) (r : Response) (output errors : Option Bytes)
    → transfer c 16 ≡ some (header, c₁)
    → response_in header ≡ r
    → (ltb output_limit r.output || ltb output_limit r.errors) ≡ false
    → receive c₁ r.output true ≡ ok (output, c₂)
    → receive c₂ r.errors true ≡ ok (errors, c₃)
    → read_response c true true ≡ stored r output errors
unfolding read_response
read_steps c c₁ c₂ c₃ header r output errors e₁ e₂ e₃ e₄ e₅ =
    ap (receive_both true true) e₁
    ∙ ap checked e₂
    ∙ if_false (ltb output_limit r.output || ltb output_limit r.errors) (no_outcome eio) _ e₃
    ∙ ap (receive_errors r true) e₄
    ∙ ap (received r output) e₅
  where
    checked : Response → Outcome
    checked r =
        if ltb output_limit r.output || ltb output_limit r.errors
        then no_outcome eio
        else receive_errors r true (receive c₁ r.output true)

-- A whole answer is received as it was sent.
pub read_response-answer :
    (c : Channel) (r : Response) (output errors : Bytes)
    → IsPatient c
    → c.stream ≡ response_out r ++ (output ++ errors)
    → IsU32 r.error
    → IsU32 r.status
    → r.output ≡ length output
    → r.errors ≡ length errors
    → length output ≤ output_limit
    → length errors ≤ output_limit
    → read_response c true true ≡ stored r (if_written output) (if_written errors)
read_response-answer c r output errors p e error status counted_o counted_e few_o few_e =
    let (c₁, t₁, s₁, p₁) = transfer-patient c (response_out r) (output ++ errors) p e in
    let (c₂, t₂, s₂, p₂) = receive-IsPatient c₁ output errors p₁ s₁ in
    let (c₃, t₃, s₃, p₃) = receive-IsPatient c₂ errors [] p₂ (s₂ ∙ sym (append-nil errors)) in
    let header =
      response_in-response_out r error status (omega (arith, counted_o))
        (omega (arith, counted_e)) in
    read_steps c c₁ c₂ c₃ (response_out r) r (if_written output) (if_written errors)
      (ap (transfer c) (sym (length-response_out r)) ∙ t₁) header
      (ground (arith, counted_o, counted_e)) (ap (λ (n : ℕ). receive c₁ n true) counted_o ∙ t₂)
      (ap (λ (n : ℕ). receive c₂ n true) counted_e ∙ t₃)
