-- ===== src/Tools/Request/Admitted.antt =====
-- What serve_request runs, whatever bytes come through the channel (app/tool_broker.c).
use whitenoise_linux.Base.Results.{
  ok, or_error, ok-injective, >>=-eq-ok, guard-eq-ok, or_error-eq-ok, enoent, einval,
}
use whitenoise_linux.Base.{
  ◌≤◌, ◌<◌, List, ◌∷◌, Bytes, true, false, not, Option, none, some, ◌==◌, length, All, ◌≡◌, refl,
  sym, ap, ◌∙◌, arith, inl, inr, Bool-cases, subst, if_true, if_false, length-append,
}
use whitenoise_linux.Broker.Strings.{split, IsText, terminated, split-found}
use whitenoise_linux.Broker.Channel.{Channel, transfer, transfer-exact}
use whitenoise_linux.Tools.Environment.{proxy_size, arg_limit}
use whitenoise_linux.Tools.Request.{
  Request, Broker, Run, request_in, admit, child_environment, within_limits, argv_of, arg_count,
  tool_curl, tool_save_dialog,
}
use whitenoise_linux.Tools.Request.Proxied.{IsEnvironment, child_environment-IsEnvironment}

-- A run that is admitted: one of the four operations, the program that is frozen for it, at most 64
-- argument strings that fit the block, and an environment that it may get.
pub record IsFrozen (b : Broker) (r : Run) : Type 0 where
  pub operation_low : tool_curl ≤ r.operation
  pub operation_high : r.operation ≤ tool_save_dialog
  pub available : 0 < length (b.tools r.operation)
  pub arguments : List Bytes
  pub argv : r.argv ≡ b.tools r.operation ∷ arguments
  pub few : length arguments ≤ 64
  pub small : length (terminated arguments) ≤ arg_limit
  pub texts : All IsText arguments
  pub environment : IsEnvironment b r.operation r.environment

abbrev Within : Request → Type 0
Within q =
    (tool_curl ≤ q.operation)
    × (q.operation ≤ tool_save_dialog)
    × (q.count ≤ arg_count)
    × (q.bytes ≤ arg_limit)
    × (q.proxy_bytes ≤ proxy_size)
    × ((q.proxy_bytes == 0) ≡ false → q.operation ≡ tool_curl)

within_limits-Within : (q : Request) → within_limits q ≡ true → Within q
unfolding within_limits
within_limits-Within q e =
    (ground arith, ground arith, ground arith, ground arith, ground arith, λ z. ground arith)

argv_of-IsFrozen :
    (b : Broker) (q : Request) (environment : List Bytes) (block : Bytes)
    (found : Option (List Bytes × Bytes)) (r : Run)
    → tool_curl ≤ q.operation
    → q.operation ≤ tool_save_dialog
    → q.count ≤ arg_count
    → length block ≤ arg_limit
    → 0 < length (b.tools q.operation)
    → IsEnvironment b q.operation environment
    → split q.count block ≡ found
    → argv_of b q environment found ≡ ok r
    → IsFrozen b r
unfolding argv_of
argv_of-IsFrozen b q environment block none r low high few small there env f e = cc
argv_of-IsFrozen b q environment block (some (ss, left)) r low high few small there env f e =
    elim (Bool-cases (length left == 0)) [
      | inr z ↦ cc (sym (if_false (length left == 0) _ _ z) ∙ e)
      | inl z ↦
          let (whole, counted, texts) = split-found q.count block left ss f in
          subst (IsFrozen b) (ok-injective _ r (sym (if_true (length left == 0) _ _ z) ∙ e))
            (record {
              operation_low = low;
              operation_high = high;
              available = there;
              arguments = ss;
              argv = refl;
              few = omega (arith, counted);
              small = omega (arith, ap length whole, length-append (terminated ss) left);
              texts = texts;
              environment = env;
            })
    ]

-- Whatever a client sends, serve_request runs nothing but a frozen program, with arguments that are
-- strings within the limits, and in the frozen environment; only curl may get a proxy of the client's,
-- as the value of all_proxy, and then every entry of a proxy that was frozen is left out.
pub admit-IsFrozen : (b : Broker) (c : Channel) (r : Run) → admit b c ≡ ok r → IsFrozen b r
unfolding admit
admit-IsFrozen b c r e =
    let ((header, c₁), e₁, k₁) = >>=-eq-ok (or_error einval (transfer c 16)) _ e in
    let (limits, k₂) = guard-eq-ok (within_limits (request_in header)) einval _ k₁ in
    let q = request_in header in
    let ((arguments, c₂), e₃, k₃) = >>=-eq-ok (or_error einval (transfer c₁ q.bytes)) _ k₂ in
    let ((proxy, c₃), e₄, k₄) = >>=-eq-ok (or_error einval (transfer c₂ q.proxy_bytes)) _ k₃ in
    let (environment, e₅, k₅) = >>=-eq-ok (child_environment b q.proxy_bytes proxy) _ k₄ in
    let (there, k₆) = guard-eq-ok (not (length (b.tools q.operation) == 0)) enoent _ k₅ in
    let (whole, sized) =
      transfer-exact c₁ q.bytes arguments c₂ (or_error-eq-ok einval (transfer c₁ q.bytes) e₃) in
    let (low, high, few, small, short, curl) = within_limits-Within q limits in
    argv_of-IsFrozen b q environment arguments (split q.count arguments) r low high few
      (omega (arith, sized, small)) (ground (arith, there))
      (child_environment-IsEnvironment b q.operation q.proxy_bytes proxy environment short curl e₅)
      refl k₆
