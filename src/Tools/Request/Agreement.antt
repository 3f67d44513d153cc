-- ===== src/Tools/Request/Agreement.antt =====
-- The two ends of the tool broker agree on a request (app/tool_broker.c): serve_request runs what
-- open_request was asked for.
use whitenoise_linux.Base.Results.{Result, ok, err, ◌>>◌, guard, enoent}
use whitenoise_linux.Base.{
  ℕ, ◌≤◌, List, [], ◌∷◌, ◌++◌, Bytes, Bool, true, false, not, Option, some, ◌==◌, if◌then◌else◌,
  length, take, All, ◌≡◌, refl, sym, ap, ap₂, ◌∙◌, arith, inl, inr, append-nil, length-append,
  length-take,
}
use whitenoise_linux.Broker.Strings.{split, IsText, terminated, split-terminated}
use whitenoise_linux.Broker.Channel.{Channel, IsPatient, transfer, transfer-patient}
use whitenoise_linux.Decoder.Wire.{put}
use whitenoise_linux.Tools.Request.{
  Request, Opening, Broker, Run, request_out, request_in, open_request, admit, child_environment,
  within_limits, argv_of, tool_curl, tool_save_dialog, text_of, proxy_length,
}
use whitenoise_linux.Tools.Request.Packed.{given}
use whitenoise_linux.Tools.Request.Checked.{IsChecked, IsProxyFor, checked_request-IsChecked}
use whitenoise_linux.Tools.Request.Sent.{
  request_in-request_out, meant_environment, child_environment-meant, sent-closed, meant_run,
}

admit_steps :
    (b : Broker) (c c₁ c₂ c₃ : Channel) (header arguments proxy : Bytes) (r : Request)
    (ss environment : List Bytes)
    → transfer c 16 ≡ some (header, c₁)
    → request_in header ≡ r
    → within_limits r ≡ true
    → transfer c₁ r.bytes ≡ some (arguments, c₂)
    → transfer c₂ r.proxy_bytes ≡ some (proxy, c₃)
    → child_environment b r.proxy_bytes proxy ≡ ok environment
    → split r.count arguments ≡ some (ss, [])
    → admit b c ≡ meant_run b r.operation ss environment
unfolding admit argv_of
admit_steps b c c₁ c₂ c₃ header arguments proxy r ss environment e₁ e₂ e₃ e₄ e₅ e₆ e₇ =
    rw (e₁, e₂, e₃, e₄, e₅, e₆, e₇) (available (length (b.tools r.operation) == 0))
  where
    found : Result Run
    found = ok (record {
      operation = r.operation;
      argv = b.tools r.operation ∷ ss;
      environment = environment;
    })

    available :
        (missing : Bool)
        → (guard (not missing) enoent >> found) ≡ (if missing then err enoent else found)
    available true = refl
    available false = refl

proxy_size-sent :
    (operation n : ℕ) (p : Bytes) → IsProxyFor operation n p → length (take n (p ++ 0 ∷ [])) ≡ n
proxy_size-sent operation n p (inl (none_given, empty)) = rw none_given refl
proxy_size-sent operation n p (inr (curl, long, short, counted, begins)) =
    omega (arith, length-take n (p ++ 0 ∷ []), length-append p (0 ∷ []))

checked-within_limits :
    (operation : ℕ) (ss : List Bytes) (p : Bytes) (q : Request × Bytes × Bytes)
    → IsChecked operation ss p q
    → tool_curl ≤ operation
    → operation ≤ tool_save_dialog
    → within_limits q.0 ≡ true
unfolding within_limits
checked-within_limits operation ss p q h low high = elim h.proxy_checked [
  | inl none_given ↦
      ground (arith, h.few, h.operation_kept, h.counted, h.sized, h.small, none_given)
  | inr some_given ↦
      ground (arith, h.few, h.operation_kept, h.counted, h.sized, h.small, some_given)
]

length-request_out : (r : Request) → length (request_out r) ≡ 16
unfolding request_out put
length-request_out r = refl

checked-header :
    (operation : ℕ) (ss : List Bytes) (p : Bytes) (q : Request × Bytes × Bytes)
    → IsChecked operation ss p q
    → tool_curl ≤ operation
    → operation ≤ tool_save_dialog
    → request_in (request_out q.0) ≡ q.0
checked-header operation ss p q h low high =
    request_in-request_out q.0 (omega (arith, h.operation_kept)) (omega (arith, h.counted, h.few))
      (omega (arith, h.sized, h.small))
      (elim h.proxy_checked [
        | inl none_given ↦ omega (arith, none_given)
        | inr some_given ↦ omega (arith, some_given)
      ])

admit-checked :
    (b : Broker) (c : Channel) (operation : ℕ) (ss : List Bytes) (p : Bytes)
    (q : Request × Bytes × Bytes)
    → All IsText ss
    → IsText p
    → IsChecked operation ss p q
    → tool_curl ≤ operation
    → operation ≤ tool_save_dialog
    → IsPatient c
    → c.stream ≡ request_out q.0 ++ (q.1 ++ q.2)
    → admit b c ≡ meant_run b operation ss (meant_environment b.environment q.0.proxy_bytes p)
admit-checked b c operation ss p q ts t h low high pc e =
    let r = q.0 in
    let (c₁, t₁, s₁, p₁) = transfer-patient c (request_out r) (q.1 ++ q.2) pc e in
    let (c₂, t₂, s₂, p₂) = transfer-patient c₁ q.1 q.2 p₁ s₁ in
    let (c₃, t₃, s₃, p₃) = transfer-patient c₂ q.2 [] p₂ (s₂ ∙ sym (append-nil q.2)) in
    let sized : r.bytes ≡ length q.1 = h.sized ∙ sym (ap length h.payload) in
    let proxied : r.proxy_bytes ≡ length q.2 =
      sym (ap length h.proxy_kept ∙ proxy_size-sent operation r.proxy_bytes p h.proxy_checked) in
    admit_steps b c c₁ c₂ c₃ (request_out r) q.1 q.2 r ss
      (meant_environment b.environment r.proxy_bytes p)
      (ap (transfer c) (sym (length-request_out r)) ∙ t₁)
      (checked-header operation ss p q h low high)
      (checked-within_limits operation ss p q h low high) (ap (transfer c₁) sized ∙ t₂)
      (ap (transfer c₂) proxied ∙ t₃)
      (ap (child_environment b r.proxy_bytes) h.proxy_kept
        ∙ child_environment-meant b operation r.proxy_bytes p t h.proxy_checked)
      (ap₂ split h.counted (h.payload ∙ sym (append-nil (terminated ss)))
        ∙ split-terminated ss [] ts)
    ∙ ap (λ (n : ℕ). meant_run b n ss (meant_environment b.environment r.proxy_bytes p))
        h.operation_kept

-- Where open_request keeps its end of the channel, serve_request at the other end runs exactly what
-- was asked for, whatever pieces the bytes come in: the frozen program with the given arguments, in
-- the frozen environment, in which a given proxy takes the place of every other; or it answers
-- ENOENT where the program is not there.
pub admit-open_request :
    (o : Opening) (b : Broker) (c : Channel) (operation : ℕ) (ss : List Bytes)
    (proxy : Option Bytes)
    → All IsText ss
    → IsText (text_of proxy)
    → tool_curl ≤ operation
    → operation ≤ tool_save_dialog
    → (open_request o operation (given ss) proxy).closed ≡ 1 ∷ []
    → IsPatient c
    → c.stream ≡ (open_request o operation (given ss) proxy).sent
    → admit b c
      ≡ meant_run b operation ss
          (meant_environment b.environment (proxy_length proxy) (text_of proxy))
admit-open_request o b c operation ss proxy ts t low high kept pc e =
    let (q, checked, sent, fine) = sent-closed o operation ss proxy kept in
    let (h, counted) = checked_request-IsChecked operation ss proxy q ts t checked in
    admit-checked b c operation ss (text_of proxy) q ts t h low high pc (e ∙ sent)
    ∙ ap (λ (n : ℕ). meant_run b operation ss (meant_environment b.environment n (text_of proxy)))
        counted
