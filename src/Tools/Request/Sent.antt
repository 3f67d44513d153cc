-- ===== src/Tools/Request/Sent.antt =====
-- What open_request sends, as serve_request reads it (app/tool_broker.c).
use whitenoise_linux.Base.Results.{Result, ok, err, enoent, eio}
use whitenoise_linux.Base.{
  ℕ, ◌+◌, ◌-◌, ◌≤◌, ◌<◌, List, [], ◌∷◌, ◌++◌, Bytes, Bool, true, false, Option, none, some, ◌==◌,
  if◌then◌else◌, codes, length, take, ◌≡◌, refl, sym, ap, ◌∙◌, arith, inl, inr, Bool-cases,
  append-nil, length-append, if_true, if_false, take_all, take-append, subst,
}
use whitenoise_linux.Broker.Strings.{IsText, strnlen-text}
use whitenoise_linux.Decoder.Wire.{put, u32, IsU32}
use whitenoise_linux.Tools.Environment.{
  proxy_size, proxy_entry_size, same_start, without_proxies, curl_environment,
}
use whitenoise_linux.Tools.Request.{
  Request, Opening, Opened, Broker, Run, request_out, request_in, open_request, checked_request,
  child_environment, proxy_accepted, send_request, scheme, flagged, paired, open_checked, both,
}
use whitenoise_linux.Tools.Request.Packed.{given}
use whitenoise_linux.Tools.Request.Checked.{IsProxyFor}
use whitenoise_linux.Broker.Channel.{Turn, write_turns, write_turns-prefix}

abbrev pub lost : Opened
lost = record { error = eio; sent = []; opened = both; closed = 1 ∷ 0 ∷ [] }

-- What went out, where open_request has kept its end of the channel.
abbrev pub SentBy : ℕ → List Bytes → Option Bytes → Opened → Type 0
SentBy operation ss proxy r =
    (q : Request × Bytes × Bytes) × (checked_request operation (given ss) proxy ≡ ok q)
    × (r.sent ≡ request_out q.0 ++ (q.1 ++ q.2))
    × (r.error ≡ 0)

-- The message has gone out, and there is no error.
abbrev pub Handed : Bytes → Opened → Type 0
Handed message r = (r.sent ≡ message) × (r.error ≡ 0)

pub sent_whole :
    (turns : List Turn) (message : Bytes)
    → (send_request turns message).closed ≡ 1 ∷ []
    → Handed message (send_request turns message)
unfolding send_request
sent_whole turns message e =
    let (left, whole, all) = write_turns-prefix turns message in
    elim (Bool-cases (write_turns turns message).0) [
      | inl sent ↦ rw sent (
        sym (append-nil _)
            ∙ ap (λ (t : Bytes). (write_turns turns message).1 ++ t) (sym (all sent))
            ∙ whole,
        refl,
      )
      | inr stopped ↦
          absurd (two (sym (ap (λ (r : Opened). r.closed) (if_false _ _ _ stopped)) ∙ e))
    ]
  where
    two : ¬ (◌≡◌ {A = List ℕ} (1 ∷ 0 ∷ []) (1 ∷ []))
    two h = cc

pub sent_flagged :
    (o : Opening) (handed : Bool) (message : Bytes)
    → (if handed then send_request o.turns message else lost).closed ≡ 1 ∷ []
    → Handed message (if handed then send_request o.turns message else lost)
sent_flagged o true message e = sent_whole o.turns message e
sent_flagged o false message e = cc

pub sent_paired :
    (o : Opening) (pair flag : Option ℕ) (message : Bytes)
    → o.flag_error ≡ flag
    → (paired o pair message).closed ≡ 1 ∷ []
    → Handed message (paired o pair message)
sent_paired o (some n) flag message f e = cc
sent_paired o none (some n) message f e =
    absurd (cc (subst (λ (x : Option ℕ). (flagged o x message).closed ≡ 1 ∷ []) f e))
sent_paired o none none message f e =
    subst (λ (x : Option ℕ). Handed message (flagged o x message)) (sym f)
      (sent_flagged o o.handed_over message
        (subst (λ (x : Option ℕ). (flagged o x message).closed ≡ 1 ∷ []) f e))

pub sent_checked :
    (o : Opening) (checked : Result (Request × Bytes × Bytes))
    → (open_checked o checked).closed ≡ 1 ∷ []
    → (q : Request × Bytes × Bytes) × (checked ≡ ok q)
      × Handed (request_out q.0 ++ (q.1 ++ q.2)) (open_checked o checked)
sent_checked o (err n) e = cc
sent_checked o (ok q) e = (q, refl, sent_paired o o.pair_error o.flag_error _ refl e)

pub request_in-request_out :
    (r : Request)
    → IsU32 r.operation
    → IsU32 r.count
    → IsU32 r.bytes
    → IsU32 r.proxy_bytes
    → request_in (request_out r) ≡ r
unfolding request_in request_out put u32
request_in-request_out r a b c d = λ i. record {
  operation = operation i;
  count = count i;
  bytes = bytes i;
  proxy_bytes = proxy_bytes i;
}
  where
    operation : u32 (request_out r) 0 ≡ r.operation
    operation = omega arith

    count : u32 (request_out r) 4 ≡ r.count
    count = omega arith

    bytes : u32 (request_out r) 8 ≡ r.bytes
    bytes = omega arith

    proxy_bytes : u32 (request_out r) 12 ≡ r.proxy_bytes
    proxy_bytes = omega arith

-- The environment of the tool: its own, or for a given proxy with the proxy in it alone.
abbrev pub meant_environment : List Bytes → ℕ → Bytes → List Bytes
meant_environment environment n p =
    if n == 0 then environment else without_proxies environment ++ (codes "all_proxy=" ++ p) ∷ []

pub accepts_proxy :
    (p : Bytes)
    → IsText p
    → 10 ≤ length p
    → length p < proxy_size
    → same_start p scheme 9 ≡ true
    → proxy_accepted (length p + 1) (p ++ 0 ∷ []) ≡ true
unfolding proxy_accepted
accepts_proxy p t long short begins =
    let text : take (length p + 1 - 1) (p ++ 0 ∷ []) ≡ p =
      ap (λ (k : ℕ). take k (p ++ 0 ∷ [])) (omega arith) ∙ take-append p (0 ∷ []) in
    rw (strnlen-text p [] (length p + 1) t (omega arith), text, begins) (ground arith)

-- The entry of the proxy is not cut.
pub curl_environment-whole :
    (environment : List Bytes) (p : Bytes)
    → length p < proxy_size
    → curl_environment environment p ≡ without_proxies environment ++ (codes "all_proxy=" ++ p) ∷ []
unfolding curl_environment
curl_environment-whole environment p short =
    ap (λ (t : Bytes). without_proxies environment ++ t ∷ [])
      (take_all (proxy_entry_size - 1) (codes "all_proxy=" ++ p) (omega arith))

pub child_environment-meant :
    (b : Broker) (operation n : ℕ) (p : Bytes)
    → IsText p
    → IsProxyFor operation n p
    → child_environment b n (take n (p ++ 0 ∷ [])) ≡ ok (meant_environment b.environment n p)
unfolding child_environment
child_environment-meant b operation n p t (inl (none_given, empty)) = rw none_given refl
child_environment-meant b operation n p t (inr (curl, long, short, counted, begins)) =
    subst
      (λ (k : ℕ).
        child_environment b k (take k (p ++ 0 ∷ [])) ≡ ok (meant_environment b.environment k p))
      (sym counted)
      (rw (take_all (length p + 1) (p ++ 0 ∷ []) (omega (arith, length-append p (0 ∷ [])))) (
        if_false (length p + 1 == 0) _ _ (ground arith)
        ∙ if_true (proxy_accepted (length p + 1) (p ++ 0 ∷ [])) _ _
            (accepts_proxy p t long short begins)
        ∙ ap ok (
            meant p (length p + 1) (ground arith)
              (ap (take (length p + 1 - 1)) refl
                ∙ ap (λ (k : ℕ). take k (p ++ 0 ∷ [])) (omega arith)
                ∙ take-append p (0 ∷ []))
              short)))
  where
    meant :
        (p : Bytes) (k : ℕ)
        → (k == 0) ≡ false
        → take (k - 1) (p ++ 0 ∷ []) ≡ p
        → length p < proxy_size
        → curl_environment b.environment (take (k - 1) (p ++ 0 ∷ []))
          ≡ meant_environment b.environment k p
    meant p k positive text short =
        ap (curl_environment b.environment) text
        ∙ curl_environment-whole b.environment p short
        ∙ sym (if_false (k == 0) _ _ positive)

pub sent-closed :
    (o : Opening) (operation : ℕ) (ss : List Bytes) (proxy : Option Bytes)
    → (open_request o operation (given ss) proxy).closed ≡ 1 ∷ []
    → SentBy operation ss proxy (open_request o operation (given ss) proxy)
unfolding open_request
sent-closed o operation ss proxy e =
    let (q, checked, handed) = sent_checked o _ e in (q, checked, handed.0, handed.1)

-- What serve_request runs, or its error where there is no such tool.
abbrev pub meant_run : Broker → ℕ → List Bytes → List Bytes → Result Run
meant_run b operation arguments environment =
    if length (b.tools operation) == 0
    then err enoent
    else ok (record {
      operation = operation;
      argv = b.tools operation ∷ arguments;
      environment = environment;
    })
