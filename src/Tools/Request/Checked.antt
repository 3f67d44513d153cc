-- ===== src/Tools/Request/Checked.antt =====
-- What the checks of open_request let through (app/tool_broker.c).
use whitenoise_linux.Base.Results.{ok, err, guard-eq-ok, ok-injective, >>=-eq-ok, e2big, einval}
use whitenoise_linux.Base.{
  ℕ, ◌+◌, ◌≤◌, ◌<◌, List, [], ◌∷◌, ◌++◌, Bytes, Bool, true, not, Option, none, some, ltb, leb, ◌==◌,
  ◌&&◌, ◌||◌, length, take, All, ◌≡◌, refl, sym, ap, ◌∙◌, arith, inl, inr, Bool-cases, if_true,
  if_false, ◌⊎◌, subst,
}
use whitenoise_linux.Broker.Strings.{IsText, terminated, strnlen-text, strnlen-long}
use whitenoise_linux.Tools.Environment.{arg_limit, proxy_size, same_start}
use whitenoise_linux.Tools.Request.{
  Request, pack, proxy_length, pointed, checked_request, text_of, arg_count, tool_curl, scheme,
}
use whitenoise_linux.Tools.Request.Packed.{given, length-given, pack-terminated, fitting}

-- A proxy that may go with a request for this tool: none, or for curl a short text with the scheme.
abbrev pub IsProxyFor : ℕ → ℕ → Bytes → Type 0
IsProxyFor operation n p =
    ((n ≡ 0) × (p ≡ []))
    ⊎ ((operation ≡ tool_curl)
        × (10 ≤ length p)
        × (length p < proxy_size)
        × (n ≡ length p + 1)
        × (same_start p scheme 9 ≡ true))

proxy_length-cases :
    (proxy : Option Bytes)
    → IsText (text_of proxy)
    → ((proxy_length proxy ≡ 0) × (text_of proxy ≡ []))
      ⊎ ((proxy_length proxy ≡ proxy_size + 1)
          ⊎ ((proxy_length proxy ≡ length (text_of proxy) + 1)
              × (0 < length (text_of proxy))
              × (length (text_of proxy) < proxy_size)))
unfolding proxy_length
proxy_length-cases none t = inl (refl, refl)
proxy_length-cases (some []) t = inl (refl, refl)
proxy_length-cases (some (c ∷ p)) t = elim (Bool-cases (ltb (length (c ∷ p)) proxy_size)) [
  | inl short ↦ inr (
      inr (
        ap (λ (n : ℕ). n + 1) (strnlen-text (c ∷ p) [] proxy_size t (ground (arith, short))),
        omega arith,
        ground (arith, short),
      ))
  | inr long ↦ inr (
      inl
        (ap (λ (n : ℕ). n + 1) (strnlen-long (c ∷ p) (0 ∷ []) proxy_size t (ground (arith, long)))))
]

-- The checks on the proxy, which follow one another.
abbrev proxy_checks : ℕ → ℕ → Bytes → Bool
proxy_checks operation n p =
    not (ltb proxy_size n || not (n == 0) && not (operation == tool_curl))
    && not (not (n == 0) && (ltb n 11 || not (same_start p scheme 9)))

proxy_checks-IsProxyFor :
    (operation : ℕ) (proxy : Option Bytes)
    → IsText (text_of proxy)
    → proxy_checks operation (proxy_length proxy) (text_of proxy) ≡ true
    → IsProxyFor operation (proxy_length proxy) (text_of proxy)
proxy_checks-IsProxyFor operation proxy t h = elim (proxy_length-cases proxy t) [
  | inl empty ↦ inl empty
  | inr (inl long) ↦ absurd (ground (arith, long))
  | inr (inr (n, some_text, short)) ↦
      let h' : proxy_checks operation (length (text_of proxy) + 1) (text_of proxy) ≡ true =
        subst (λ (u : ℕ). proxy_checks operation u (text_of proxy) ≡ true) n h in
      inr (ground arith, ground arith, short, n, ground arith)
]

sent_proxy :
    (proxy : Option Bytes)
    → take (proxy_length proxy) (pointed proxy)
      ≡ take (proxy_length proxy) (text_of proxy ++ 0 ∷ [])
unfolding proxy_length
sent_proxy none = refl
sent_proxy (some p) = refl

fitting-ok :
    (block payload : Bytes)
    → fitting block ≡ ok payload
    → (length block ≤ arg_limit) × (payload ≡ block)
fitting-ok block payload e = elim (Bool-cases (leb (length block) arg_limit)) [
  | inl small ↦ (ground (arith, small), sym (ok-injective _ _ (sym (if_true _ _ _ small) ∙ e)))
  | inr large ↦ cc (if_false _ (ok block) (err e2big) large)
]

-- A request that the checks let through: its header says what follows it.
pub record IsChecked (operation : ℕ) (ss : List Bytes) (proxy : Bytes) (q : Request × Bytes × Bytes)
    : Type 0 where
  pub few : length ss ≤ arg_count
  pub operation_kept : q.0.operation ≡ operation
  pub counted : q.0.count ≡ length ss
  pub sized : q.0.bytes ≡ length (terminated ss)
  pub small : length (terminated ss) ≤ arg_limit
  pub payload : q.1 ≡ terminated ss
  pub proxy_kept : q.2 ≡ take q.0.proxy_bytes (proxy ++ 0 ∷ [])
  pub proxy_checked : IsProxyFor operation q.0.proxy_bytes proxy

pub checked_request-IsChecked :
    (operation : ℕ) (ss : List Bytes) (proxy : Option Bytes) (q : Request × Bytes × Bytes)
    → All IsText ss
    → IsText (text_of proxy)
    → checked_request operation (given ss) proxy ≡ ok q
    → IsChecked operation ss (text_of proxy) q × (q.0.proxy_bytes ≡ proxy_length proxy)
unfolding checked_request
checked_request-IsChecked operation ss proxy q ts t e =
    let n = proxy_length proxy in
    let (few, e₁) = guard-eq-ok (leb (length (given ss)) arg_count) e2big _ e in
    let (first, e₂) =
      guard-eq-ok (not (ltb proxy_size n || not (n == 0) && not (operation == tool_curl))) einval _
        e₁ in
    let (second, e₃) =
      guard-eq-ok (not (not (n == 0) && (ltb n 11 || not (same_start (text_of proxy) scheme 9))))
        einval _ e₂ in
    let (payload, packed, e₄) = >>=-eq-ok (pack [] (given ss)) _ e₃ in
    let (small, whole) = fitting-ok _ _ (sym (pack-terminated [] ss ts (omega arith)) ∙ packed) in
    let meets : Request × Bytes × Bytes → Type 0 =
      λ u. IsChecked operation ss (text_of proxy) u × (u.0.proxy_bytes ≡ n) in
    subst meets (ok-injective _ q e₄) (
      record {
        few = ground (arith, few, length-given ss);
        operation_kept = refl;
        counted = length-given ss;
        sized = ap length whole;
        small = small;
        payload = whole;
        proxy_kept = sent_proxy proxy;
        proxy_checked = proxy_checks-IsProxyFor operation proxy t (ground (arith, first, second));
      },
      refl,
    )
