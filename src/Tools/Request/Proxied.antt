-- ===== src/Tools/Request/Proxied.antt =====
-- The environment that a request may get in serve_request (app/tool_broker.c).
use mathlib.Core.Bool.{false≢true}
use whitenoise_linux.Base.Results.{ok, ok-injective}
use whitenoise_linux.Base.{
  ℕ, zero, suc, ◌-◌, ◌&&◌, ◌||◌, Bool, codes, take, take_all, length-take, ==_iff, ◌≢◌, ◌≤◌, ◌<◌,
  List, [], ◌∷◌, ◌++◌, Bytes, true, false, not, ◌==◌, length, All, ◌≡◌, refl, sym, ap, ◌∙◌, arith,
  inl, inr, Bool-cases, ◌⊎◌, subst, if_true, if_false,
}
use whitenoise_linux.Broker.Strings.{strnlen, IsText}
use whitenoise_linux.Tools.Environment.{
  proxy_size, proxy_entry_size, same_start, is_proxy, without_proxies, curl_environment,
}
use whitenoise_linux.Tools.Request.{scheme, Broker, child_environment, proxy_accepted, tool_curl}

-- The prefixes of the entries that name a proxy.
abbrev pub proxy_prefixes : List Bytes
proxy_prefixes =
    codes "http_proxy="
    ∷ codes "https_proxy="
    ∷ codes "all_proxy="
    ∷ codes "HTTP_PROXY="
    ∷ codes "HTTPS_PROXY="
    ∷ codes "ALL_PROXY="
    ∷ []

-- A text with one of these at its front, and one without.
abbrev pub HasPrefix : Bytes → List Bytes → Type 0
HasPrefix entry [] = ⊥
HasPrefix entry (p ∷ ps) = ((rest : Bytes) × (entry ≡ p ++ rest)) ⊎ HasPrefix entry ps

abbrev pub HasNoPrefix : Bytes → List Bytes → Type 0
HasNoPrefix entry ps = All (λ (p : Bytes). (rest : Bytes) → entry ≢ p ++ rest) ps

-- The entries that name a proxy are left out, the others stay in their order.
abbrev pub IsRest : List Bytes → List Bytes → Type 0
IsRest [] rest = rest ≡ []
IsRest (e ∷ es) rest =
    (HasPrefix e proxy_prefixes × IsRest es rest)
    ⊎ (HasNoPrefix e proxy_prefixes
        × ((others : List Bytes) × (rest ≡ e ∷ others) × IsRest es others))

-- strncmp over the whole of the second text looks for a prefix.
pub same_start-prefix :
    (a b : Bytes) (n : ℕ)
    → n ≤ length b
    → same_start a b n ≡ true
    → (rest : Bytes) × (a ≡ take n b ++ rest)
unfolding same_start
same_start-prefix a b zero h e = (a, refl)
same_start-prefix a [] (suc n) h e = absurd (omega (arith, h))
same_start-prefix [] (y ∷ b) (suc n) h e = absurd (false≢true e)
same_start-prefix (x ∷ a) (y ∷ b) (suc n) h e =
    let (p, q) = both (x == y) _ e in
    let (rest, k) = same_start-prefix a b n (omega (arith, h)) q in
    (rest, ap (λ (c : ℕ). c ∷ a) ((==_iff x y).0 p) ∙ ap (◌∷◌ y) k)
  where
    both : (p q : Bool) → (p && q) ≡ true → (p ≡ true) × (q ≡ true)
    both p q e = ground arith

pub prefix-same_start : (p rest : Bytes) → same_start (p ++ rest) p (length p) ≡ true
unfolding same_start
prefix-same_start [] rest = refl
prefix-same_start (c ∷ p) rest = ground (arith, prefix-same_start p rest)

pub no_prefix :
    (entry p : Bytes) → same_start entry p (length p) ≡ false → (rest : Bytes) → entry ≢ p ++ rest
no_prefix entry p e rest k =
    false≢true (sym e ∙ ap (λ (a : Bytes). same_start a p (length p)) k ∙ prefix-same_start p rest)

pub is_proxy-HasPrefix : (entry : Bytes) → is_proxy entry ≡ true → HasPrefix entry proxy_prefixes
unfolding is_proxy
is_proxy-HasPrefix entry e = elim (one_of _ _ _ _ _ _ e) [
  | inl a ↦ inl (same_start-prefix entry (codes "http_proxy=") 11 (omega arith) a)
  | inr (inl a) ↦ inr (inl (same_start-prefix entry (codes "https_proxy=") 12 (omega arith) a))
  | inr (inr (inl a)) ↦
      inr (inr (inl (same_start-prefix entry (codes "all_proxy=") 10 (omega arith) a)))
  | inr (inr (inr (inl a))) ↦
      inr (inr (inr (inl (same_start-prefix entry (codes "HTTP_PROXY=") 11 (omega arith) a))))
  | inr (inr (inr (inr (inl a)))) ↦
      inr
        (inr (inr (inr (inl (same_start-prefix entry (codes "HTTPS_PROXY=") 12 (omega arith) a)))))
  | inr (inr (inr (inr (inr a)))) ↦ inr (
      inr (inr (inr (inr (inl (same_start-prefix entry (codes "ALL_PROXY=") 10 (omega arith) a))))))
]
  where
    one_of :
        (a b c d f g : Bool)
        → (a || b || c || d || f || g) ≡ true
        → (a ≡ true) ⊎ ((b ≡ true) ⊎ ((c ≡ true) ⊎ ((d ≡ true) ⊎ ((f ≡ true) ⊎ (g ≡ true)))))
    one_of a b c d f g e = ground arith

pub is_proxy-HasNoPrefix :
    (entry : Bytes) → is_proxy entry ≡ false → HasNoPrefix entry proxy_prefixes
unfolding is_proxy
is_proxy-HasNoPrefix entry e =
    let (a, b, c, d, f, g) = none_of _ _ _ _ _ _ e in
    (
      no_prefix entry (codes "http_proxy=") a,
      (
        no_prefix entry (codes "https_proxy=") b,
        (
          no_prefix entry (codes "all_proxy=") c,
          (
            no_prefix entry (codes "HTTP_PROXY=") d,
            (
              no_prefix entry (codes "HTTPS_PROXY=") f,
              (no_prefix entry (codes "ALL_PROXY=") g, tt),
            ),
          ),
        ),
      ),
    )
  where
    none_of :
        (a b c d f g : Bool)
        → (a || b || c || d || f || g) ≡ false
        → (a ≡ false) × (b ≡ false) × (c ≡ false) × (d ≡ false) × (f ≡ false) × (g ≡ false)
    none_of a b c d f g e = ground arith

pub without_proxies-IsRest : (es : List Bytes) → IsRest es (without_proxies es)
unfolding without_proxies
without_proxies-IsRest [] = refl
without_proxies-IsRest (e ∷ es) = elim (Bool-cases (is_proxy e)) [
  | inl h ↦
      subst (IsRest (e ∷ es)) (sym (if_true (is_proxy e) _ _ h))
        (inl (is_proxy-HasPrefix e h, without_proxies-IsRest es))
  | inr h ↦
      subst (IsRest (e ∷ es)) (sym (if_false (is_proxy e) _ _ h))
        (inr (is_proxy-HasNoPrefix e h, (without_proxies es, refl, without_proxies-IsRest es)))
]

-- The proxy that curl may get: a text of at most 2047 bytes that starts like a URI of socks5h, up to
-- the first of its slashes.
abbrev pub IsProxy : Bytes → Type 0
IsProxy proxy =
    ((rest : Bytes) × (proxy ≡ codes "socks5h:/" ++ rest)) × (length proxy < 2048) × IsText proxy

pub strnlen-IsText : (s : Bytes) (n : ℕ) → IsText (take (strnlen s n) s)
unfolding strnlen
strnlen-IsText [] n = tt
strnlen-IsText (c ∷ s) zero = tt
strnlen-IsText (c ∷ s) (suc n) = elim (Bool-cases (c == 0)) [
  | inl e ↦
      subst (λ (m : ℕ). IsText (take m (c ∷ s))) (sym (if_true (c == 0) 0 (suc (strnlen s n)) e)) tt
  | inr e ↦
      subst (λ (m : ℕ). IsText (take m (c ∷ s))) (sym (if_false (c == 0) 0 (suc (strnlen s n)) e))
        (ground (arith, e), strnlen-IsText s n)
]

-- The environment that a tool may get: the frozen one; or, for curl only, the frozen one without the
-- entries of any proxy and with all_proxy behind them.
abbrev pub IsEnvironment : Broker → ℕ → List Bytes → Type 0
IsEnvironment b operation environment =
    (environment ≡ b.environment)
    ⊎ ((operation ≡ tool_curl)
        × ((proxy : Bytes) × (others : List Bytes) × IsProxy proxy
            × IsRest b.environment others
            × (environment ≡ others ++ (codes "all_proxy=" ++ proxy) ∷ [])))

-- snprintf has room for the entry.
pub entry_whole :
    (p : Bytes)
    → length p < proxy_size
    → take (proxy_entry_size - 1) (codes "all_proxy=" ++ p) ≡ codes "all_proxy=" ++ p
entry_whole p h = take_all (proxy_entry_size - 1) (codes "all_proxy=" ++ p) (omega (arith, h))

pub proxy_accepted-IsProxy :
    (n : ℕ) (proxy : Bytes)
    → n ≤ proxy_size
    → (n == 0) ≡ false
    → proxy_accepted n proxy ≡ true
    → IsProxy (take (n - 1) proxy)
unfolding proxy_accepted
proxy_accepted-IsProxy n proxy few given e = (
  same_start-prefix (take (n - 1) proxy) scheme 9 (omega arith) (third _ _ _ e),
  omega (arith, length-take (n - 1) proxy, few, nonzero n given),
  subst (λ (m : ℕ). IsText (take m proxy)) ((==_iff (strnlen proxy n) (n - 1)).0 (second _ _ _ e))
      (strnlen-IsText proxy n),
)
  where
    second : (a b c : Bool) → not (a || not b || not c) ≡ true → b ≡ true
    second a b c e = ground arith

    third : (a b c : Bool) → not (a || not b || not c) ≡ true → c ≡ true
    third a b c e = ground arith

    nonzero : (n : ℕ) → (n == 0) ≡ false → 0 < n
    nonzero n e = ground arith

pub child_environment-IsEnvironment :
    (b : Broker) (operation n : ℕ) (proxy : Bytes) (environment : List Bytes)
    → n ≤ proxy_size
    → ((n == 0) ≡ false → operation ≡ tool_curl)
    → child_environment b n proxy ≡ ok environment
    → IsEnvironment b operation environment
unfolding child_environment curl_environment
child_environment-IsEnvironment b operation n proxy environment few curl e =
    elim (Bool-cases (n == 0)) [
      | inl z ↦ inl (sym (ok-injective _ _ (sym (if_true (n == 0) _ _ z) ∙ e)))
      | inr z ↦ elim (Bool-cases (proxy_accepted n proxy)) [
        | inr h ↦ cc (sym (if_false (n == 0) _ _ z ∙ if_false (proxy_accepted n proxy) _ _ h) ∙ e)
        | inl h ↦
            let e' = sym (if_false (n == 0) _ _ z ∙ if_true (proxy_accepted n proxy) _ _ h) ∙ e in
            let given = proxy_accepted-IsProxy n proxy few z h in
            inr (
              curl z,
              (
                take (n - 1) proxy,
                without_proxies b.environment,
                given,
                without_proxies-IsRest b.environment,
                sym (ok-injective _ _ e')
                    ∙ ap (λ (x : Bytes). without_proxies b.environment ++ x ∷ [])
                        (entry_whole (take (n - 1) proxy) given.1),
              ),
            )
      ]
    ]
