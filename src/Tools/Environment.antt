-- ===== src/Tools/Environment.antt =====
-- The environment of a tool (app/tool_broker.c): freeze_environment, and what serve_request makes of
-- it for a curl that is given a proxy.
use mathlib.Core.List.{Mem, mem-cons_self, mem-cons_of_mem}
use whitenoise_linux.Base.Results.{e2big, enomem}
use whitenoise_linux.Base.{
  ℕ, zero, suc, ◌+◌, ◌-◌, ◌≤◌, ◌<◌, List, [], ◌∷◌, ◌++◌, Bytes, Bool, true, false, not, Option,
  none, some, ltb, ◌==◌, ◌&&◌, ◌||◌, if◌then◌else◌, codes, length, take, All, ◌≡◌, refl, ◌⊎◌, arith,
  inl, inr, Bool-cases, length-append,
}

abbrev pub arg_limit : ℕ
arg_limit = 65536

-- The slots of tool_environment.
abbrev pub tool_environment_slots : ℕ
tool_environment_slots = 48

abbrev pub keys : List Bytes
keys =
    codes "HOME"
    ∷ codes "DISPLAY"
    ∷ codes "XAUTHORITY"
    ∷ codes "DBUS_SESSION_BUS_ADDRESS"
    ∷ codes "XDG_CONFIG_HOME"
    ∷ codes "XDG_DATA_HOME"
    ∷ codes "XDG_CACHE_HOME"
    ∷ codes "XDG_RUNTIME_DIR"
    ∷ codes "LANG"
    ∷ codes "LANGUAGE"
    ∷ codes "LC_ALL"
    ∷ codes "LC_CTYPE"
    ∷ codes "LC_MESSAGES"
    ∷ codes "TZ"
    ∷ codes "TMPDIR"
    ∷ codes "SQLITE_TMPDIR"
    ∷ codes "MESA_SHADER_CACHE_DIR"
    ∷ codes "SSL_CERT_FILE"
    ∷ codes "SSL_CERT_DIR"
    ∷ codes "CURL_CA_BUNDLE"
    ∷ codes "http_proxy"
    ∷ codes "https_proxy"
    ∷ codes "all_proxy"
    ∷ codes "no_proxy"
    ∷ codes "HTTP_PROXY"
    ∷ codes "HTTPS_PROXY"
    ∷ codes "ALL_PROXY"
    ∷ codes "NO_PROXY"
    ∷ codes "GDK_BACKEND"
    ∷ codes "GDK_DEBUG"
    ∷ codes "GDK_DISABLE"
    ∷ []

-- What freeze_environment returns, and the entries that it has stored.
abbrev pub Frozen : Type 0
Frozen = ℕ × List Bytes

abbrev stored : Bytes → Frozen → Frozen
stored entry (error, entries) = (error, entry ∷ entries)

-- `key=value`
abbrev pub entry_of : Bytes → Bytes → Bytes
entry_of key value = key ++ b'=' ∷ value

-- One round of the loop, with the rounds behind it; `allocated` is whether malloc gives memory.
unfoldable pub freeze_key : Bytes → Option Bytes → Bool → Frozen → Frozen
freeze_key key none allocated rest = rest
freeze_key key (some value) allocated rest =
    if ltb (arg_limit - length key - 2) (length value)
    then (e2big, [])
    else if allocated
    then stored (entry_of key value) rest
    else (enomem, [])

-- The loop over the keys. getenv and the answers of malloc are arguments.
unfoldable pub freeze_keys : (Bytes → Option Bytes) → (Bytes → Bool) → List Bytes → Frozen
unfolding freeze_key
freeze_keys getenv allocates [] = (0, [])
freeze_keys getenv allocates (key ∷ ks) =
    freeze_key key (getenv key) (allocates key) (freeze_keys getenv allocates ks)

abbrev pub fixed_path : Bytes
fixed_path = codes "PATH=/usr/local/bin:/usr/bin:/bin"

abbrev pub fixed_renderer : Bytes
fixed_renderer = codes "GSK_RENDERER=cairo"

unfoldable pub freeze_environment : (Bytes → Option Bytes) → (Bytes → Bool) → Frozen
unfolding freeze_keys
freeze_environment getenv allocates =
    if not (allocates fixed_path)
    then (enomem, [])
    else if not (allocates fixed_renderer)
    then (enomem, fixed_path ∷ [])
    else stored fixed_path (stored fixed_renderer (freeze_keys getenv allocates keys))

-- strncmp(a, b, n) == 0 for strings without a NUL inside.
unfoldable pub same_start : Bytes → Bytes → ℕ → Bool
same_start a b zero = true
same_start [] [] (suc n) = true
same_start [] (b ∷ bs) (suc n) = false
same_start (a ∷ as') [] (suc n) = false
same_start (a ∷ as') (b ∷ bs) (suc n) = a == b && same_start as' bs n

-- The entries that a given proxy replaces.
unfoldable pub is_proxy : Bytes → Bool
unfolding same_start
is_proxy entry =
    same_start entry (codes "http_proxy=") 11
    || same_start entry (codes "https_proxy=") 12
    || same_start entry (codes "all_proxy=") 10
    || same_start entry (codes "HTTP_PROXY=") 11
    || same_start entry (codes "HTTPS_PROXY=") 12
    || same_start entry (codes "ALL_PROXY=") 10

-- The loop that copies the other entries.
unfoldable pub without_proxies : List Bytes → List Bytes
unfolding is_proxy
without_proxies [] = []
without_proxies (entry ∷ entries) =
    let rest = without_proxies entries in if is_proxy entry then rest else entry ∷ rest

-- The size of `proxy` in serve_request, and of the entry that snprintf makes of it.
abbrev pub proxy_size : ℕ
proxy_size = 2048

abbrev pub proxy_entry_size : ℕ
proxy_entry_size = proxy_size + 11

unfoldable pub curl_environment : List Bytes → Bytes → List Bytes
unfolding without_proxies
curl_environment environment proxy =
    without_proxies environment ++ take (proxy_entry_size - 1) (codes "all_proxy=" ++ proxy) ∷ []

-- An entry that a tool may see: one of the two that are fixed, or a listed key with its value, which
-- fits one argument with its NUL.
abbrev pub IsListed : (Bytes → Option Bytes) → List Bytes → Bytes → Type 0
IsListed getenv ks entry =
    (key : Bytes) × (value : Bytes) × Mem key ks
    × (getenv key ≡ some value)
    × (entry ≡ entry_of key value)
    × (length entry < arg_limit)

IsListed-weaken :
    (getenv : Bytes → Option Bytes) (key : Bytes) (ks es : List Bytes)
    → All (IsListed getenv ks) es
    → All (IsListed getenv (key ∷ ks)) es
IsListed-weaken getenv key ks [] h = tt
IsListed-weaken getenv key ks (e ∷ es) ((k, v, m, g, whole, short), h) =
    ((k, v, mem-cons_of_mem key m, g, whole, short), IsListed-weaken getenv key ks es h)

abbrev AreListed : (Bytes → Option Bytes) → List Bytes → List Bytes → Type 0
AreListed getenv ks es = All (IsListed getenv ks) es × (length es ≤ length ks)

freeze_key-AreListed :
    (getenv : Bytes → Option Bytes) (key : Bytes) (ks : List Bytes) (value : Option Bytes)
    (allocated : Bool) (rest : Frozen)
    → getenv key ≡ value
    → length key + 2 ≤ arg_limit
    → AreListed getenv ks rest.1
    → AreListed getenv (key ∷ ks) (freeze_key key value allocated rest).1
unfolding freeze_key
freeze_key-AreListed getenv key ks none allocated rest e short (h, n) =
    (IsListed-weaken getenv key ks rest.1 h, omega arith)
freeze_key-AreListed getenv key ks (some value) allocated rest e short (h, n) =
    elim (Bool-cases (ltb (arg_limit - length key - 2) (length value))) [
      | inl long ↦ rw long (tt, omega arith)
      | inr room ↦
          rw room (allocation allocated (ground (arith, room, length-append key (b'=' ∷ value))))
    ]
  where
    allocation :
        (allocated : Bool)
        → length (entry_of key value) < arg_limit
        → AreListed getenv
            (key ∷ ks)
            (if allocated then stored (entry_of key value) rest else (enomem, [])).1
    allocation false room = (tt, omega arith)
    allocation true room = (
      ((key, value, mem-cons_self, e, refl, room), IsListed-weaken getenv key ks rest.1 h),
      omega arith,
    )

abbrev AreShort : List Bytes → Type 0
AreShort ks = All (λ (k : Bytes). length k + 2 ≤ arg_limit) ks

freeze_keys-AreListed :
    (getenv : Bytes → Option Bytes) (allocates : Bytes → Bool) (ks : List Bytes)
    → AreShort ks
    → AreListed getenv ks (freeze_keys getenv allocates ks).1
unfolding freeze_keys
freeze_keys-AreListed getenv allocates [] short = (tt, omega arith)
freeze_keys-AreListed getenv allocates (key ∷ ks) (short, shorts) =
    freeze_key-AreListed getenv key ks (getenv key) (allocates key) _ refl short
      (freeze_keys-AreListed getenv allocates ks shorts)

keys-AreShort : AreShort keys
keys-AreShort = omega arith

-- Every entry that is stored for the tools is one of the two fixed ones or a listed key with the
-- value that it has in the environment, short enough for an argument; and the entries leave a slot
-- for the NULL that ends the array. This holds where freezing fails, too.
pub freeze_environment-IsListed :
    (getenv : Bytes → Option Bytes) (allocates : Bytes → Bool)
    → let entries = (freeze_environment getenv allocates).1 in
      All
        (λ (e : Bytes). (e ≡ fixed_path) ⊎ ((e ≡ fixed_renderer) ⊎ IsListed getenv keys e))
        entries
      × (length entries < tool_environment_slots)
unfolding freeze_environment
freeze_environment-IsListed getenv allocates = elim (Bool-cases (allocates fixed_path)) [
  | inr e ↦ rw e (tt, omega arith)
  | inl e ↦ elim (Bool-cases (allocates fixed_renderer)) [
    | inr e' ↦ rw (e, e') ((inl refl, tt), omega arith)
    | inl e' ↦
        let (listed, few) = freeze_keys-AreListed getenv allocates keys keys-AreShort in
        rw (e, e') ((inl refl, (inr (inl refl), any _ listed)), omega arith)
  ]
]
  where
    any :
        (es : List Bytes)
        → All (IsListed getenv keys) es
        → All (λ (e : Bytes). (e ≡ fixed_path) ⊎ ((e ≡ fixed_renderer) ⊎ IsListed getenv keys e)) es
    any [] h = tt
    any (e ∷ es) (h, hs) = (inr (inr h), any es hs)
