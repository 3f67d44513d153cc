-- ===== src/Proxy/Credentials.antt =====
-- wn_proxy_credential_valid and wn_proxy_credentials of app/proxy_credentials.h.
use whitenoise_linux.Base.{
  ℕ, zero, suc, [], ◌∷◌, Bytes, Bool, true, false, ◌&&◌, ◌||◌, Option, none, some, ltb, leb, ◌==◌,
  if◌then◌else◌, length,
}

abbrev pub between : ℕ → ℕ → ℕ → Bool
between low high c = leb low c && leb c high

-- What a first byte announces: the bytes that follow, and the bounds of the next one.
abbrev pub lead : ℕ → Option (ℕ × ℕ × ℕ)
lead c =
    if between 194 223 c
    then some (1, 128, 191)
    else if between 224 239 c
    then some (2, (if c == 224 then 160 else 128), (if c == 237 then 159 else 191))
    else if between 240 244 c
    then some (3, (if c == 240 then 144 else 128), (if c == 244 then 143 else 191))
    else none

-- What is to follow a first byte: nothing behind an ASCII byte.
abbrev pub step : ℕ → Option (ℕ × ℕ × ℕ)
step c = if ltb c 128 then some (0, 128, 191) else lead c

-- The loop over the bytes; `need` bytes are still to follow, the next one within the bounds.
unfoldable pub valid_from : ℕ → ℕ → ℕ → Bytes → Bool
valid_from zero low high [] = true
valid_from (suc need) low high [] = false
valid_from zero low high (c ∷ cs) = elim (step c) [
  | none ↦ false
  | some (need, low', high') ↦ if ltb (length cs) need then false else valid_from need low' high' cs
]
valid_from (suc need) low high (c ∷ cs) =
    if ltb c low || ltb high c then false else valid_from need 128 191 cs

-- wn_proxy_credential_valid
-- `value` is the text of a C string, which has no NUL.
unfoldable pub wn_proxy_credential_valid : Bytes → Bool
wn_proxy_credential_valid v =
    if length v == 0 || ltb 255 (length v) then false else valid_from 0 128 191 v

-- 0 = anonymous, 1 = authenticated, -1 = invalid
pub data Authentication : Type 0 where
  anonymous authenticated invalid : Authentication

-- getenv, with "" for a variable that is not set.
abbrev pub or_empty : Option Bytes → Bytes
or_empty none = []
or_empty (some v) = v

-- wn_proxy_credentials: the result, with the user name and the password.
unfoldable pub wn_proxy_credentials : Option Bytes → Option Bytes → Authentication × Bytes × Bytes
wn_proxy_credentials username password =
    let u = or_empty username in
    let p = or_empty password in
    (
      if length u == 0 && length p == 0
          then anonymous
          else if wn_proxy_credential_valid u && wn_proxy_credential_valid p
          then authenticated
          else invalid,
      u,
      p,
    )
