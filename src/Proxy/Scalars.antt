-- ===== src/Proxy/Scalars.antt =====
-- What wn_proxy_credential_valid of app/proxy_credentials.h accepts: UTF-8.
use whitenoise_linux.Base.{
  ℕ, suc, ◌+◌, ◌/◌, ◌%◌, ◌≤◌, ◌<◌, List, [], ◌∷◌, ◌++◌, Bytes, true, false, ◌||◌, some, ltb, ◌==◌,
  if◌then◌else◌, length, All, ◌≡◌, refl, ◌∙◌, arith, ◌⊎◌, inl, inr, Bool-cases,
}
use whitenoise_linux.Proxy.Credentials.{between, step, valid_from, wn_proxy_credential_valid}

-- A Unicode scalar value: no surrogate, and not beyond U+10FFFF.
abbrev pub IsScalar : ℕ → Type 0
IsScalar n = (n < 55296) ⊎ ((57344 ≤ n) × (n < 1114112))

-- Its UTF-8 bytes.
abbrev pub utf8 : ℕ → Bytes
utf8 n =
    if ltb n 128
    then n ∷ []
    else if ltb n 2048
    then (192 + n / 64) ∷ (128 + n % 64) ∷ []
    else if ltb n 65536
    then (224 + n / 4096) ∷ (128 + n / 64 % 64) ∷ (128 + n % 64) ∷ []
    else (240 + n / 262144) ∷ (128 + n / 4096 % 64) ∷ (128 + n / 64 % 64) ∷ (128 + n % 64) ∷ []

abbrev pub text : List ℕ → Bytes
text [] = []
text (n ∷ ns) = utf8 n ++ text ns

first_step :
    (c need low high : ℕ) (cs : Bytes)
    → step c ≡ some (need, low, high)
    → need ≤ length cs
    → valid_from 0 128 191 (c ∷ cs) ≡ valid_from need low high cs
unfolding valid_from
first_step c need low high cs e h = rw (valid_from, e, enough) refl
  where
    enough : ltb (length cs) need ≡ false
    enough = ground arith

next_step :
    (c need low high : ℕ) (cs : Bytes)
    → low ≤ c
    → c ≤ high
    → valid_from (suc need) low high (c ∷ cs) ≡ valid_from need 128 191 cs
unfolding valid_from
next_step c need low high cs h k = rw (valid_from, inside) refl
  where
    inside : (ltb c low || ltb high c) ≡ false
    inside = ground arith

abbrev low_3 : ℕ → ℕ
low_3 c = if c == 224 then 160 else 128

abbrev high_3 : ℕ → ℕ
high_3 c = if c == 237 then 159 else 191

abbrev low_4 : ℕ → ℕ
low_4 c = if c == 240 then 144 else 128

abbrev high_4 : ℕ → ℕ
high_4 c = if c == 244 then 143 else 191

step_1 : (c : ℕ) → c < 128 → step c ≡ some (0, 128, 191)
step_1 c h = ground arith

step_2 : (c : ℕ) → 194 ≤ c → c ≤ 223 → step c ≡ some (1, 128, 191)
step_2 c h k = ground arith

step_3 : (c : ℕ) → 224 ≤ c → c ≤ 239 → step c ≡ some (2, low_3 c, high_3 c)
step_3 c h k = rw (no_1, no_2, is_3) refl
  where
    no_1 : ltb c 128 ≡ false
    no_1 = ground arith

    no_2 : between 194 223 c ≡ false
    no_2 = ground arith

    is_3 : between 224 239 c ≡ true
    is_3 = ground arith

step_4 : (c : ℕ) → 240 ≤ c → c ≤ 244 → step c ≡ some (3, low_4 c, high_4 c)
step_4 c h k = rw (no_1, no_2, no_3, is_4) refl
  where
    no_1 : ltb c 128 ≡ false
    no_1 = ground arith

    no_2 : between 194 223 c ≡ false
    no_2 = ground arith

    no_3 : between 224 239 c ≡ false
    no_3 = ground arith

    is_4 : between 240 244 c ≡ true
    is_4 = ground arith

valid_2 :
    (a b : ℕ) (rest : Bytes)
    → 194 ≤ a
    → a ≤ 223
    → 128 ≤ b
    → b ≤ 191
    → valid_from 0 128 191 (a ∷ b ∷ rest) ≡ valid_from 0 128 191 rest
valid_2 a b rest h k l m =
    first_step a 1 128 191 (b ∷ rest) (step_2 a h k) (omega arith) ∙ next_step b 0 128 191 rest l m

valid_3 :
    (a b c : ℕ) (rest : Bytes)
    → 224 ≤ a
    → a ≤ 239
    → low_3 a ≤ b
    → b ≤ high_3 a
    → 128 ≤ c
    → c ≤ 191
    → valid_from 0 128 191 (a ∷ b ∷ c ∷ rest) ≡ valid_from 0 128 191 rest
valid_3 a b c rest h k l m n o =
    first_step a 2 (low_3 a) (high_3 a) (b ∷ c ∷ rest) (step_3 a h k) (omega arith)
    ∙ next_step b 1 (low_3 a) (high_3 a) (c ∷ rest) l m
    ∙ next_step c 0 128 191 rest n o

valid_4 :
    (a b c d : ℕ) (rest : Bytes)
    → 240 ≤ a
    → a ≤ 244
    → low_4 a ≤ b
    → b ≤ high_4 a
    → 128 ≤ c
    → c ≤ 191
    → 128 ≤ d
    → d ≤ 191
    → valid_from 0 128 191 (a ∷ b ∷ c ∷ d ∷ rest) ≡ valid_from 0 128 191 rest
valid_4 a b c d rest h k l m n o p q =
    first_step a 3 (low_4 a) (high_4 a) (b ∷ c ∷ d ∷ rest) (step_4 a h k) (omega arith)
    ∙ next_step b 2 (low_4 a) (high_4 a) (c ∷ d ∷ rest) l m
    ∙ next_step c 1 128 191 (d ∷ rest) n o
    ∙ next_step d 0 128 191 rest p q

valid_utf8 :
    (n : ℕ) (rest : Bytes)
    → IsScalar n
    → valid_from 0 128 191 (utf8 n ++ rest) ≡ valid_from 0 128 191 rest
valid_utf8 n rest v = elim (Bool-cases (ltb n 128)) [
  | inl one ↦ rw one (first_step n 0 128 191 rest (step_1 n (ground arith)) (omega arith))
  | inr e ↦ elim (Bool-cases (ltb n 2048)) [
    | inl two ↦
        rw (e, two)
          (valid_2 (192 + n / 64) (128 + n % 64) rest (ground arith) (ground arith) (omega arith)
            (omega arith))
    | inr f ↦ elim (Bool-cases (ltb n 65536)) [
      | inl three ↦
          rw (e, f, three)
            (valid_3 (224 + n / 4096) (128 + n / 64 % 64) (128 + n % 64) rest (omega arith)
              (ground arith) (ground arith) (ground arith) (omega arith) (omega arith))
      | inr four ↦
          rw (e, f, four)
            (valid_4 (240 + n / 262144) (128 + n / 4096 % 64) (128 + n / 64 % 64) (128 + n % 64)
              rest (omega arith) (ground arith) (ground arith) (ground arith) (omega arith)
              (omega arith) (omega arith) (omega arith))
    ]
  ]
]

valid_text : (ns : List ℕ) → All IsScalar ns → valid_from 0 128 191 (text ns) ≡ true
unfolding valid_from
valid_text [] all = refl
valid_text (n ∷ ns) (v, all) = valid_utf8 n (text ns) v ∙ valid_text ns all

-- Every text of 1 to 255 bytes in UTF-8 is a valid credential, whatever its characters are.
pub wn_proxy_credential_valid-text :
    (ns : List ℕ)
    → All IsScalar ns
    → 0 < length (text ns)
    → length (text ns) ≤ 255
    → wn_proxy_credential_valid (text ns) ≡ true
unfolding wn_proxy_credential_valid
wn_proxy_credential_valid-text ns all long short = rw (fits, valid_text ns all) refl
  where
    fits : (length (text ns) == 0 || ltb 255 (length (text ns))) ≡ false
    fits = ground arith
