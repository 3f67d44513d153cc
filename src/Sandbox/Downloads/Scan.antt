-- ===== src/Sandbox/Downloads/Scan.antt =====
-- A quoted path in a line of user-dirs.dirs (app/main_sandbox.c).
use whitenoise_linux.Base.{
  ℕ, suc, ◌+◌, ◌<◌, [], ◌∷◌, ◌++◌, Bytes, Bool, true, false, not, leb, ◌||◌, if◌then◌else◌, codes,
  same_bytes, length, All, ◌≡◌, ◌≢◌, refl, sym, ap, ◌∙◌, arith, append-nil, append_assoc,
  length-append, if_true, if_false, Bool-cases, inl, inr,
}
use whitenoise_linux.Sandbox.Downloads.{
  value_max, is_special, ends_value, scan, skip, starts_with, finished, entry, read_value,
  read_line, key, is_absolute,
}

-- The text with a backslash before every special character.
abbrev pub escape : Bytes → Bytes
escape [] = []
escape (c ∷ v) = let rest = escape v in if is_special c then b'\\' ∷ c ∷ rest else c ∷ rest

-- There is neither a new line nor a NUL in the path.
abbrev pub IsOneLine : Bytes → Type 0
IsOneLine v = All (λ (c : ℕ). (c ≢ 10) × (0 < c)) v

-- One more character fits.
pub scan_plain :
    (value p : Bytes) (c : ℕ)
    → is_special c ≡ false
    → c ≢ 10
    → length value < value_max
    → scan false value (c ∷ p) ≡ scan false (value ++ c ∷ []) p
unfolding scan
scan_plain value p c s n h =
    if_false (ends_value c || leb value_max (length value)) _ _ (ground (arith, s, n, h))
    ∙ ap (λ (b : Bool). scan b (if b then value else value ++ c ∷ []) p) (ground (arith, s))

pub scan_escaped :
    (value p : Bytes) (c : ℕ)
    → is_special c ≡ true
    → length value < value_max
    → scan false value (b'\\' ∷ c ∷ p) ≡ scan false (value ++ c ∷ []) p
unfolding scan
scan_escaped value p c s h =
    if_false (leb value_max (length value)) _ _ (ground (arith, h)) ∙ if_true (is_special c) _ _ s

pub scan-escape :
    (value v rest : Bytes)
    → IsOneLine v
    → length value + length v < value_max
    → scan false value (escape v ++ b'"' ∷ rest) ≡ (value ++ v, b'"' ∷ rest)
unfolding scan
scan-escape value [] rest o h = ap (λ (x : Bytes). (x, b'"' ∷ rest)) (sym (append-nil value))
scan-escape value (c ∷ v) rest (n, o) h =
    let more =
      scan-escape (value ++ c ∷ []) v rest o (shorter value v c h)
      ∙ ap (λ (x : Bytes). (x, b'"' ∷ rest)) (append_assoc value (c ∷ []) v) in
    elim (Bool-cases (is_special c)) [
      | inl s ↦
          ap (λ (x : Bytes). scan false value (x ++ b'"' ∷ rest)) (if_true (is_special c) _ _ s)
          ∙ scan_escaped value (escape v ++ b'"' ∷ rest) c s (omega (arith, h))
          ∙ more
      | inr s ↦
          ap (λ (x : Bytes). scan false value (x ++ b'"' ∷ rest)) (if_false (is_special c) _ _ s)
          ∙ scan_plain value (escape v ++ b'"' ∷ rest) c s n.0 (omega (arith, h))
          ∙ more
    ]
  where
    shorter :
        (value v : Bytes) (c : ℕ)
        → length value + suc (length v) < value_max
        → length (value ++ c ∷ []) + length v < value_max
    shorter value v c h = omega (arith, length-append value (c ∷ []), h)

-- A line with the key and a path in quotes.
abbrev pub line_of : Bytes → Bytes
line_of path = key ++ b'"' ∷ (path ++ b'"' ∷ 10 ∷ [])

pub finished_entry :
    (value : Bytes)
    → is_absolute value ≡ true
    → length value < value_max
    → finished (value, b'"' ∷ 10 ∷ []) ≡ entry value
unfolding skip
finished_entry value a h =
    if_false (leb value_max (length value)) _ _ (ground (arith, h))
    ∙ if_false (not (is_absolute value)) _ _ (ap not a)

pub read_value-escape :
    (home v : Bytes)
    → IsOneLine v
    → suc (length v) < value_max
    → read_value home (escape (b'/' ∷ v) ++ b'"' ∷ 10 ∷ []) ≡ entry (b'/' ∷ v)
unfolding read_value starts_with same_bytes
read_value-escape home v o h =
    ap finished (
      scan-escape [] (b'/' ∷ v) (10 ∷ []) ((λ e. absurd (omega (arith, e)), omega arith), o)
        (omega (arith, h)))
    ∙ finished_entry (b'/' ∷ v) refl h

pub home-escape :
    (home v : Bytes)
    → is_absolute home ≡ true
    → IsOneLine v
    → length home + suc (length v) < value_max
    → read_value home ((codes "$HOME" ++ escape (b'/' ∷ v)) ++ b'"' ∷ 10 ∷ [])
      ≡ entry (home ++ b'/' ∷ v)
unfolding read_value starts_with same_bytes
home-escape home v a o h =
    ap finished
      (scan-escape home (b'/' ∷ v) (10 ∷ []) ((λ e. absurd (omega (arith, e)), omega arith), o) h)
    ∙ finished_entry (home ++ b'/' ∷ v) (leads home a)
        (omega (arith, length-append home (b'/' ∷ v), h))
  where
    leads : (home : Bytes) → is_absolute home ≡ true → is_absolute (home ++ b'/' ∷ v) ≡ true
    leads [] e = refl
    leads (c ∷ home) e = e

-- A line that fgets has read whole.
pub read_line-escape :
    (home v : Bytes)
    → is_absolute home ≡ true
    → IsOneLine v
    → length home + suc (length v) < value_max
    → (read_line home false (line_of (escape (b'/' ∷ v))) ≡ entry (b'/' ∷ v))
      × (read_line home false (line_of (codes "$HOME" ++ escape (b'/' ∷ v)))
          ≡ entry (home ++ b'/' ∷ v))
unfolding read_line skip starts_with same_bytes
read_line-escape home v a o h =
    (read_value-escape home v o (omega (arith, h)), home-escape home v a o h)
